-- ===== src/Replay.antt =====
-- core/replay/replay_engine.py: reading the segments of a session with their hash chain. A line of a
-- file is blank, or not JSON, or an event (Recorder.Line), or JSON that the loop cannot handle, such as
-- a number, which raises outside its `try`. A file is UTF-8 text. What decoding gives for a line that
-- was written is an argument. The segments are those that the manifest counts. The log messages are left out; an exception says which of its causes it has.
pub mod RoundTrip
pub mod Salvage
mod Samples
use novamind.Prelude.{
  ℕ, zero, suc, ◌+◌, String, Bool, true, false, not, ◌&&◌, ◌||◌, Option, none, some, List, [], ◌∷◌,
  ◌++◌, length, ltb, leb, if◌then◌else◌, ◌==◌, take,
}
use novamind.Prelude.Result.{Result, ok, err}
use novamind.Recorder.{Payload, Line}

pub data ReplayMode : Type 0 where
  strict diagnostic forensic salvage : ReplayMode

pub data ReadError : Type 0 where
  corrupt_data legacy_wal chain_divergence event_forgery unexpected : ReadError

pub data Raw : Type 0 where
  blank corrupt : Raw
  no_event : Raw  -- no object, or its sequence_id is no number
  event : Line → Raw

-- A line with the number of its segment and its own.
pub record Located : Type 0 where
  pub segment_id : ℕ
  pub line_num : ℕ
  pub raw : Raw

pub record Delta : Type 0 where
  pub segment_id : ℕ
  pub line_num : ℕ
  pub line : Line

-- enumerate(f, 1)
unfoldable pub located_in : ℕ → ℕ → List Raw → List Located
located_in seg n [] = []
located_in seg n (x ∷ xs) =
    record { segment_id = seg; line_num = n; raw = x } ∷ located_in seg (n + 1) xs

unfoldable pub located : ℕ → List (List Raw) → List Located
located seg [] = []
located seg (f ∷ fs) = located_in seg 1 f ++ located (seg + 1) fs

-- The local variables, and `_legacy_fallback_active`.
pub record Reader : Type 0 where
  pub expected : Option String
  pub is_first : Bool
  pub legacy : Bool

abbrev pub same_hash : Option String → Option String → Bool
same_hash none none = true
same_hash (some a) (some b) = a == b
same_hash _ _ = false

abbrev pub is_some {ℓ} : {A : Type ℓ} → Option A → Bool
is_some none = false
is_some (some a) = true

-- event.get("previous_hash")
abbrev pub get_previous : Option (Option String) → Option String
get_previous none = none
get_previous (some h) = h

pub data Verdict : Type 0 where
  keep skip stop : Verdict
  fault : ReadError → Verdict

-- What each mode does about a line that is not valid.
abbrev pub on_defect : ReplayMode → ReadError → Verdict
on_defect strict e = fault e
on_defect salvage e = stop
on_defect _ e = keep

abbrev pub on_corrupt : ReplayMode → Verdict
on_corrupt strict = fault corrupt_data
on_corrupt salvage = stop
on_corrupt _ = skip

abbrev pub on_legacy : ReplayMode → Verdict
on_legacy strict = fault legacy_wal
on_legacy _ = keep

-- seq > min_sequence or seq == -1
abbrev pub is_after : ℕ → Option ℕ → Bool
is_after min none = true
is_after min (some n) = ltb min n

abbrev pub delta_of : Located → Line → Delta
delta_of x l = record { segment_id = x.segment_id; line_num = x.line_num; line = l }

abbrev pub push : ℕ → Located → Raw → Result ReadError (List Delta) → Result ReadError (List Delta)
push min x (event l) (ok ds) = ok (if is_after min l.sequence_id then delta_of x l ∷ ds else ds)
push min x _ r = r

abbrev pub proceed :
    ℕ → Located → Raw → Verdict → Result ReadError (List Delta) → Result ReadError (List Delta)
proceed min x raw keep rest = push min x raw rest
proceed min x raw skip rest = rest
proceed min x raw stop rest = ok []
proceed min x raw (fault e) rest = err e

abbrev pub fresh_reader : Reader
fresh_reader = record { expected = none; is_first = true; legacy = false }

module _ (digest : Payload → String → Option (Option String) → String) where
  abbrev pub hash_of : Line → String
  hash_of l = digest l.payload l.topology_hash l.previous_hash

  -- The two tests of the hash chain.
  unfoldable pub defect : Option String → Line → Option ReadError
  defect expected l =
      if is_some expected && not (same_hash (get_previous l.previous_hash) expected)
      then some chain_divergence
      else if same_hash (some (hash_of l)) l.event_hash
      then none
      else some event_forgery

  abbrev pub verdict_of : ReplayMode → Option ReadError → Verdict
  verdict_of m none = keep
  verdict_of m (some e) = on_defect m e

  -- The hash chain goes on from the hash that the line says it has.
  abbrev pub chained : ReplayMode → Reader → Line → Verdict × Reader
  chained m r l =
      if r.legacy
      then (keep, r)
      else (verdict_of m (defect r.expected l), record r { expected = l.event_hash })

  unfoldable pub check : ReplayMode → Reader → Raw → Verdict × Reader
  check m r blank = (skip, r)
  check m r corrupt = (on_corrupt m, r)
  check m r no_event = (fault unexpected, r)
  check m r (event l) =
      if r.is_first && not (is_some l.previous_hash)
      then (on_legacy m, record r { is_first = false; legacy = true })
      else chained m (record r { is_first = false }) l

  -- The loop of `_read_deltas`, as a list.
  unfoldable pub read_deltas :
      ReplayMode → ℕ → Reader → List Located → Result ReadError (List Delta)
  read_deltas m min r [] = ok []
  read_deltas m min r (x ∷ xs) =
      let rest = read_deltas m min (check m r x.raw).1 xs in
      proceed min x x.raw (check m r x.raw).0 rest

  -- _read_deltas on the files of a session whose manifest counts `n` segments
  unfoldable pub read_session : ReplayMode → ℕ → ℕ → List (List Raw) → Result ReadError (List Delta)
  read_session m min n files = read_deltas m min fresh_reader (located 0 (take n files))
