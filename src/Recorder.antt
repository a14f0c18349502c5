-- ===== src/Recorder.antt =====
-- core/replay/event_recorder.py, RecoveryJournal: the log that an event is written to before it is
-- propagated. A segment file is the list of its lines, and a line its parsed fields. `digest` is
-- state_hash of an event without its hash, `topology` that of the node, and `size` the length of a
-- line as JSON; what the JSON of a line is decoded to is an argument of the replay (Replay/RoundTrip); `written` tells whether the write and the fsync succeed. The lock, the times and the
-- other columns of the manifest are left out, and so is the wrapper for callers of an older interface.
pub mod Chain
use novamind.Prelude.{
  ℕ, zero, suc, ◌+◌, ◌*◌, String, Bool, true, false, ◌&&◌, ◌||◌, Option, none, some, List, [], ◌∷◌,
  ◌++◌, length, ltb, leb, if◌then◌else◌,
}

pub record Payload : Type 0 where
  pub event_id : String
  pub content : String  -- the other fields
  pub is_quiescent : Bool  -- a SchedulerEvent with the action TOPOLOGY_QUIESCENT

-- A line: a key that it lacks is `none`. A `previous_hash` of None is `some none`.
pub record Line : Type 0 where
  pub payload : Payload
  pub topology_hash : String
  pub sequence_id : Option ℕ
  pub previous_hash : Option (Option String)
  pub event_hash : Option String

pub record RecoveryJournal : Type 0 where
  pub files : List (List Line)
  pub segment_index : ℕ
  pub segment_bytes : ℕ
  pub segment_events : ℕ
  pub last_hash : Option String
  pub checkpoint_segments : List ℕ
  pub segment_count : ℕ  -- in the manifest

abbrev pub max_segment_bytes : ℕ
max_segment_bytes = 67108864

abbrev pub max_segment_events : ℕ
max_segment_events = 100000

-- open(path, "a"), which makes the file of the next index
unfoldable pub open_file : ℕ → List (List Line) → List (List Line)
open_file i files = if ltb i (length files) then files else files ++ [] ∷ []

-- _open_segment
unfoldable pub open_segment : ℕ → RecoveryJournal → RecoveryJournal
unfolding open_file
open_segment i j = record j {
  files = open_file i j.files;
  segment_index = i;
  segment_bytes = 0;
  segment_events = 0;
  segment_count = i + 1;
}

-- __init__, on the files that the session has and the checkpoints of its manifest
unfoldable pub open_journal : List (List Line) → List ℕ → RecoveryJournal
unfolding open_segment
open_journal files checkpoints = open_segment 0 (record {
  files = files;
  segment_index = length files;
  segment_bytes = 0;
  segment_events = 0;
  last_hash = none;
  checkpoint_segments = checkpoints;
  segment_count = length files + 1;
})

-- _rotate_segment
unfoldable pub rotate_segment : Bool → RecoveryJournal → RecoveryJournal
rotate_segment false j = open_segment (j.segment_index + 1) j
rotate_segment true j =
    open_segment (j.segment_index + 1)
      (record j { checkpoint_segments = j.checkpoint_segments ++ j.segment_index ∷ [] })

-- file.write at the end of the file with the index
unfoldable pub append_at : ℕ → Line → List (List Line) → List (List Line)
append_at i l [] = []
append_at zero l (f ∷ fs) = (f ++ l ∷ []) ∷ fs
append_at (suc i) l (f ∷ fs) = f ∷ append_at i l fs

module _ (digest : Payload → String → Option (Option String) → String)
    (topology : Payload → Option String → String) where
  -- The line of an event after the hash `h`.
  abbrev pub line_of : Payload → Option String → Line
  line_of p h = record {
    payload = p;
    topology_hash = topology p h;
    sequence_id = none;
    previous_hash = some h;
    event_hash = some (digest p (topology p h) (some h));
  }

  module _ (size : Line → ℕ) where
    unfoldable pub fits : Line → RecoveryJournal → RecoveryJournal
    fits l j =
        if ltb max_segment_bytes (j.segment_bytes + size l)
          || leb max_segment_events j.segment_events
        then rotate_segment false j
        else j

    -- The write with its flush and fsync, and the counters.
    unfoldable pub write : Line → RecoveryJournal → RecoveryJournal
    write l j = record j {
      files = append_at j.segment_index l j.files;
      segment_bytes = j.segment_bytes + size l;
      segment_events = j.segment_events + 1;
    }

    -- commit_sync: false is the RuntimeError. A failed write leaves no line, but the hash has moved on.
    unfoldable pub commit_sync : Bool → Payload → RecoveryJournal → Bool × RecoveryJournal
    commit_sync written p j =
        let l = line_of p j.last_hash in
        let ready = fits l (record j { last_hash = l.event_hash }) in
        if written
        then (true, if p.is_quiescent then rotate_segment true (write l ready) else write l ready)
        else (false, ready)

    -- Events one after the other, none of which fails.
    unfoldable pub commit_all : List Payload → RecoveryJournal → RecoveryJournal
    commit_all [] j = j
    commit_all (p ∷ ps) j = commit_all ps (commit_sync true p j).1
