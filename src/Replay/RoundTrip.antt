-- ===== src/Replay/RoundTrip.antt =====
-- What was committed is read back.
use novamind.Prelude.{
  ℕ, suc, ◌+◌, String, ◌≡◌, refl, sym, ap, ◌∙◌, true, false, Option, none, some, List, [], ◌∷◌,
  ◌++◌, map, length, flat, flat-snoc, length-append, take, take-length, arith, inl, inr, eq_refl,
  ◌⊎◌,
}
use mathlib.Core.Path.{subst}
use mathlib.Core.List.{map-append}
use novamind.Prelude.Result.{ok}
use novamind.Recorder.{Payload, Line, RecoveryJournal, line_of, commit_all, open_journal}
use novamind.Recorder.Chain.{Chain, IsJournal, commit_all-IsJournal, open_journal-IsJournal}
use novamind.Replay.{
  strict, Raw, event, Located, Delta, located_in, located, Reader, same_hash, defect, check,
  read_deltas, fresh_reader, read_session, delta_of, proceed, keep,
}

raws : List Located → List Raw
raws xs = map (λ (x : Located). x.raw) xs

raws-append : (xs ys : List Located) → raws (xs ++ ys) ≡ raws xs ++ raws ys
unfolding raws
raws-append [] ys = refl
raws-append (x ∷ xs) ys = rw (raws-append xs ys) refl

raws-located_in : (seg n : ℕ) (xs : List Raw) → raws (located_in seg n xs) ≡ xs
unfolding raws located_in
raws-located_in seg n [] = refl
raws-located_in seg n (x ∷ xs) = ap (λ ys. x ∷ ys) (raws-located_in seg (n + 1) xs)

raws-located : (seg : ℕ) (files : List (List Raw)) → raws (located seg files) ≡ flat files
unfolding located raws
raws-located seg [] = refl
raws-located seg (f ∷ fs) =
    raws-append (located_in seg 1 f) (located (seg + 1) fs)
    ∙ ap (λ xs. xs ++ raws (located (seg + 1) fs)) (raws-located_in seg 1 f)
    ∙ ap (λ ys. f ++ ys) (raws-located (seg + 1) fs)

abbrev pub lines_of : List Delta → List Line
lines_of ds = map (λ (d : Delta). d.line) ds

same_hash_refl : (h : Option String) → same_hash h h ≡ true
same_hash_refl none = refl
same_hash_refl (some a) = eq_refl a

module _ (digest : Payload → String → Option (Option String) → String)
    (topology : Payload → Option String → String) where
  -- A line of the chain passes both tests.
  defect-line_of :
      (h e : Option String) (p : Payload)
      → (e ≡ none) ⊎ (e ≡ h)
      → defect digest e (line_of digest topology p h) ≡ none
  unfolding defect
  defect-line_of h e p (inl n) = rw n (rw (eq_refl (digest p (topology p h) (some h))) refl)
  defect-line_of h e p (inr n) =
      rw n (rw (same_hash_refl h, eq_refl (digest p (topology p h) (some h))) (ground arith))

  check-line_of :
      (h : Option String) (p : Payload) (r : Reader)
      → r.legacy ≡ false
      → (r.expected ≡ none) ⊎ (r.expected ≡ h)
      → check digest strict r (event (line_of digest topology p h))
        ≡ (keep, record r { is_first = false; expected = (line_of digest topology p h).event_hash })
  unfolding check
  check-line_of h p r modern e = ground (arith, modern, defect-line_of h r.expected p e)

  read_deltas-Chain :
      (min : ℕ) (xs : List Located) (ls : List Line) (h h' : Option String) (r : Reader)
      → raws xs ≡ map event ls
      → Chain digest topology h ls h'
      → r.legacy ≡ false
      → (r.expected ≡ none) ⊎ (r.expected ≡ h)
      → (ds : List Delta) × (read_deltas digest strict min r xs ≡ ok ds) × (lines_of ds ≡ ls)
  unfolding raws read_deltas
  read_deltas-Chain min [] [] h h' r same c modern e = ([], refl, refl)
  read_deltas-Chain min [] (l ∷ ls) h h' r same c modern e = cc same
  read_deltas-Chain min (x ∷ xs) [] h h' r same c modern e = cc same
  read_deltas-Chain min (x ∷ xs) (l ∷ ls) h h' r same (c, cs) modern e =
      let here : x.raw ≡ event l = cc same in
      let below : raws xs ≡ map event ls = cc same in
      let l' : Line = line_of digest topology l.payload h in
      let r' : Reader = record r { is_first = false; expected = l'.event_hash } in
      let (ds, ran, eq) =
        read_deltas-Chain min xs ls l.event_hash h' r' below cs modern
          (inr (ap (λ (k : Line). k.event_hash) (sym c))) in
      (
        delta_of x l' ∷ ds,
        subst
            (λ w.
              proceed min x w (check digest strict r w).0
                (read_deltas digest strict min (check digest strict r w).1 xs)
              ≡ ok (delta_of x l' ∷ ds))
            (sym (here ∙ ap event c)) (rw (check-line_of h l.payload r modern e) (rw ran refl)),
        cc (c, eq),
      )

map-flat :
    (decoded : Line → Raw) (fs : List (List Line))
    → flat (map (map decoded) fs) ≡ map decoded (flat fs)
map-flat decoded [] = refl
map-flat decoded (f ∷ fs) = rw (map-flat decoded fs) (sym (map-append decoded f (flat fs)))

-- The lines of the events, whatever hash stands before them, are decoded to what was encoded: this
-- holds for contents that JSON has, with texts for keys.
abbrev pub AreExact :
    (Payload → String → Option (Option String) → String)
    → (Payload → Option String → String)
    → (Line → Raw)
    → List Payload
    → Type 0
AreExact digest topology decoded [] = Unit
AreExact digest topology decoded (p ∷ ps) =
    ((h : Option String)
      → decoded (line_of digest topology p h) ≡ event (line_of digest topology p h))
    × AreExact digest topology decoded ps

map-decoded :
    (digest : Payload → String → Option (Option String) → String)
    (topology : Payload → Option String → String) (decoded : Line → Raw) (ls : List Line)
    (ps : List Payload) (h h' : Option String)
    → Chain digest topology h ls h'
    → map (λ (l : Line). l.payload) ls ≡ ps
    → AreExact digest topology decoded ps
    → map decoded ls ≡ map event ls
map-decoded digest topology decoded [] ps h h' c same exact = refl
map-decoded digest topology decoded (l ∷ ls) [] h h' c same exact = cc same
map-decoded digest topology decoded (l ∷ ls) (p ∷ ps) h h' (c, cs) same (here, below) =
    let first : l.payload ≡ p = cc same in
    let rest : map (λ (k : Line). k.payload) ls ≡ ps = cc same in
    let line : l ≡ line_of digest topology p h = c ∙ ap (λ q. line_of digest topology q h) first in
    let one : decoded l ≡ event l = subst (λ k. decoded k ≡ event k) (sym line) (here h) in
    let more : map decoded ls ≡ map event ls =
      map-decoded digest topology decoded ls ps l.event_hash h' cs rest below in
    ap (λ x. x ∷ map decoded ls) one ∙ ap (λ xs. event l ∷ xs) more

length-map : {A B : Type 0} (f : A → B) (xs : List A) → length (map f xs) ≡ length xs
length-map f [] = refl
length-map f (x ∷ xs) = ap suc (length-map f xs)

-- What a new session commits, if no write fails and the lines of its events are decoded to what was
-- encoded, is what a STRICT replay reads, in order, from any number of segments and wherever they were
-- rotated: `read_session` takes the count of the manifest, and no sequence id holds an event back.
pub read_session-commit_all :
    (digest : Payload → String → Option (Option String) → String)
    (topology : Payload → Option String → String) (size : Line → ℕ) (decoded : Line → Raw) (min : ℕ)
    (ps : List Payload)
    → AreExact digest topology decoded ps
    → let j : RecoveryJournal = commit_all digest topology size ps (open_journal [] []) in
      (ds : List Delta) × (read_session digest strict min j.segment_count
          (map (map decoded) j.files)
        ≡ ok ds)
      × (map (λ (d : Delta). d.line.payload) ds ≡ ps)
unfolding read_session
read_session-commit_all digest topology size decoded min ps exact =
    let j : RecoveryJournal = commit_all digest topology size ps (open_journal [] []) in
    let v : IsJournal digest topology ps j.last_hash j =
      commit_all-IsJournal digest topology size ps [] (open_journal [] [])
        (open_journal-IsJournal digest topology size []) in
    let whole : flat v.before ++ v.current ≡ flat j.files =
      sym (ap flat v.logged.all_files ∙ flat-snoc v.before v.current) in
    let count : j.segment_count ≡ length (map (map decoded) j.files) =
      v.logged.counted
      ∙ files_count v.before v.current
      ∙ ap length (sym v.logged.all_files)
      ∙ sym (length-map (map decoded) j.files) in
    let segments : take j.segment_count (map (map decoded) j.files) ≡ map (map decoded) j.files =
      ap (λ n. take n (map (map decoded) j.files)) count
      ∙ take-length (map (map decoded) j.files) in
    let xs : List Located = located 0 (take j.segment_count (map (map decoded) j.files)) in
    let same : raws xs ≡ map event (flat v.before ++ v.current) =
      raws-located 0 (take j.segment_count (map (map decoded) j.files))
      ∙ ap flat segments
      ∙ map-flat decoded j.files
      ∙ ap (map decoded) (sym whole)
      ∙ map-decoded digest topology decoded (flat v.before ++ v.current) ps none j.last_hash
          v.logged.chain v.logged.events exact in
    let (ds, ran, eq) =
      read_deltas-Chain digest topology min xs (flat v.before ++ v.current) none j.last_hash
        fresh_reader same v.logged.chain refl (inl refl) in
    (ds, ran, payloads ds ∙ ap (map (λ (l : Line). l.payload)) eq ∙ v.logged.events)
  where
    files_count : (fs : List (List Line)) (f : List Line) → suc (length fs) ≡ length (fs ++ f ∷ [])
    files_count fs f = omega (arith, length-append fs (f ∷ []))

    payloads :
        (ds : List Delta)
        → map (λ (d : Delta). d.line.payload) ds ≡ map (λ (l : Line). l.payload) (lines_of ds)
    payloads [] = refl
    payloads (d ∷ ds) = ap (λ qs. d.line.payload ∷ qs) (payloads ds)
