-- ===== src/Recorder/Chain.antt =====
-- The lines of a log in which no write has failed are one chain, whatever the segments.
use novamind.Prelude.{
  ℕ, suc, ◌+◌, String, ◌≡◌, refl, sym, ap, ◌∙◌, Bool, true, false, ◌||◌, Option, none, List, [],
  ◌∷◌, ◌++◌, map, length, ltb, leb, if◌then◌else◌, flat, flat-snoc, append_assoc, append-nil,
  length-append, arith, Bool-cases, inl, inr,
}
use mathlib.Core.Path.{subst}
use novamind.Recorder.{
  Payload, Line, RecoveryJournal, open_file, open_segment, open_journal, rotate_segment, append_at,
  line_of, fits, write, commit_sync, commit_all, max_segment_bytes, max_segment_events,
}

append_at-length :
    (l : Line) (fs : List (List Line)) (f : List Line)
    → append_at (length fs) l (fs ++ f ∷ []) ≡ fs ++ (f ++ l ∷ []) ∷ []
unfolding append_at
append_at-length l [] f = refl
append_at-length l (g ∷ fs) f = rw (append_at-length l fs f) refl

open_file_next :
    (fs : List (List Line)) (f : List Line)
    → open_file (length fs + 1) (fs ++ f ∷ []) ≡ (fs ++ f ∷ []) ++ [] ∷ []
unfolding open_file
open_file_next fs f = ground (arith, length-append fs (f ∷ []))

module _ (digest : Payload → String → Option (Option String) → String)
    (topology : Payload → Option String → String) where
  -- The lines follow the hash `h` and end with `h'`.
  abbrev pub Chain : Option String → List Line → Option String → Type 0
  Chain h [] h' = h ≡ h'
  Chain h (l ∷ ls) h' = (l ≡ line_of digest topology l.payload h) × Chain l.event_hash ls h'

  Chain-snoc :
      (h h' : Option String) (ls : List Line) (p : Payload)
      → Chain h ls h'
      → Chain h (ls ++ line_of digest topology p h' ∷ []) (line_of digest topology p h').event_hash
  Chain-snoc h h' [] p c = (ap (λ k. line_of digest topology p k) (sym c), refl)
  Chain-snoc h h' (l ∷ ls) p (e, c) = (e, Chain-snoc l.event_hash h' ls p c)

  -- The journal has logged the events `ps`, the last with the hash `h`: `fs` are the segments before
  -- the current one, `f`.
  pub record IsLogged (ps : List Payload) (h : Option String) (fs : List (List Line))
      (f : List Line) (j : RecoveryJournal) : Type 0 where
    pub all_files : j.files ≡ fs ++ f ∷ []
    pub index : j.segment_index ≡ length fs
    pub counted : j.segment_count ≡ suc (length fs)
    pub chain : Chain none (flat fs ++ f) h
    pub events : map (λ (l : Line). l.payload) (flat fs ++ f) ≡ ps

  -- For some segments.
  pub record IsJournal (ps : List Payload) (h : Option String) (j : RecoveryJournal) : Type 0 where
    pub before : List (List Line)
    pub current : List Line
    pub logged : IsLogged ps h before current j

  flat-next : (fs : List (List Line)) (f : List Line) → flat (fs ++ f ∷ []) ++ [] ≡ flat fs ++ f
  flat-next fs f = append-nil (flat (fs ++ f ∷ [])) ∙ flat-snoc fs f

  open_segment-IsLogged :
      (ps : List Payload) (h : Option String) (fs : List (List Line)) (f : List Line)
      (j : RecoveryJournal)
      → IsLogged ps h fs f j
      → IsLogged ps h (fs ++ f ∷ []) [] (open_segment (j.segment_index + 1) j)
  unfolding open_segment
  open_segment-IsLogged ps h fs f j v = record {
    all_files =
        subst (λ i. open_file (i + 1) j.files ≡ (fs ++ f ∷ []) ++ [] ∷ []) (sym v.index)
          (subst (λ g. open_file (length fs + 1) g ≡ (fs ++ f ∷ []) ++ [] ∷ []) (sym v.all_files)
            (open_file_next fs f));
    index = omega (arith, v.index, length-append fs (f ∷ []));
    counted = omega (arith, v.index, length-append fs (f ∷ []));
    chain = subst (λ ls. Chain none ls h) (sym (flat-next fs f)) v.chain;
    events = ap (map (λ (l : Line). l.payload)) (flat-next fs f) ∙ v.events;
  }

  rotate_segment-IsJournal :
      (b : Bool) (ps : List Payload) (h : Option String) (j : RecoveryJournal)
      → IsJournal ps h j
      → IsJournal ps h (rotate_segment b j)
  unfolding rotate_segment
  rotate_segment-IsJournal false ps h j v = record {
    before = v.before ++ v.current ∷ [];
    current = [];
    logged = open_segment-IsLogged ps h v.before v.current j v.logged;
  }
  rotate_segment-IsJournal true ps h j v = record {
    before = v.before ++ v.current ∷ [];
    current = [];
    logged =
        open_segment-IsLogged ps h v.before v.current
          (record j { checkpoint_segments = j.checkpoint_segments ++ j.segment_index ∷ [] })
          (record {
            all_files = v.logged.all_files;
            index = v.logged.index;
            counted = v.logged.counted;
            chain = v.logged.chain;
            events = v.logged.events;
          });
  }

  map-snoc :
      (ls : List Line) (l : Line)
      → map (λ (x : Line). x.payload) (ls ++ l ∷ [])
        ≡ map (λ (x : Line). x.payload) ls ++ l.payload ∷ []
  map-snoc [] l = refl
  map-snoc (x ∷ ls) l = rw (map-snoc ls l) refl

  module _ (size : Line → ℕ) where
    -- The line of the next event is written.
    write-IsJournal :
        (ps : List Payload) (p : Payload) (h : Option String) (j : RecoveryJournal)
        → IsJournal ps h j
        → IsJournal
            (ps ++ p ∷ [])
            (line_of digest topology p h).event_hash
            (write digest topology size (line_of digest topology p h) j)
    unfolding write
    write-IsJournal ps p h j v =
        let l : Line = line_of digest topology p h in
        let fs : List (List Line) = v.before in
        let f : List Line = v.current in
        record {
          before = fs;
          current = f ++ l ∷ [];
          logged = record {
            all_files =
                subst (λ i. append_at i l j.files ≡ fs ++ (f ++ l ∷ []) ∷ []) (sym v.logged.index)
                  (subst (λ g. append_at (length fs) l g ≡ fs ++ (f ++ l ∷ []) ∷ [])
                    (sym v.logged.all_files) (append_at-length l fs f));
            index = v.logged.index;
            counted = v.logged.counted;
            chain =
                subst (λ ls. Chain none ls l.event_hash) (append_assoc (flat fs) f (l ∷ []))
                  (Chain-snoc none h (flat fs ++ f) p v.logged.chain);
            events =
                ap (map (λ (x : Line). x.payload)) (sym (append_assoc (flat fs) f (l ∷ [])))
                ∙ map-snoc (flat fs ++ f) l
                ∙ ap (λ qs. qs ++ p ∷ []) v.logged.events;
          };
        }

    -- The hash in the memory of the journal does not matter for its files.
    with_hash :
        (ps : List Payload) (h k : Option String) (j : RecoveryJournal)
        → IsJournal ps h j
        → IsJournal ps h (record j { last_hash = k })
    with_hash ps h k j v = record {
      before = v.before;
      current = v.current;
      logged = record {
        all_files = v.logged.all_files;
        index = v.logged.index;
        counted = v.logged.counted;
        chain = v.logged.chain;
        events = v.logged.events;
      };
    }

    fits-IsJournal :
        (ps : List Payload) (h : Option String) (l : Line) (j : RecoveryJournal)
        → IsJournal ps h j
        → IsJournal ps h (fits digest topology size l j)
    unfolding fits
    fits-IsJournal ps h l j v =
        elim (Bool-cases (
          ltb max_segment_bytes (j.segment_bytes + size l)
          || leb max_segment_events j.segment_events)) [
            | inl f ↦ rw f (rotate_segment-IsJournal false ps h j v)
            | inr f ↦ rw f v
          ]

    fits-last_hash :
        (l : Line) (j : RecoveryJournal) → (fits digest topology size l j).last_hash ≡ j.last_hash
    unfolding fits rotate_segment open_segment
    fits-last_hash l j = ground arith

    checkpoint-IsJournal :
        (b : Bool) (ps : List Payload) (h : Option String) (j : RecoveryJournal)
        → IsJournal ps h j
        → IsJournal ps h (if b then rotate_segment true j else j)
    checkpoint-IsJournal true ps h j v = rotate_segment-IsJournal true ps h j v
    checkpoint-IsJournal false ps h j v = v

    checkpoint-last_hash :
        (b : Bool) (j : RecoveryJournal)
        → (if b then rotate_segment true j else j).last_hash ≡ j.last_hash
    unfolding rotate_segment open_segment
    checkpoint-last_hash true j = refl
    checkpoint-last_hash false j = refl

    write-last_hash :
        (l : Line) (j : RecoveryJournal) → (write digest topology size l j).last_hash ≡ j.last_hash
    unfolding write
    write-last_hash l j = refl

    -- What `commit_sync` leaves in the files and in the memory.
    pub commit_sync-IsJournal :
        (ps : List Payload) (p : Payload) (j : RecoveryJournal)
        → IsJournal ps j.last_hash j
        → IsJournal
            (ps ++ p ∷ [])
            (commit_sync digest topology size true p j).1.last_hash
            (commit_sync digest topology size true p j).1
    unfolding commit_sync
    commit_sync-IsJournal ps p j v =
        let l : Line = line_of digest topology p j.last_hash in
        let k : RecoveryJournal =
          fits digest topology size l (record j { last_hash = l.event_hash }) in
        let w : IsJournal (ps ++ p ∷ []) l.event_hash (write digest topology size l k) =
          write-IsJournal ps p j.last_hash k (
            fits-IsJournal ps j.last_hash l (record j { last_hash = l.event_hash })
              (with_hash ps j.last_hash l.event_hash j v)) in
        let same : (if p.is_quiescent
              then rotate_segment true (write digest topology size l k)
              else write digest topology size l k).last_hash
            ≡ l.event_hash =
          checkpoint-last_hash p.is_quiescent (write digest topology size l k)
          ∙ write-last_hash l k
          ∙ fits-last_hash l (record j { last_hash = l.event_hash }) in
        subst
          (λ h. IsJournal (ps ++ p ∷ []) h (
            if p.is_quiescent
            then rotate_segment true (write digest topology size l k)
            else write digest topology size l k))
          (sym same)
          (checkpoint-IsJournal p.is_quiescent (ps ++ p ∷ []) l.event_hash
            (write digest topology size l k) w)

    pub commit_all-IsJournal :
        (qs ps : List Payload) (j : RecoveryJournal)
        → IsJournal ps j.last_hash j
        → IsJournal
            (ps ++ qs)
            (commit_all digest topology size qs j).last_hash
            (commit_all digest topology size qs j)
    unfolding commit_all
    commit_all-IsJournal [] ps j v =
        subst (λ xs. IsJournal xs j.last_hash j) (sym (append-nil ps)) v
    commit_all-IsJournal (q ∷ qs) ps j v =
        let next : RecoveryJournal = (commit_sync digest topology size true q j).1 in
        subst
          (λ xs.
            IsJournal xs (commit_all digest topology size qs next).last_hash
              (commit_all digest topology size qs next))
          (append_assoc ps (q ∷ []) qs)
          (commit_all-IsJournal qs (ps ++ q ∷ []) next (commit_sync-IsJournal ps q j v))

    pub open_journal-IsJournal :
        (checkpoints : List ℕ)
        → IsJournal [] (open_journal [] checkpoints).last_hash (open_journal [] checkpoints)
    unfolding open_journal open_segment open_file
    open_journal-IsJournal checkpoints = record {
      before = [];
      current = [];
      logged = record {
        all_files = refl;
        index = refl;
        counted = refl;
        chain = refl;
        events = refl;
      };
    }
