-- ===== src/Replay/Samples.antt =====
-- A session of three events in two segments.
use novamind.Prelude.{ℕ, String, ◌≡◌, refl, true, false, Option, none, List, [], ◌∷◌, map}
use novamind.Prelude.Result.{ok, err}
use novamind.Recorder.{
  Payload, Line, RecoveryJournal, commit_sync, commit_all, open_journal, open_segment, open_file,
  rotate_segment, append_at, fits, write, line_of,
}
use novamind.Replay.{
  salvage, event_forgery, unexpected, no_event, strict, chain_divergence, Raw, corrupt, event,
  Located, Delta, located, located_in, check, defect, read_deltas, read_session, fresh_reader,
}
use novamind.Replay.RoundTrip.{read_session-commit_all}

abbrev digest : Payload → String → Option (Option String) → String
digest p t h = p.content

abbrev topology : Payload → Option String → String
topology p h = p.event_id

abbrev size : Line → ℕ
size l = 100

abbrev plain : String → String → Payload
plain id text = record { event_id = id; content = text; is_quiescent = false }

abbrev events : List Payload
events =
    plain "1" "opened"
    ∷ record (plain "2" "quiescent") { is_quiescent = true }
    ∷ plain "3" "closed"
    ∷ []

abbrev session : RecoveryJournal
session = commit_all digest topology size events (open_journal [] [])

abbrev raw_files : RecoveryJournal → List (List Raw)
raw_files j = map (map event) j.files

read_session-commit_all_example :
    (ds : List Delta) × (read_session digest strict 7 session.segment_count (raw_files session)
      ≡ ok ds)
    × (map (λ (d : Delta). d.line.payload) ds ≡ events)
read_session-commit_all_example =
    read_session-commit_all digest topology size event 7 events
      ((λ h. refl), ((λ h. refl), ((λ h. refl), tt)))

two_segments : ◌≡◌ {A = ℕ × List ℕ} (session.segment_count, session.checkpoint_segments) (2, 0 ∷ [])
unfolding commit_all commit_sync open_journal open_segment open_file rotate_segment append_at fits
    write
two_segments = refl

-- The file of one event, and after it a line that is not JSON.
abbrev torn : List Located
torn = located 0 ((event (line_of digest topology (plain "1" "opened") none) ∷ corrupt ∷ []) ∷ [])

-- A write fails, and the caller goes on: the next line does not fit the chain on the disk.
abbrev after_failure : RecoveryJournal
after_failure =
    commit_all digest topology size (plain "3" "closed" ∷ [])
      (commit_sync digest topology size false (plain "2" "lost")
        (commit_all digest topology size (plain "1" "opened" ∷ []) (open_journal [] []))).1

failure_breaks :
    read_session digest strict 0 after_failure.segment_count (raw_files after_failure)
    ≡ err chain_divergence
unfolding commit_all commit_sync open_journal open_segment open_file rotate_segment append_at fits
    write read_session read_deltas check defect located located_in
failure_breaks = refl

-- A session of two segments that is opened again is counted as one.
reopened : (open_journal session.files session.checkpoint_segments).segment_count ≡ 1
unfolding open_journal open_segment open_file
reopened = refl

-- An encoding that does not keep the content, as that of a dict with numbers for keys.
abbrev lossy : Line → Raw
lossy l = event (record l { payload = record l.payload { content = "changed" } })

lossy_forged :
    read_session digest strict 0 session.segment_count (map (map lossy) session.files)
    ≡ err event_forgery
unfolding two_segments read_session read_deltas check defect located located_in
lossy_forged = refl

-- A line that is the number 5, after a good one, makes a SALVAGE replay raise.
unusable :
    read_deltas digest salvage 0 fresh_reader
      (located 0 ((event (line_of digest topology (plain "1" "opened") none) ∷ no_event ∷ []) ∷ []))
    ≡ err unexpected
unfolding located located_in read_deltas check defect
unusable = refl
