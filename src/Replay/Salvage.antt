-- ===== src/Replay/Salvage.antt =====
-- A SALVAGE replay reads what a STRICT one would read up to the first line that it refuses.
use novamind.Prelude.{
  ℕ, String, ◌≡◌, Bool, true, false, not, all, ◌&&◌, Option, List, [], ◌∷◌, ◌++◌, if◌then◌else◌,
  ◌⊎◌,
}
use novamind.Prelude.Result.{Result, ok, is_err}
use novamind.Recorder.{Payload}
use novamind.Replay.{
  strict, salvage, ReadError, Raw, no_event, event, Located, Delta, delta_of, Reader, is_some,
  read_deltas, Verdict, keep, skip, stop, fault, is_after,
}

-- The first event, if there is one, has the key of the hash chain.
abbrev pub has_chain : Raw → Bool → Bool
has_chain (event l) b = is_some l.previous_hash
has_chain raw b = b

abbrev pub is_modern : List Located → Bool
is_modern [] = true
is_modern (x ∷ xs) = has_chain x.raw (is_modern xs)

-- The line is one that the loop can handle.
abbrev pub is_usable : Raw → Bool
is_usable no_event = false
is_usable raw = true

abbrev pub are_usable : List Located → Bool
are_usable xs = all (λ (x : Located). is_usable x.raw) xs

-- The line is passed over or kept.
abbrev passes : Verdict → Bool
passes keep = true
passes skip = true
passes _ = false

-- What a line adds to the result.
abbrev pushed : ℕ → Located → Raw → Verdict → List Delta → List Delta
pushed min x (event l) keep ds = if is_after min l.sequence_id then delta_of x l ∷ ds else ds
pushed min x _ _ ds = ds

-- STRICT and SALVAGE agree on a line, or the one raises and the other stops.
abbrev Agree : Verdict × Reader → Verdict × Reader → Type 0
Agree a b = ((a ≡ b) × (passes b.0 ≡ true)) ⊎ ((e : ReadError) × (a.0 ≡ fault e) × (b.0 ≡ stop))

-- No event was seen that lacks the key of the hash chain, and the first to come does not.
abbrev IsModern : Reader → List Located → Type 0
IsModern r xs = (r.legacy ≡ false) × ((r.is_first && not (is_modern xs)) ≡ false)

module _ (digest : Payload → String → Option (Option String) → String) where
  module _ (min : ℕ) where
    -- `good` are the lines before the first that STRICT refuses, `rest` those from it on.
    pub record IsPrefix (r : Reader) (xs : List Located) : Type 0 where
      pub good : List Located
      pub rest : List Located
      pub deltas : List Delta
      pub parts : xs ≡ good ++ rest
      pub salvaged : read_deltas digest salvage min r xs ≡ ok deltas
      pub same : read_deltas digest strict min r good ≡ ok deltas
      pub refused :
          (rest ≡ [])
          ⊎ ((y : Located) × (ys : List Located) × (rest ≡ y ∷ ys)
              × (is_err (read_deltas digest strict min r (good ++ y ∷ [])) ≡ true))
