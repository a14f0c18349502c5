-- ===== src/Wal/Torn.antt =====
-- `_recover` on any file, and on one whose last write was cut short.
use novamind.Prelude.{
  ℕ, zero, suc, ◌+◌, ◌-◌, ◌≤◌, ◌<◌, ◌≡◌, ◌≢◌, refl, sym, ap, ◌∙◌, Bool, true, false, Option, List,
  [], ◌∷◌, ◌++◌, length, take, drop, arith, not, length-append, length-drop, length-take_le, inl,
  inr, leb, leb→le,
}
use novamind.Prelude.Result.{Result, ok, err, is_err, Result-cases}
use novamind.Wal.Recover.{IsHash, unpack-pack, Fits, append_all_lem}
use novamind.Wal.{
  Bytes, WalRecord, WalError, Index, EffectWal, Append, unpack, frame, made, checked, read_record,
  recover_loop, recover, append_all, create, initial,
}
use novamind.Wal.WalError.{out_of_fuel}

abbrev is_fuel : WalError → Bool
is_fuel out_of_fuel = true
is_fuel _ = false

abbrev no_fuel : {A : Type 0} → Result WalError A → Bool
no_fuel (ok a) = false
no_fuel (err e) = is_fuel e

-- Another error than the lack of fuel, or at most `n` bytes left.
abbrev ends : ℕ → Result WalError (Index × Bytes) → Bool
ends n (err e) = not (is_fuel e)
ends n (ok (s, rest)) = leb (length rest) n

length-take_le_count : (n : ℕ) (xs : Bytes) → length (take n xs) ≤ n
length-take_le_count zero xs = omega arith
length-take_le_count (suc n) [] = omega arith
length-take_le_count (suc n) (x ∷ xs) = omega (arith, length-take_le_count n xs)

length-take_some : (n : ℕ) (xs : Bytes) → 0 < n → 0 < length xs → 0 < length (take n xs)
length-take_some zero xs h k = h
length-take_some (suc n) [] h k = k
length-take_some (suc n) (x ∷ xs) h k = omega arith

module _ (dumps : WalRecord → Bytes) (loads : Bytes → Option WalRecord)
    (hexdigest : Bytes → Bytes) where
  is_err-checked :
      (len_bytes p h rest : Bytes) (s : Index)
      → (unpack len_bytes ≤ length p → length h < 64)
      → is_err (checked dumps loads hexdigest len_bytes p h rest s) ≡ true
  unfolding checked
  is_err-checked len_bytes p h rest s short = ground arith

  -- Fewer bytes than the prefix, the payload that it announces and the hash.
  is_err-read_record :
      (bytes : Bytes) (s : Index)
      → length bytes < unpack (take 4 bytes) + 68
      → is_err (read_record dumps loads hexdigest bytes s) ≡ true
  unfolding read_record
  is_err-read_record bytes s short =
      let n : ℕ = unpack (take 4 bytes) in
      let y : Bytes = drop 4 bytes in
      is_err-checked (take 4 bytes) (take n y) (take 64 (drop n y)) (drop 64 (drop n y)) s (λ whole.
        omega (
          arith,
          length-take_le n y,
          length-take_le 64 (drop n y),
          length-drop n y,
          length-drop 4 bytes,
        ))

  is_err-checked_rest :
      (len_bytes p h rest : Bytes) (n : ℕ) (s : Index)
      → length rest ≤ n
      → ends n (checked dumps loads hexdigest len_bytes p h rest s) ≡ true
  unfolding checked
  is_err-checked_rest len_bytes p h rest n s le = ground arith

  ends-read_record :
      (b : ℕ) (bytes : Bytes) (s : Index)
      → ends (length bytes) (read_record dumps loads hexdigest (b ∷ bytes) s) ≡ true
  unfolding read_record
  ends-read_record b bytes s =
      let n : ℕ = unpack (take 4 (b ∷ bytes)) in
      let y : Bytes = drop 4 (b ∷ bytes) in
      is_err-checked_rest (take 4 (b ∷ bytes)) (take n y) (take 64 (drop n y)) (drop 64 (drop n y))
        (length bytes) s
        (omega (arith, length-drop 64 (drop n y), length-drop n y, length-drop 3 bytes))

  recover_loop-fuel :
      (fuel : ℕ) (bytes : Bytes) (s : Index)
      → length bytes ≤ fuel
      → no_fuel (recover_loop dumps loads hexdigest fuel bytes s) ≡ false
  unfolding recover_loop
  recover_loop-fuel fuel [] s le = refl
  recover_loop-fuel zero (b ∷ bytes) s le = absurd (omega arith)
  recover_loop-fuel (suc fuel) (b ∷ bytes) s le =
      elim (Result-cases (read_record dumps loads hexdigest (b ∷ bytes) s)) [
        | inl ((s', rest), e) ↦
            let here : leb (length rest) (length bytes) ≡ true =
              ap (ends (length bytes)) (sym e) ∙ ends-read_record b bytes s in
            rw (e, recover_loop)
              (recover_loop-fuel fuel rest s'
                (omega (arith, leb→le (length rest) (length bytes) here)))
        | inr (x, e) ↦
            let here : not (is_fuel x) ≡ true =
              ap (ends (length bytes)) (sym e) ∙ ends-read_record b bytes s in
            rw (e, recover_loop) (ground (arith, here))
      ]

  -- `_recover` ends on every file, whatever the codec and the digest are: with as much fuel as the
  -- file has bytes, the loop does not run out of fuel.
  pub recover-ends : (bytes : Bytes) → recover dumps loads hexdigest bytes ≢ err out_of_fuel
  unfolding recover
  recover-ends bytes e =
      let here : no_fuel (
            recover_loop dumps loads hexdigest (length bytes) bytes (initial dumps loads hexdigest))
          ≡ false =
        recover_loop-fuel (length bytes) bytes (initial dumps loads hexdigest) (omega arith) in
      true_false (ap no_fuel (sym e) ∙ here)
    where
      true_false : true ≡ false → ⊥
      true_false e = cc

  is_err-torn :
      (m : ℕ) (p h : Bytes) (s : Index)
      → length p < 4294967296
      → 0 < m
      → m < length p + 68
      → is_err (read_record dumps loads hexdigest (take m (frame dumps loads hexdigest p h)) s)
        ≡ true
  is_err-torn zero p h s small some_bytes m = absurd (omega arith)
  is_err-torn (suc zero) p h s small some_bytes m = is_err-read_record _ s (omega arith)
  is_err-torn (suc (suc zero)) p h s small some_bytes m = is_err-read_record _ s (omega arith)
  is_err-torn (suc (suc (suc zero))) p h s small some_bytes m = is_err-read_record _ s (omega arith)
  is_err-torn (suc (suc (suc (suc k)))) p h s small some_bytes m =
      is_err-read_record _ s
        (omega (arith, unpack-pack (length p) small, length-take_le_count k (p ++ h)))

  is_err-recover_loop :
      (fuel : ℕ) (bytes : Bytes) (s : Index)
      → 0 < length bytes
      → 0 < fuel
      → is_err (read_record dumps loads hexdigest bytes s) ≡ true
      → is_err (recover_loop dumps loads hexdigest fuel bytes s) ≡ true
  unfolding recover_loop
  is_err-recover_loop fuel [] s some_bytes some_fuel h = absurd (omega arith)
  is_err-recover_loop zero (b ∷ bytes) s some_bytes some_fuel h = absurd (omega arith)
  is_err-recover_loop (suc fuel) (b ∷ bytes) s some_bytes some_fuel h =
      elim (Result-cases (read_record dumps loads hexdigest (b ∷ bytes) s)) [
        | inl (r, e) ↦ absurd (false_true (ap is_err (sym e) ∙ h))
        | inr (x, e) ↦ rw (e, recover_loop) refl
      ]
    where
      false_true : false ≡ true → ⊥
      false_true e = cc

  module _ (hash : (b : Bytes) → IsHash (hexdigest b)) where
    -- The log after these calls of `append` on a new one.
    abbrev pub written : List Append → EffectWal
    written l = append_all dumps loads hexdigest l (create dumps loads hexdigest)

    -- The frame of one more call of `append`.
    abbrev pub next_frame : List Append → Append → Bytes
    next_frame l x =
        frame dumps loads hexdigest (dumps (made x (written l).index)) (written l).index.last_hash

    -- A crash in the middle of a write: the file holds the records of calls of `append` that satisfy
    -- `Fits`, and then the first `m` bytes of one more frame, at least one and not all of them.
    -- `_recover` raises on it. A digest is 64 ASCII characters.
    pub is_err-recover :
        (l : List Append) (x : Append) (m : ℕ)
        → Fits dumps loads hexdigest l (create dumps loads hexdigest)
        → length (dumps (made x (written l).index)) < 4294967296
        → 0 < m
        → m < length (next_frame l x)
        → is_err (recover dumps loads hexdigest ((written l).file ++ take m (next_frame l x)))
          ≡ true
    unfolding recover
    is_err-recover l x m fits small some_bytes part =
        let (bytes, file, few, h, reads) =
          append_all_lem dumps loads hexdigest hash l (create dumps loads hexdigest) (hash _)
            fits in
        let p : Bytes = dumps (made x (written l).index) in
        let t : Bytes = take m (next_frame l x) in
        let n : ℕ = length (bytes ++ t) in
        let bad =
          is_err-torn m p (written l).index.last_hash (written l).index small some_bytes
            (omega (arith, h.0, length-append p (written l).index.last_hash)) in
        let here : 0 < length t = length-take_some m (next_frame l x) some_bytes (omega arith) in
        ap
          (λ b. is_err (
            recover_loop dumps loads hexdigest (length (b ++ t)) (b ++ t)
              (initial dumps loads hexdigest)))
          file
        ∙ ap is_err (reads n (n - length l) t (omega (arith, length-append bytes t)))
        ∙ is_err-recover_loop (n - length l) t (written l).index here
            (omega (arith, length-append bytes t)) bad
