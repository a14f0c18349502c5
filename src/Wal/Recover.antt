-- ===== src/Wal/Recover.antt =====
-- `_recover` on the file that `append` wrote.
use novamind.Prelude.{
  ℕ, suc, ◌+◌, ◌-◌, ◌≤◌, ◌<◌, ◌≡◌, refl, sym, ap, ◌∙◌, true, false, Option, some, List, [], ◌∷◌,
  ◌++◌, length, all, ltb, arith, ◌==◌, append_assoc, append-nil, take-append, drop-append,
  take-append_of, drop-append_of, length-append,
}
use novamind.Prelude.Result.{ok}
use novamind.Wal.{
  Bytes, WalRecord, Index, EffectWal, Append, pack, unpack, same_bytes, made, frame, absorb,
  checked, read_record, recover_loop, recover, append, append_all, create, initial,
}

-- The length prefix is read back.
pub unpack-pack : (n : ℕ) → n < 4294967296 → unpack (pack n) ≡ n
unpack-pack n h = omega arith

pub same_bytes_refl : (l : Bytes) → same_bytes l l ≡ true
unfolding same_bytes
same_bytes_refl [] = refl
same_bytes_refl (b ∷ l) = ground (arith, same_bytes_refl l)

-- What `hexdigest` returns: 64 ASCII characters.
abbrev pub IsHash : Bytes → Type 0
IsHash h = (length h ≡ 64) × (all (λ b. ltb b 128) h ≡ true)

module _ (dumps : WalRecord → Bytes) (loads : Bytes → Option WalRecord)
    (hexdigest : Bytes → Bytes) where
  checked_ok :
      (p rest : Bytes) (r : WalRecord) (s : Index)
      → length p < 4294967296
      → loads p ≡ some r
      → IsHash s.last_hash
      → checked dumps loads hexdigest (pack (length p)) p s.last_hash rest s
        ≡ ok (absorb dumps loads hexdigest p r s, rest)
  unfolding checked
  checked_ok p rest r s small loaded (long, ascii) =
      let fits : ltb (length p) (length p) ≡ false = ground arith in
      rw (unpack-pack (length p) small, fits, ascii, long, same_bytes_refl s.last_hash, loaded) refl

  read_record-frame :
      (p rest : Bytes) (r : WalRecord) (s : Index)
      → length p < 4294967296
      → loads p ≡ some r
      → IsHash s.last_hash
      → read_record dumps loads hexdigest (frame dumps loads hexdigest p s.last_hash ++ rest) s
        ≡ ok (absorb dumps loads hexdigest p r s, rest)
  unfolding read_record
  read_record-frame p rest r s small loaded hash =
      let h : Bytes = s.last_hash in
      rw
        (
          append_assoc p h rest,
          unpack-pack (length p) small,
          take-append p (h ++ rest),
          drop-append p (h ++ rest),
          take-append_of 64 h rest hash.0,
          drop-append_of 64 h rest hash.0,
        )
        (checked_ok p rest r s small loaded hash)

  -- `struct.pack` takes the length of each record, `json.loads` inverts `json.dumps` on it, and each
  -- transaction has a non-empty name.
  abbrev pub Fits : List Append → EffectWal → Type 0
  Fits [] w = Unit
  Fits (x ∷ l) w =
      (length (dumps (made x w.index)) < 4294967296)
      × (loads (dumps (made x w.index)) ≡ some (made x w.index))
      × ((x.tx_id == "") ≡ false)
      × Fits l (append dumps loads hexdigest x w).1

  module _ (hash : (b : Bytes) → IsHash (hexdigest b)) where
    abbrev next : Append → EffectWal → EffectWal
    next x w = (append dumps loads hexdigest x w).1

    append_lem :
        (x : Append) (w : EffectWal)
        → length (dumps (made x w.index)) < 4294967296
        → ((x.tx_id == "") ≡ false)
        → ((next x w).file
            ≡ w.file ++ frame dumps loads hexdigest (dumps (made x w.index)) w.index.last_hash)
          × ((next x w).index
              ≡ absorb dumps loads hexdigest (dumps (made x w.index)) (made x w.index) w.index)
    unfolding append
    append_lem x w small named = ground arith

    same_fuel :
        (n k : ℕ) (rest : Bytes) (s : Index)
        → n ≡ k
        → recover_loop dumps loads hexdigest n rest s ≡ recover_loop dumps loads hexdigest k rest s
    same_fuel n k rest s e = rw e refl

    -- One frame is one turn of the loop.
    pub recover_loop-frame :
        (p rest : Bytes) (r : WalRecord) (s : Index) (k : ℕ)
        → length p < 4294967296
        → loads p ≡ some r
        → IsHash s.last_hash
        → recover_loop dumps loads hexdigest
            (suc k)
            (frame dumps loads hexdigest p s.last_hash ++ rest)
            s
          ≡ recover_loop dumps loads hexdigest k rest (absorb dumps loads hexdigest p r s)
    unfolding recover_loop
    recover_loop-frame p rest r s k small loaded h =
        rw (read_record-frame p rest r s small loaded h, recover_loop) refl

    pub append_all_lem :
        (l : List Append) (w : EffectWal)
        → IsHash w.index.last_hash
        → Fits l w
        → (bytes : Bytes) × ((append_all dumps loads hexdigest l w).file ≡ w.file ++ bytes)
          × (length l ≤ length bytes)
          × IsHash (append_all dumps loads hexdigest l w).index.last_hash
          × ((n k : ℕ) (rest : Bytes)
              → n ≡ length l + k
              → recover_loop dumps loads hexdigest n (bytes ++ rest) w.index
                ≡ recover_loop dumps loads hexdigest k rest
                    (append_all dumps loads hexdigest l w).index)
    unfolding append_all
    append_all_lem [] w h fits = (
      [],
      sym (append-nil w.file),
      omega arith,
      h,
      λ n k rest e. same_fuel n k rest w.index (omega arith),
    )
    append_all_lem (x ∷ l) w h (small, loaded, named, fits) =
        let (file, index) = append_lem x w small named in
        let p : Bytes = dumps (made x w.index) in
        let first : Bytes = frame dumps loads hexdigest p w.index.last_hash in
        let (bytes, file', few, h', reads) = append_all_lem l (next x w) (rw index (hash _)) fits in
        (
          first ++ bytes,
          file' ∙ ap (λ b. b ++ bytes) file ∙ append_assoc w.file first bytes,
          omega (arith, length-append (p ++ w.index.last_hash) bytes),
          h',
          λ n k rest e.
              same_fuel n (suc (length l + k)) ((first ++ bytes) ++ rest) w.index (omega arith)
              ∙ ap (λ b. recover_loop dumps loads hexdigest (suc (length l + k)) b w.index)
                  (append_assoc first bytes rest)
              ∙ recover_loop-frame p (bytes ++ rest) (made x w.index) w.index (length l + k) small
                  loaded h
              ∙ ap (recover_loop dumps loads hexdigest (length l + k) (bytes ++ rest)) (sym index)
              ∙ reads (length l + k) k rest refl,
        )

    -- After any calls of `append` on a new log that satisfy `Fits` (the length of each record fits in
    -- four bytes, `json.loads` inverts `json.dumps` on it, its transaction has a non-empty name),
    -- `_recover` on the bytes of the file rebuilds the sequence number, the last hash and the
    -- transactions that the writer had in memory. A digest is 64 ASCII characters.
    pub recover-append_all :
        (l : List Append)
        → Fits l (create dumps loads hexdigest)
        → recover dumps loads hexdigest
            (append_all dumps loads hexdigest l (create dumps loads hexdigest)).file
          ≡ ok (append_all dumps loads hexdigest l (create dumps loads hexdigest)).index
    unfolding recover recover_loop
    recover-append_all l fits =
        let (bytes, file, few, h, reads) =
          append_all_lem l (create dumps loads hexdigest) (hash _) fits in
        let n : ℕ = length bytes in
        rw file (
          ap (λ b. recover_loop dumps loads hexdigest n b (initial dumps loads hexdigest))
            (sym (append-nil bytes))
          ∙ reads n (n - length l) [] (omega arith))
