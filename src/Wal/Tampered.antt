-- ===== src/Wal/Tampered.antt =====
-- The last frame of the file and the hash chain.
use novamind.Prelude.{
  ℕ, suc, ◌-◌, ◌<◌, ◌≡◌, sym, ap, ◌∙◌, Option, some, List, [], ◌++◌, length, arith, append-nil,
  length-append,
}
use novamind.Prelude.Result.{ok}
use novamind.Wal.Recover.{IsHash, Fits, append_all_lem, recover_loop-frame}
use novamind.Wal.{
  Bytes, WalRecord, Index, frame, absorb, recover_loop, recover, Append, append_all, create,
  initial,
}

module _ (dumps : WalRecord → Bytes) (loads : Bytes → Option WalRecord)
    (hexdigest : Bytes → Bytes) where
  module _ (hash : (b : Bytes) → IsHash (hexdigest b)) where
    -- The file holds the records of calls of `append` that satisfy `Fits`, and then a last frame that
    -- carries the right hash of what is before it and any payload that `json.loads` reads and whose
    -- length fits in four bytes. `_recover` accepts it and takes that payload for the last record: no
    -- hash covers it. A digest is 64 ASCII characters.
    pub recover-last_payload :
        (l : List Append) (p : Bytes) (r : WalRecord)
        → Fits dumps loads hexdigest l (create dumps loads hexdigest)
        → length p < 4294967296
        → loads p ≡ some r
        → recover dumps loads hexdigest (
            (append_all dumps loads hexdigest l (create dumps loads hexdigest)).file
            ++ frame dumps loads hexdigest p
                (append_all dumps loads hexdigest l (create dumps loads hexdigest)).index.last_hash)
          ≡ ok (
              absorb dumps loads hexdigest p r
                (append_all dumps loads hexdigest l (create dumps loads hexdigest)).index)
    unfolding recover recover_loop
    recover-last_payload l p r fits small loaded =
        let (bytes, file, few, h, reads) =
          append_all_lem dumps loads hexdigest hash l (create dumps loads hexdigest) (hash _)
            fits in
        let s : Index = (append_all dumps loads hexdigest l (create dumps loads hexdigest)).index in
        let t : Bytes = frame dumps loads hexdigest p s.last_hash in
        let n : ℕ = length (bytes ++ t) in
        let k : ℕ = n - length l - 1 in
        ap
          (λ b.
            recover_loop dumps loads hexdigest (length (b ++ t)) (b ++ t)
              (initial dumps loads hexdigest))
          file
        ∙ reads n (suc k) t (omega (arith, length-append bytes t))
        ∙ ap (λ b. recover_loop dumps loads hexdigest (suc k) b s) (sym (append-nil t))
        ∙ recover_loop-frame dumps loads hexdigest hash p [] r s k small loaded h
