-- ===== src/Frame/Bounds.antt =====
-- The ranges of what is read from a header.
use novamind.Prelude.{
  ℕ, zero, suc, ◌+◌, ◌*◌, ◌≤◌, ◌<◌, String, ◌≡◌, refl, sym, ap, Bool, true, false, not, ◌&&◌, [],
  ◌∷◌, length, take, drop, all, ltb, eqb, ltb→lt, arith, Bool-cases, inl, inr,
}
use mathlib.Core.Path.{subst}
use native.Mathlib.Nat.{mul_assoc}
use novamind.Prelude.Result.{ok, ok-injective}
use novamind.Wal.{Bytes, same_bytes}
use novamind.Frame.{
  limit, decode, decode_from, magic_bytes, header_size, max_payload_size, Header, split, checksum,
  parse, unpack_frame_header,
}

-- The elements are bytes.
abbrev pub AreBytes : Bytes → Type 0
AreBytes bs = all (λ b. ltb b 256) bs ≡ true

take-AreBytes : (w : ℕ) (bs : Bytes) → AreBytes bs → AreBytes (take w bs)
take-AreBytes zero bs h = refl
take-AreBytes (suc w) [] h = refl
take-AreBytes (suc w) (b ∷ bs) h = ground (arith, h, take-AreBytes w bs)

drop-AreBytes : (w : ℕ) (bs : Bytes) → AreBytes bs → AreBytes (drop w bs)
drop-AreBytes zero bs h = h
drop-AreBytes (suc w) [] h = refl
drop-AreBytes (suc w) (b ∷ bs) h = ground (arith, h, drop-AreBytes w bs)

and-true : (a b : Bool) → (a && b) ≡ true → (a ≡ true) × (b ≡ true)
and-true true b h = (refl, h)
and-true false b h = cc

decode_from_lt :
    (bs : Bytes) (acc m : ℕ) → AreBytes bs → acc < m → decode_from acc bs < m * limit (length bs)
unfolding decode_from limit
decode_from_lt [] acc m h lt = grind (arith, lt)
decode_from_lt (b ∷ bs) acc m h lt =
    let (byte, rest) = and-true (ltb b 256) (all (λ x. ltb x 256) bs) h in
    let next : acc * 256 + b < m * 256 = omega (arith, lt, ltb→lt b 256 byte) in
    subst (λ n. decode_from (acc * 256 + b) bs < n) (mul_assoc m 256 (limit (length bs)))
      (decode_from_lt bs (acc * 256 + b) (m * 256) rest next)

limit_le : (v w : ℕ) → v ≤ w → limit v ≤ limit w
unfolding limit
limit_le zero zero h = omega arith
limit_le zero (suc w) h = omega (arith, limit_le zero w (omega arith))
limit_le (suc v) zero h = omega (arith, h)
limit_le (suc v) (suc w) h = omega (arith, limit_le v w (omega (arith, h)))

take_le : (w : ℕ) (bs : Bytes) → length (take w bs) ≤ w
take_le zero bs = omega arith
take_le (suc w) [] = omega arith
take_le (suc w) (b ∷ bs) = omega (arith, take_le w bs)

-- A field of `w` bytes at most.
field_lt : (w : ℕ) (bs : Bytes) → AreBytes bs → decode (take w bs) < limit w
unfolding decode
field_lt w bs h = omega (
  arith,
  decode_from_lt (take w bs) 0 1 (take-AreBytes w bs h) (omega arith),
  limit_le (length (take w bs)) w (take_le w bs),
)

not_above : (n : ℕ) → ltb max_payload_size n ≡ false → n ≤ 16777216
not_above n h = ground arith

module _ (crc32 : Bytes → ℕ) (uuid_text : Bytes → String) where
  module _
      (bytes magic major minor patch hdr_len frame_type flags seq corr ts len integrity
        check : Bytes)
      (p : Header) where
    parsed :
        parse crc32 uuid_text bytes (
            magic ∷ major ∷ minor ∷ patch ∷ hdr_len ∷ frame_type ∷ flags ∷ seq ∷ corr ∷ ts ∷ len
            ∷ integrity ∷ check ∷ [])
          ≡ ok p
        → (p.flags ≡ decode flags)
          × (p.sequence_id ≡ decode seq)
          × (p.timestamp_ns ≡ decode ts)
          × (p.payload_length ≡ decode len)
          × (ltb max_payload_size (decode len) ≡ false)
    unfolding parse
    parsed e = elim (Bool-cases (not (same_bytes magic magic_bytes))) [
      | inl f ↦ cc (rw f at e)
      | inr f ↦ elim (Bool-cases (not (eqb (decode check) (checksum crc32 (take 79 bytes))))) [
        | inl g ↦ cc (rw g at (rw f at e))
        | inr g ↦ elim (Bool-cases (ltb max_payload_size (decode len))) [
          | inl k ↦ cc (rw k at (rw g at (rw f at e)))
          | inr k ↦
              let same : _ ≡ p = ok-injective (rw k at (rw g at (rw f at e))) in
              (
                sym (ap Header.flags same),
                sym (ap Header.sequence_id same),
                sym (ap Header.timestamp_ns same),
                sym (ap Header.payload_length same),
                k,
              )
        ]
      ]
    ]

  -- Of any text of bytes, whatever it was made of: if `unpack_frame_header` accepts it, the payload
  -- that the header announces has at most 16 MiB, the flags fit in a byte, and the sequence number and
  -- the time in eight bytes.
  pub unpack_frame_header_le :
      (bytes : Bytes) (p : Header)
      → AreBytes bytes
      → unpack_frame_header crc32 uuid_text bytes ≡ ok p
      → (p.payload_length ≤ 16777216)
        × (p.flags < limit 1)
        × (p.sequence_id < limit 8)
        × (p.timestamp_ns < limit 8)
  unfolding unpack_frame_header split
  unpack_frame_header_le bytes p h e = elim (Bool-cases (ltb (length bytes) header_size)) [
    | inl f ↦ cc (rw f at e)
    | inr f ↦
        let t : Bytes = take header_size bytes in
        let all_t : AreBytes t = take-AreBytes header_size bytes h in
        let from_minor : Bytes = drop 1 (drop 4 t) in
        let from_len : Bytes = drop 1 (drop 1 from_minor) in
        let at_type : Bytes = drop 2 from_len in
        let at_seq : Bytes = drop 1 (drop 1 at_type) in
        let at_ts : Bytes = drop 16 (drop 8 at_seq) in
        let (flags, seq, ts, len, fine) =
          parsed bytes _ _ _ _ _ _ (take 1 (drop 1 at_type)) (take 8 at_seq) _ (take 8 at_ts)
            (take 4 (drop 8 at_ts)) _ _ p (rw f at e) in
        let all_type : AreBytes at_type = drop-AreBytes 2 from_len (
          drop-AreBytes 1 (drop 1 from_minor)
            (drop-AreBytes 1 from_minor (drop-AreBytes 1 (drop 4 t) (drop-AreBytes 4 t all_t)))) in
        let all_seq : AreBytes at_seq =
          drop-AreBytes 1 (drop 1 at_type) (drop-AreBytes 1 at_type all_type) in
        let all_ts : AreBytes at_ts =
          drop-AreBytes 16 (drop 8 at_seq) (drop-AreBytes 8 at_seq all_seq) in
        (
          rw len (not_above _ fine),
          rw flags (field_lt 1 (drop 1 at_type) (drop-AreBytes 1 at_type all_type)),
          rw seq (field_lt 8 at_seq all_seq),
          rw ts (field_lt 8 at_ts all_ts),
        )
  ]
