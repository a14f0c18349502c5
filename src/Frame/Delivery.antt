-- ===== src/Frame/Delivery.antt =====
-- A frame that was written, when it is read in pieces of any size.
use novamind.Prelude.{
  ℕ, zero, suc, ◌+◌, ◌-◌, ◌≤◌, String, ◌≡◌, refl, sym, ap, ◌∙◌, Bool, true, false, not, ◌&&◌,
  Option, some, List, [], ◌∷◌, ◌++◌, length, take, drop, ltb, eqb, if◌then◌else◌, length-append,
  append_assoc, append-nil, arith, Bool-cases, Option-cases, inl, inr, length-drop, take-append_of,
  drop-append_of,
}
use novamind.Prelude.Result.{ok, Result-cases}
use novamind.Wal.{Bytes, same_bytes}
use novamind.Frame.{zeros, fit, magic_bytes, HeaderArgs, pack_frame_header, unpack_frame_header}
use novamind.Frame.Codec.{sent, unpack-pack, pack-magic}
use novamind.Frame.Stream.{
  Turn, Wire, Writer, Read, next_grant, rest_of, read_loop, read_exact, Message, Frame, header_args,
  write_payload, write_bytes, write_packed, write_serialized, write_frame, decoded, checked,
  after_payload, after_header, after_rest, after_magic, read_frame,
}
use novamind.Frame.Reading.{
  IsPunctual, next_grant_le, length-take_of, take-drop, drop-drop, not_empty,
}

-- What a read of `n` bytes leaves: the next `n` bytes are read, and no more.
record HasRead (n : ℕ) (buf : Bytes) (w : Wire) (r : Read Bytes) : Type 0 where
  after : Wire
  result : r ≡ (ok (buf ++ take n w.incoming), after)
  rest : after.incoming ≡ drop n w.incoming
  punctual : IsPunctual after.turns

read_loop-HasRead :
    (fuel n : ℕ) (buf : Bytes) (w : Wire)
    → n ≤ fuel
    → n ≤ length w.incoming
    → IsPunctual w.turns
    → HasRead n buf w (read_loop fuel n buf w)
unfolding read_loop
read_loop-HasRead zero zero buf w le enough h = record {
  after = w;
  result = ap (λ l. (ok l, w)) (sym (append-nil buf));
  rest = refl;
  punctual = h;
}
read_loop-HasRead zero (suc n) buf w le enough h = absurd (omega (arith, le))
read_loop-HasRead (suc fuel) zero buf w le enough h = record {
  after = w;
  result = ap (λ l. (ok l, w)) (sym (append-nil buf));
  rest = refl;
  punctual = h;
}
read_loop-HasRead (suc fuel) (suc n) buf w le enough h =
    let g : ℕ = next_grant w.turns n in
    let (on_time, some_byte, not_more, later) = next_grant_le w.turns n h in
    let chunk : Bytes = take g w.incoming in
    let got : length chunk ≡ g = length-take_of g w.incoming (omega (arith, not_more, enough)) in
    let w' : Wire = record { incoming = drop g w.incoming; turns = rest_of w.turns } in
    let next : HasRead (suc n - length chunk) (buf ++ chunk) w'
        (read_loop fuel (suc n - length chunk) (buf ++ chunk) w') =
      read_loop-HasRead fuel (suc n - length chunk) (buf ++ chunk) w'
        (omega (arith, le, got, some_byte)) (omega (arith, enough, got, length-drop g w.incoming))
        later in
    let sum : g + (suc n - length chunk) ≡ suc n = omega (arith, got, not_more) in
    record {
      after = next.after;
      result =
          rw (on_time, not_empty chunk (omega (arith, got, some_byte)))
            (next.result
              ∙ ap (λ l. (ok l, next.after))
                  (append_assoc buf chunk (take (suc n - length chunk) (drop g w.incoming))
                    ∙ ap (λ l. buf ++ l)
                        (take-drop g (suc n - length chunk) (suc n) w.incoming sum)));
      rest = next.rest ∙ drop-drop g (suc n - length chunk) (suc n) w.incoming sum;
      punctual = next.punctual;
    }

read_exact-HasRead :
    (n : ℕ) (w : Wire)
    → n ≤ length w.incoming
    → IsPunctual w.turns
    → HasRead n [] w (read_exact n w)
unfolding read_exact
read_exact-HasRead n w enough h = read_loop-HasRead n n [] w (omega arith) enough h

read_prefix :
    (n : ℕ) (p r : Bytes) (w : Wire)
    → length p ≡ n
    → w.incoming ≡ p ++ r
    → IsPunctual w.turns
    → (w' : Wire) × (read_exact n w ≡ (ok p, w')) × (w'.incoming ≡ r) × IsPunctual w'.turns
read_prefix n p r w e incoming h =
    let read : HasRead n [] w (read_exact n w) =
      read_exact-HasRead n w (omega (arith, e, ap length incoming, length-append p r)) h in
    (
      read.after,
      read.result ∙ ap (λ l. (ok l, read.after)) (ap (take n) incoming ∙ take-append_of n p r e),
      read.rest ∙ ap (drop n) incoming ∙ drop-append_of n p r e,
      read.punctual,
    )

suc_not_zero : (n : ℕ) → eqb (suc n) 0 ≡ false
suc_not_zero n = ground arith

read_payload :
    (bytes rest : Bytes) (w : Wire)
    → w.incoming ≡ bytes ++ rest
    → IsPunctual w.turns
    → (w' : Wire) × ((if eqb (length bytes) 0 then (ok [], w) else read_exact (length bytes) w)
        ≡ (ok bytes, w'))
      × (w'.incoming ≡ rest)
read_payload [] rest w incoming h = (w, refl, incoming)
read_payload (b ∷ bs) rest w incoming h =
    let (w', got, left, _) = read_prefix (suc (length bs)) (b ∷ bs) rest w refl incoming h in
    (w', rw (suc_not_zero (length bs)) got, left)

same_bytes_refl : (bs : Bytes) → same_bytes bs bs ≡ true
unfolding same_bytes
same_bytes_refl [] = refl
same_bytes_refl (b ∷ bs) = ground (arith, same_bytes_refl bs)

fit_lem : (w : ℕ) (bs : Bytes) → length bs ≡ w → fit w bs ≡ bs
unfolding fit
fit_lem w bs e = take-append_of w bs (zeros w) e

module _ {P : Type 0} (crc32 : Bytes → ℕ) (blake2b : Bytes → Bytes)
    (uuid_bytes : String → Option Bytes) (uuid_text : Bytes → String) (encode : P → Option Bytes)
    (decode : Bytes → Option P) where
  -- The frame that a reader gets of a message whose payload is serialized as `bytes`.
  abbrev pub delivered : Message P → Bytes → Frame P
  delivered m bytes = record {
    header =
        sent crc32 uuid_bytes uuid_text
          (header_args crc32 blake2b uuid_bytes uuid_text encode decode m bytes);
    payload = m.payload;
  }

  module _ (m : Message P) (bytes h rest : Bytes) (digest : length (blake2b bytes) ≡ 32)
      (codec : decode bytes ≡ some m.payload)
      (packed : pack_frame_header crc32 uuid_bytes
          (header_args crc32 blake2b uuid_bytes uuid_text encode decode m bytes)
        ≡ ok h) where
    -- The payload is read and accepted.
    accepted :
        (w : Wire)
        → w.incoming ≡ bytes ++ rest
        → IsPunctual w.turns
        → (w' : Wire) × (after_payload crc32 blake2b uuid_bytes uuid_text encode decode
              (delivered m bytes).header
              (if eqb (length bytes) 0 then (ok [], w) else read_exact (length bytes) w)
            ≡ (ok (some (delivered m bytes)), w'))
          × (w'.incoming ≡ rest)
    unfolding after_payload checked decoded header_args
    accepted w incoming punctual =
        let (w', got, left) = read_payload bytes rest w incoming punctual in
        let whole : same_bytes (blake2b bytes) (fit 32 (blake2b bytes)) ≡ true =
          ap (same_bytes (blake2b bytes)) (fit_lem 32 (blake2b bytes) digest)
          ∙ same_bytes_refl (blake2b bytes) in
        (w', rw got (rw whole (rw codec refl)), left)

    read-sent :
        (w : Wire)
        → w.incoming ≡ h ++ (bytes ++ rest)
        → IsPunctual w.turns
        → (w' : Wire) × (read_frame crc32 blake2b uuid_bytes uuid_text encode decode w
            ≡ (ok (some (delivered m bytes)), w'))
          × (w'.incoming ≡ rest)
    unfolding read_frame after_magic after_rest after_header header_args
    read-sent w incoming punctual =
        let x : HeaderArgs = header_args crc32 blake2b uuid_bytes uuid_text encode decode m bytes in
        let (r, split, long) = pack-magic crc32 uuid_bytes uuid_text x h packed in
        let (w1, first, left1, on1) =
          read_prefix 4 magic_bytes (r ++ (bytes ++ rest)) w refl
            (incoming ∙ ap (λ l. l ++ (bytes ++ rest)) split) punctual in
        let (w2, second, left2, on2) = read_prefix 79 r (bytes ++ rest) w1 long left1 on1 in
        let unpacked : unpack_frame_header crc32 uuid_text (magic_bytes ++ r)
            ≡ ok (delivered m bytes).header =
          ap (unpack_frame_header crc32 uuid_text) (sym split ∙ sym (append-nil h))
          ∙ unpack-pack crc32 uuid_bytes uuid_text x h [] packed in
        let (w3, third, left3) = accepted w2 left2 on2 in
        (w3, rw first (rw (same_bytes_refl magic_bytes) (rw second (rw unpacked third))), left3)

  module _ (takes : Bytes → Bool) (m : Message P) (v v' : Writer) where
    -- What a call of `write_frame` that returns has written.
    written_by :
        write_frame crc32 blake2b uuid_bytes uuid_text encode decode takes m v ≡ (ok tt, v')
        → (bytes : Bytes) × (h : Bytes) × (encode m.payload ≡ some bytes)
          × (pack_frame_header crc32 uuid_bytes
                (header_args crc32 blake2b uuid_bytes uuid_text encode decode m bytes)
              ≡ ok h)
          × (v'.written ≡ (v.written ++ h) ++ bytes)
    unfolding write_frame write_serialized write_packed write_bytes write_payload
    written_by e = elim (Option-cases (encode m.payload)) [
      | inl f ↦ cc (rw f at e)
      | inr (bytes, f) ↦
          elim (Result-cases (
            pack_frame_header crc32 uuid_bytes
              (header_args crc32 blake2b uuid_bytes uuid_text encode decode m bytes))) [
                | inr (x, g) ↦ cc (rw g at (rw f at e))
                | inl (h, g) ↦ elim (Bool-cases (takes h)) [
                  | inr k ↦ cc (rw k at (rw g at (rw f at e)))
                  | inl k ↦ elim (Bool-cases (ltb 0 (length bytes) && not (takes bytes))) [
                    | inl l ↦ cc (rw l at (rw k at (rw g at (rw f at e))))
                    | inr l ↦ (
                      bytes,
                      h,
                      f,
                      g,
                      sym (ap (λ r. r.1.written) (rw l at (rw k at (rw g at (rw f at e))))),
                    )
                  ]
                ]
              ]
    ]

    -- If `write_frame` returns, then what it has written behind the earlier bytes is read by
    -- `read_frame` as the frame of the message: with the fields of its header and with its payload,
    -- however the transport cuts the bytes into pieces, as long as the time is not over; and what
    -- follows these bytes is left on the wire. The digest has 32 bytes, and what `serialize` makes of
    -- the payload is read back by `deserialize`.
    pub read-write_frame :
        (rest : Bytes) (turns : List Turn)
        → ((bs : Bytes) → length (blake2b bs) ≡ 32)
        → ((bs : Bytes) → encode m.payload ≡ some bs → decode bs ≡ some m.payload)
        → IsPunctual turns
        → write_frame crc32 blake2b uuid_bytes uuid_text encode decode takes m v ≡ (ok tt, v')
        → (bytes : Bytes) × (new : Bytes) × (w : Wire) × (v'.written ≡ v.written ++ new)
          × (encode m.payload ≡ some bytes)
          × (read_frame crc32 blake2b uuid_bytes uuid_text encode decode
                (record { incoming = new ++ rest; turns = turns })
              ≡ (ok (some (delivered m bytes)), w))
          × (w.incoming ≡ rest)
    read-write_frame rest turns digest codec punctual e =
        let (bytes, h, coded, packed, wrote) = written_by e in
        let (w, read, left) =
          read-sent m bytes h rest (digest bytes) (codec bytes coded) packed
            (record { incoming = (h ++ bytes) ++ rest; turns = turns }) (append_assoc h bytes rest)
            punctual in
        (bytes, h ++ bytes, w, wrote ∙ append_assoc v.written h bytes, coded, read, left)
