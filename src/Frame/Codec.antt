-- ===== src/Frame/Codec.antt =====
-- A header that was packed, when it is unpacked.
use novamind.Prelude.{
  ℕ, ◌<◌, String, ◌≡◌, refl, sym, ap, ◌∙◌, Bool, true, false, ◌&&◌, Option, List, [], ◌∷◌, ◌++◌,
  length, take, drop, map, ltb, eqb, ltb→lt, length-append, take-append_of, append_assoc,
  append-nil, arith, Bool-cases, inl, inr,
}
use novamind.Prelude.Result.{ok, ok-injective}
use novamind.Wal.{Bytes, same_bytes}
use novamind.Frame.{
  limit, encode, decode, decode_from, fit, magic_bytes, header_size, max_payload_size, MessageType,
  type_value, type_of, find_type, HeaderArgs, Header, concat, split, widths, checksum, or_zeros,
  fields, in_range, pack_frame_header, parse, unpack_frame_header,
}
use novamind.Frame.Fields.{
  length-encode, decode-encode, length-fit, split-concat, concat-append, sum, length-concat,
}

-- What the reader makes of a message type: a text becomes the text UNKNOWN.
abbrev pub received_as : MessageType → MessageType
received_as (MessageType.text t) = MessageType.text "UNKNOWN"
received_as t = t

type_of-type_value : (t : MessageType) → type_of (type_value t) ≡ received_as t
unfolding type_of type_value find_type
type_of-type_value (MessageType.text t) = refl
type_of-type_value _ = refl

type_value_lt : (t : MessageType) → type_value t < limit 1
unfolding type_value limit
type_value_lt (MessageType.text t) = omega arith
type_value_lt MessageType.command = omega arith
type_value_lt MessageType.event = omega arith
type_value_lt MessageType.state_update = omega arith
type_value_lt MessageType.heartbeat = omega arith
type_value_lt MessageType.error = omega arith
type_value_lt MessageType.system = omega arith

-- The fields that are the same in every header.
constants :
    (decode (encode 1 1) ≡ 1) × (decode (encode 1 0) ≡ 0) × (decode (encode 2 header_size) ≡ 83)
unfolding decode encode decode_from
constants = (refl, refl, refl)

eqb_refl : (n : ℕ) → eqb n n ≡ true
eqb_refl n = ground arith

and-true : (a b : Bool) → (a && b) ≡ true → (a ≡ true) × (b ≡ true)
and-true true b h = (refl, h)
and-true false b h = cc

module _ (crc32 : Bytes → ℕ) (uuid_bytes : String → Option Bytes) (uuid_text : Bytes → String)
    (x : HeaderArgs) where
  abbrev uuid : Bytes
  uuid = fit 16 (or_zeros crc32 uuid_bytes (uuid_bytes x.correlation_id))

  abbrev check : Bytes
  check = encode 4 (checksum crc32 (concat (fields crc32 uuid_bytes x)))

  parts : List Bytes
  parts = fields crc32 uuid_bytes x ++ check ∷ []

  -- The header that was sent.
  abbrev pub sent : Header
  sent = record {
    protocol_version = (1, 1, 0);
    header_length = 83;
    message_type = received_as x.msg_type;
    flags = x.flags;
    sequence_id = x.sequence_id;
    correlation_id = uuid_text uuid;
    timestamp_ns = x.timestamp_ns;
    payload_length = x.payload_length;
    payload_integrity = fit 32 x.payload_integrity;
    header_checksum = checksum crc32 (concat (fields crc32 uuid_bytes x));
  }

  lengths : map length parts ≡ widths
  unfolding parts fields
  lengths =
      rw
        (
          length-encode 1 1,
          length-encode 1 0,
          length-encode 2 83,
          length-encode 1 (type_value x.msg_type),
          length-encode 1 x.flags,
          length-encode 8 x.sequence_id,
          length-fit 16 (or_zeros crc32 uuid_bytes (uuid_bytes x.correlation_id)),
          length-encode 8 x.timestamp_ns,
          length-encode 4 x.payload_length,
          length-fit 32 x.payload_integrity,
          length-encode 4 (checksum crc32 (concat (fields crc32 uuid_bytes x))),
        )
        refl

  length-parts : length (concat parts) ≡ 83
  unfolding sum
  length-parts = length-concat parts ∙ ap sum lengths

  split-parts : split widths (concat parts) ≡ parts
  split-parts = ap (λ ws. split ws (concat parts)) (sym lengths) ∙ split-concat parts

  body : Bytes
  body = concat (fields crc32 uuid_bytes x)

  parts-body : concat parts ≡ body ++ check
  unfolding parts body concat
  parts-body =
      concat-append (fields crc32 uuid_bytes x) (check ∷ [])
      ∙ ap (λ l. body ++ l) (append-nil check)

  length-body : length body ≡ 79
  length-body = omega (
    arith,
    ap length parts-body,
    length-parts,
    length-append body check,
    length-encode 4 (checksum crc32 (concat (fields crc32 uuid_bytes x))),
  )

  checksum_lt : checksum crc32 (concat (fields crc32 uuid_bytes x)) < limit 4
  unfolding checksum limit
  checksum_lt = omega arith

  module _ (rest : Bytes) where
    whole : Bytes
    whole = concat parts ++ rest

    take_header : take header_size whole ≡ concat parts
    unfolding whole
    take_header = take-append_of 83 (concat parts) rest length-parts

    take_body : take 79 whole ≡ body
    unfolding whole
    take_body =
        ap (λ l. take 79 (l ++ rest)) parts-body
        ∙ ap (take 79) (append_assoc body check rest)
        ∙ take-append_of 79 body (check ++ rest) length-body

  not_short : (rest : Bytes) → ltb (length (whole rest)) header_size ≡ false
  unfolding whole
  not_short rest = ground (arith, length-append (concat parts) rest, length-parts)

  module _ (fine : ltb max_payload_size x.payload_length ≡ false)
      (range : in_range crc32 uuid_bytes x ≡ true) where
    ranges :
        (x.flags < limit 1)
        × (x.sequence_id < limit 8)
        × (x.timestamp_ns < limit 8)
        × (x.payload_length < limit 4)
    unfolding in_range
    ranges =
        let (a, r) = and-true (ltb x.flags (limit 1)) _ range in
        let (b, r') = and-true (ltb x.sequence_id (limit 8)) _ r in
        let (c, d) = and-true (ltb x.timestamp_ns (limit 8)) _ r' in
        (ltb→lt _ _ a, ltb→lt _ _ b, ltb→lt _ _ c, ltb→lt _ _ d)

    parse-parts : (rest : Bytes) → parse crc32 uuid_text (whole rest) parts ≡ ok sent
    unfolding parse parts fields same_bytes body
    parse-parts rest =
        let (a, b, c, d) = ranges in
        let k : ℕ = checksum crc32 (concat (fields crc32 uuid_bytes x)) in
        rw (take_body rest, decode-encode 4 k checksum_lt)
          (rw (eqb_refl k, decode-encode 4 x.payload_length d)
            (rw fine (
              rw
                (
                  constants.0,
                  constants.1,
                  constants.2,
                  decode-encode 1 (type_value x.msg_type) (type_value_lt x.msg_type),
                  decode-encode 1 x.flags a,
                  decode-encode 8 x.sequence_id b,
                  decode-encode 8 x.timestamp_ns c,
                  type_of-type_value x.msg_type,
                )
                refl)))

  pack_parts :
      (h : Bytes)
      → pack_frame_header crc32 uuid_bytes x ≡ ok h
      → (ltb max_payload_size x.payload_length ≡ false)
        × (in_range crc32 uuid_bytes x ≡ true)
        × (h ≡ concat parts)
  unfolding pack_frame_header parts
  pack_parts h e = elim (Bool-cases (ltb max_payload_size x.payload_length)) [
    | inl f ↦ cc (rw f at e)
    | inr f ↦ elim (Bool-cases (in_range crc32 uuid_bytes x)) [
      | inr g ↦ cc (rw g at (rw f at e))
      | inl g ↦ (f, g, sym (ok-injective (rw g at (rw f at e))))
    ]
  ]

  -- A header that `pack_frame_header` returns has 83 bytes.
  length-pack_frame_header :
      (h : Bytes) → pack_frame_header crc32 uuid_bytes x ≡ ok h → length h ≡ 83
  length-pack_frame_header h e = ap length (pack_parts h e).2 ∙ length-parts

  -- Whatever `pack_frame_header` returns, `unpack_frame_header` reads back the fields that were packed,
  -- from these bytes with any others behind them: a member of MessageType as itself and a text as
  -- UNKNOWN, the integrity as 32 bytes and the correlation id as the UUID of its 16 bytes. This does
  -- not depend on the checksum function.
  pub unpack-pack :
      (h rest : Bytes)
      → pack_frame_header crc32 uuid_bytes x ≡ ok h
      → unpack_frame_header crc32 uuid_text (h ++ rest) ≡ ok sent
  unfolding unpack_frame_header whole
  unpack-pack h rest e =
      let (fine, range, same) = pack_parts h e in
      rw same (rw (not_short rest, take_header rest) (rw split-parts (parse-parts fine range rest)))

  tail : Bytes
  tail = concat (drop 1 parts)

  parts-tail : concat parts ≡ magic_bytes ++ tail
  unfolding parts fields concat tail
  parts-tail = refl

  -- The header starts with the magic bytes, and has 79 bytes behind them.
  pub pack-magic :
      (h : Bytes)
      → pack_frame_header crc32 uuid_bytes x ≡ ok h
      → (r : Bytes) × (h ≡ magic_bytes ++ r) × (length r ≡ 79)
  pack-magic h e =
      let same : h ≡ magic_bytes ++ tail = (pack_parts h e).2 ∙ parts-tail in
      (
        tail,
        same,
        omega (arith, ap length same, length-pack_frame_header h e, length-append magic_bytes tail),
      )
