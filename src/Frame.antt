-- ===== src/Frame.antt =====
-- core/ipc/frame_codec.py and core/ipc/checksum.py: the binary header of a frame. A byte is a number.
-- `crc32` and `blake2b` are the functions of Python's libraries, `uuid_bytes` is `UUID(text).bytes`,
-- or `none` for its ValueError, and `uuid_text` is `str(UUID(bytes=...))`.
pub mod Fields
pub mod Codec
pub mod Bounds
pub mod Stream
pub mod Reading
pub mod Delivery
mod Samples
use novamind.Prelude.{
  ℕ, zero, suc, ◌+◌, ◌*◌, ◌/◌, ◌%◌, String, Bool, true, false, not, ◌&&◌, Option, none, some, List,
  [], ◌∷◌, ◌++◌, ◌==◌, length, take, drop, ltb, eqb, if◌then◌else◌,
}
use novamind.Prelude.Result.{Result, ok, err}
use novamind.Wal.{Bytes, same_bytes}

-- How many numbers fit in as many bytes.
unfoldable pub limit : ℕ → ℕ
limit zero = 1
limit (suc w) = 256 * limit w

-- struct.pack of a big-endian field, for a number that fits
unfoldable pub encode : ℕ → ℕ → Bytes
encode zero n = []
encode (suc w) n = encode w (n / 256) ++ n % 256 ∷ []

unfoldable pub decode_from : ℕ → Bytes → ℕ
decode_from acc [] = acc
decode_from acc (b ∷ bs) = decode_from (acc * 256 + b) bs

-- struct.unpack of a big-endian field
unfoldable pub decode : Bytes → ℕ
unfolding decode_from
decode bs = decode_from 0 bs

unfoldable pub zeros : ℕ → Bytes
zeros zero = []
zeros (suc w) = 0 ∷ zeros w

-- struct.pack of an `s` field: cut short or padded
unfoldable pub fit : ℕ → Bytes → Bytes
unfolding zeros
fit w bs = take w (bs ++ zeros w)

abbrev pub magic_bytes : Bytes
magic_bytes = 78 ∷ 77 ∷ 73 ∷ 80 ∷ []

abbrev pub header_size : ℕ
header_size = 83

abbrev pub max_payload_size : ℕ
max_payload_size = 16777216

-- A message type as an argument: a member of the enum MessageType, or a text, which is equal to none.
pub data MessageType : Type 0 where
  command event state_update heartbeat error system : MessageType
  text : String → MessageType

-- _MSG_TYPE_TO_ENUM.get(msg_type, FrameTypeEnum.UNKNOWN)
unfoldable pub type_value : MessageType → ℕ
type_value MessageType.command = 1
type_value MessageType.event = 2
type_value MessageType.state_update = 3
type_value MessageType.error = 4
type_value MessageType.heartbeat = 5
type_value MessageType.system = 6
type_value (MessageType.text t) = 0

unfoldable pub find_type : ℕ → List MessageType → MessageType
find_type n [] = MessageType.text "UNKNOWN"
find_type n (t ∷ ts) = if eqb (type_value t) n then t else find_type n ts

-- _ENUM_TO_MSG_TYPE.get(n, "UNKNOWN")
unfoldable pub type_of : ℕ → MessageType
unfolding find_type
type_of n = find_type n (
    MessageType.command ∷ MessageType.event ∷ MessageType.state_update ∷ MessageType.error
    ∷ MessageType.heartbeat ∷ MessageType.system ∷ [])

pub data FrameCodecError : Type 0 where
  too_large short bad_magic bad_checksum unpack_failed : FrameCodecError
  -- struct.error of `pack`, which is not caught
  out_of_range : FrameCodecError

-- The arguments of `pack_frame_header`, with the clock's reading where `timestamp_ns` is None.
pub record HeaderArgs : Type 0 where
  pub msg_type : MessageType
  pub sequence_id : ℕ
  pub correlation_id : String
  pub payload_length : ℕ
  pub payload_integrity : Bytes
  pub flags : ℕ
  pub timestamp_ns : ℕ

-- The fields of a header that was read; the version as its three numbers.
pub record Header : Type 0 where
  pub protocol_version : ℕ × ℕ × ℕ
  pub header_length : ℕ
  pub message_type : MessageType
  pub flags : ℕ
  pub sequence_id : ℕ
  pub correlation_id : String
  pub timestamp_ns : ℕ
  pub payload_length : ℕ
  pub payload_integrity : Bytes
  pub header_checksum : ℕ

unfoldable pub concat : List Bytes → Bytes
concat [] = []
concat (p ∷ ps) = p ++ concat ps

-- The fields of a text of bytes by their widths.
unfoldable pub split : List ℕ → Bytes → List Bytes
split [] bs = []
split (w ∷ ws) bs = take w bs ∷ split ws (drop w bs)

-- HEADER_FORMAT
abbrev pub widths : List ℕ
widths = 4 ∷ 1 ∷ 1 ∷ 1 ∷ 2 ∷ 1 ∷ 1 ∷ 8 ∷ 16 ∷ 8 ∷ 4 ∷ 32 ∷ 4 ∷ []

module _ (crc32 : Bytes → ℕ) where
  -- compute_transport_checksum
  unfoldable pub checksum : Bytes → ℕ
  checksum bs = crc32 bs % 4294967296

  module _ (uuid_bytes : String → Option Bytes) where
    abbrev pub or_zeros : Option Bytes → Bytes
    or_zeros none = 0 ∷ 0 ∷ 0 ∷ 0 ∷ 0 ∷ 0 ∷ 0 ∷ 0 ∷ 0 ∷ 0 ∷ 0 ∷ 0 ∷ 0 ∷ 0 ∷ 0 ∷ 0 ∷ []
    or_zeros (some b) = b

    -- The fields that are packed before the checksum; PROTOCOL_VERSION is 1.1.0.
    unfoldable pub fields : HeaderArgs → List Bytes
    fields x =
        magic_bytes
        ∷ encode 1 1
        ∷ encode 1 1
        ∷ encode 1 0
        ∷ encode 2 header_size
        ∷ encode 1 (type_value x.msg_type)
        ∷ encode 1 x.flags
        ∷ encode 8 x.sequence_id
        ∷ fit 16 (or_zeros (uuid_bytes x.correlation_id))
        ∷ encode 8 x.timestamp_ns
        ∷ encode 4 x.payload_length
        ∷ fit 32 x.payload_integrity
        ∷ []

    -- The range checks of `struct.pack`.
    unfoldable pub in_range : HeaderArgs → Bool
    in_range x =
        ltb x.flags (limit 1)
        && (ltb x.sequence_id (limit 8)
            && (ltb x.timestamp_ns (limit 8) && ltb x.payload_length (limit 4)))

    unfoldable pub pack_frame_header : HeaderArgs → Result FrameCodecError Bytes
    pack_frame_header x =
        if ltb max_payload_size x.payload_length
        then err too_large
        else if in_range x
        then ok (concat (fields x ++ encode 4 (checksum (concat (fields x))) ∷ []))
        else err out_of_range

  module _ (uuid_text : Bytes → String) where
    -- The checks on the fields of the bytes `bytes`.
    unfoldable pub parse : Bytes → List Bytes → Result FrameCodecError Header
    parse bytes
          (magic ∷ major ∷ minor ∷ patch ∷ hdr_len ∷ frame_type ∷ flags ∷ seq ∷ corr ∷ ts ∷ len
            ∷ integrity ∷ check ∷ []) =
        if not (same_bytes magic magic_bytes)
        then err bad_magic
        else if not (eqb (decode check) (checksum (take 79 bytes)))
        then err bad_checksum
        else if ltb max_payload_size (decode len)
        then err too_large
        else ok (record {
          protocol_version = (decode major, decode minor, decode patch);
          header_length = decode hdr_len;
          message_type = type_of (decode frame_type);
          flags = decode flags;
          sequence_id = decode seq;
          correlation_id = uuid_text corr;
          timestamp_ns = decode ts;
          payload_length = decode len;
          payload_integrity = integrity;
          header_checksum = decode check;
        })
    parse bytes _ = err unpack_failed

    unfoldable pub unpack_frame_header : Bytes → Result FrameCodecError Header
    unpack_frame_header bytes =
        if ltb (length bytes) header_size
        then err short
        else parse bytes (split widths (take header_size bytes))
