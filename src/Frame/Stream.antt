-- ===== src/Frame/Stream.antt =====
-- core/ipc/frame_writer.py and core/ipc/frame_reader.py. `encode` and `decode` are `serialize` and
-- `deserialize` of core/ipc/serializer.py, on payloads of the type `P`. The transport is given by what
-- it answers: a reader's wire holds the bytes that arrive, and for each call of `read_func` a turn,
-- which says that the time is over or how many bytes more than one the call returns at most; with no
-- turn left a call returns what it is asked for.
use novamind.Prelude.{
  ℕ, zero, suc, ◌+◌, ◌-◌, String, Bool, true, false, not, ◌&&◌, Option, none, some, List, [], ◌∷◌,
  ◌++◌, length, take, drop, ltb, leb, eqb, if◌then◌else◌,
}
use novamind.Prelude.Result.{Result, ok, err}
use novamind.Wal.{Bytes, same_bytes}
use novamind.Frame.{
  FrameCodecError, HeaderArgs, Header, MessageType, magic_bytes, pack_frame_header,
  unpack_frame_header,
}

pub data FrameReadError : Type 0 where
  read_timeout closed_mid_frame resync_timeout closed_in_resync bad_integrity bad_payload :
      FrameReadError
  corrupt_header : FrameCodecError → FrameReadError

pub data Turn : Type 0 where
  late : Turn
  gives : ℕ → Turn

pub record Wire : Type 0 where
  pub incoming : Bytes
  pub turns : List Turn

pub record Writer : Type 0 where
  pub written : Bytes
  pub unacknowledged_writes : ℕ

pub data FrameWriteError : Type 0 where
  not_serializable write_failed flush_failed : FrameWriteError
  not_packed : FrameCodecError → FrameWriteError

abbrev pub Read : Type 0 → Type 0
Read A = Result FrameReadError A × Wire

-- How many bytes a call returns that is asked for `suc n`.
abbrev granted : Turn → ℕ → ℕ
granted late n = 0
granted (gives k) n = if leb (suc k) (suc n) then suc k else suc n

abbrev pub is_late : List Turn → Bool
is_late (late ∷ ts) = true
is_late _ = false

abbrev pub next_grant : List Turn → ℕ → ℕ
next_grant [] n = suc n
next_grant (t ∷ ts) n = granted t n

abbrev pub rest_of : List Turn → List Turn
rest_of [] = []
rest_of (t ∷ ts) = ts

-- `read_func`, after the check of the time
abbrev pub receive : ℕ → Wire → Bytes × Wire
receive n w = (
  take (next_grant w.turns n) w.incoming,
  record { incoming = drop (next_grant w.turns n) w.incoming; turns = rest_of w.turns },
)

unfoldable pub is_empty : Bytes → Bool
is_empty [] = true
is_empty _ = false

-- The loop of `_read_exact`, where `suc n` bytes are wanted and `buf` is read; every turn that goes on
-- has read a byte, so that `fuel` of as many turns as bytes is enough.
unfoldable pub read_loop : ℕ → ℕ → Bytes → Wire → Read Bytes
unfolding is_empty
read_loop zero n buf w = (ok buf, w)
read_loop (suc fuel) zero buf w = (ok buf, w)
read_loop (suc fuel) (suc n) buf w =
    let (chunk, w') = receive n w in
    let next = read_loop fuel (suc n - length chunk) (buf ++ chunk) w' in
    if is_late w.turns
    then (err read_timeout, record w { turns = rest_of w.turns })
    else if is_empty chunk
    then (if is_empty buf then ok [] else err closed_mid_frame, w')
    else next

-- _read_exact
unfoldable pub read_exact : ℕ → Wire → Read Bytes
read_exact n w = read_loop n n [] w

-- The last four bytes of `buf`, the newest first, are the magic.
abbrev ends_with_magic : Bytes → Bool
ends_with_magic buf = same_bytes (take 4 buf) (80 ∷ 73 ∷ 77 ∷ 78 ∷ [])

-- _resync_stream, with as much fuel as there are bytes
unfoldable pub resync : ℕ → Bytes → Wire → Read (Unit {0})
unfolding is_empty
resync zero buf w = (if is_late w.turns then err resync_timeout else err closed_in_resync, w)
resync (suc fuel) buf w =
    let (b, w') = receive 0 w in
    let next = resync fuel (b ++ buf) w' in
    if is_late w.turns
    then (err resync_timeout, record w { turns = rest_of w.turns })
    else if is_empty b
    then (err closed_in_resync, w')
    else if ends_with_magic (b ++ buf)
    then (ok tt, w')
    else next

-- The arguments of `write_frame`, with the clock's reading.
pub record Message (P : Type 0) : Type 0 where
  pub msg_type : MessageType
  pub sequence_id : ℕ
  pub correlation_id : String
  pub payload : P
  pub flags : ℕ
  pub timestamp_ns : ℕ

-- What `read_frame` returns: the fields of the header, and the payload.
pub record Frame (P : Type 0) : Type 0 where
  pub header : Header
  pub payload : P

module _ {P : Type 0} (crc32 : Bytes → ℕ) (blake2b : Bytes → Bytes)
    (uuid_bytes : String → Option Bytes) (uuid_text : Bytes → String) (encode : P → Option Bytes)
    (decode : Bytes → Option P) where
  unfoldable pub header_args : Message P → Bytes → HeaderArgs
  header_args m bytes = record {
    msg_type = m.msg_type;
    sequence_id = m.sequence_id;
    correlation_id = m.correlation_id;
    payload_length = length bytes;
    payload_integrity = blake2b bytes;
    flags = m.flags;
    timestamp_ns = m.timestamp_ns;
  }

  -- The writes to the transport, where `takes` says which bytes it takes without raising.
  module _ (takes : Bytes → Bool) where
    unfoldable pub write_payload : Bytes → Writer → Result FrameWriteError (Unit {0}) × Writer
    write_payload bytes w =
        if ltb 0 (length bytes) && not (takes bytes) then (err write_failed, w) else (
          ok tt,
          record {
            written = w.written ++ bytes;
            unacknowledged_writes = w.unacknowledged_writes + 1;
          },
        )

    unfoldable pub write_bytes : Bytes → Bytes → Writer → Result FrameWriteError (Unit {0}) × Writer
    unfolding write_payload
    write_bytes header bytes w =
        if takes header
        then write_payload bytes (record w { written = w.written ++ header })
        else (err write_failed, w)

    unfoldable pub write_packed :
        Result FrameCodecError Bytes → Bytes → Writer → Result FrameWriteError (Unit {0}) × Writer
    unfolding write_bytes
    write_packed (err e) bytes w = (err (not_packed e), w)
    write_packed (ok header) bytes w = write_bytes header bytes w

    unfoldable pub write_serialized :
        Message P → Option Bytes → Writer → Result FrameWriteError (Unit {0}) × Writer
    unfolding write_packed
    write_serialized m none w = (err not_serializable, w)
    write_serialized m (some bytes) w =
        write_packed (pack_frame_header crc32 uuid_bytes (header_args m bytes)) bytes w

    unfoldable pub write_frame : Message P → Writer → Result FrameWriteError (Unit {0}) × Writer
    unfolding write_serialized
    write_frame m w = write_serialized m (encode m.payload) w

  -- flush, where `flushes` says whether `flush_func` returns
  unfoldable pub flush : Bool → Writer → Result FrameWriteError (Unit {0}) × Writer
  flush flushes w =
      if ltb 0 w.unacknowledged_writes
      then (if flushes
          then (ok tt, record w { unacknowledged_writes = 0 })
          else (err flush_failed, w))
      else (ok tt, w)

  unfoldable pub decoded : Header → Option P → Result FrameReadError (Option (Frame P))
  decoded h none = err bad_payload
  decoded h (some p) = ok (some (record { header = h; payload = p }))

  unfoldable pub checked : Header → Bytes → Result FrameReadError (Option (Frame P))
  unfolding decoded
  checked h bytes =
      if same_bytes (blake2b bytes) h.payload_integrity
      then decoded h (decode bytes)
      else err bad_integrity

  unfoldable pub after_payload : Header → Read Bytes → Read (Option (Frame P))
  unfolding checked
  after_payload h (err e, w) = (err e, w)
  after_payload h (ok bytes, w) = (checked h bytes, w)

  unfoldable pub after_header : Result FrameCodecError Header → Wire → Read (Option (Frame P))
  unfolding after_payload
  after_header (err e) w = (err (corrupt_header e), w)
  after_header (ok h) w =
      after_payload h (if eqb h.payload_length 0 then (ok [], w) else read_exact h.payload_length w)

  unfoldable pub after_rest : Read Bytes → Read (Option (Frame P))
  unfolding after_header
  after_rest (err e, w) = (err e, w)
  after_rest (ok rest, w) =
      after_header (unpack_frame_header crc32 uuid_text (magic_bytes ++ rest)) w

  unfoldable pub after_resync : Read (Unit {0}) → Read (Option (Frame P))
  unfolding after_rest
  after_resync (err e, w) = (err e, w)
  after_resync (ok _, w) = after_rest (read_exact 79 w)

  -- What `read_frame` does with its first four bytes: a timeout is taken for the end of the stream.
  unfoldable pub after_magic : Read Bytes → Read (Option (Frame P))
  unfolding after_rest after_resync
  after_magic (err closed_mid_frame, w) = (err closed_mid_frame, w)
  after_magic (err _, w) = (ok none, w)
  after_magic (ok [], w) = (ok none, w)
  after_magic (ok magic, w) =
      if same_bytes magic magic_bytes
      then after_rest (read_exact 79 w)
      else after_resync (resync (length w.incoming) [] w)

  unfoldable pub read_frame : Wire → Read (Option (Frame P))
  unfolding after_magic
  read_frame w = after_magic (read_exact 4 w)
