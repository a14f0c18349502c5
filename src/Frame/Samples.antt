-- ===== src/Frame/Samples.antt =====
-- A frame of three bytes, written and read in pieces.
use novamind.Prelude.{
  ℕ, ◌≤◌, ◌<◌, String, ◌≡◌, refl, sym, Bool, true, Option, none, some, List, [], ◌∷◌, ◌++◌,
}
use novamind.Prelude.Result.{ok, err}
use novamind.Wal.{Bytes, same_bytes}
use novamind.Frame.{
  limit, encode, zeros, fit, MessageType, type_value, HeaderArgs, concat, checksum, fields,
  in_range, pack_frame_header,
}
use novamind.Frame.Codec.{sent, unpack-pack}
use novamind.Frame.Bounds.{unpack_frame_header_le}
use novamind.Frame.Stream.{
  FrameReadError, Turn, gives, late, Wire, Writer, Message, header_args, write_frame,
  write_serialized, write_packed, write_bytes, write_payload, is_empty, read_loop, read_exact,
  resync, read_frame, after_magic, after_resync,
}
use novamind.Frame.Reading.{IsPunctual}
use novamind.Frame.Delivery.{delivered, read-write_frame}

abbrev crc32 : Bytes → ℕ
crc32 bs = 7

abbrev digest : Bytes
digest =
    1 ∷ 2 ∷ 3 ∷ 4 ∷ 5 ∷ 6 ∷ 7 ∷ 8 ∷ 1 ∷ 2 ∷ 3 ∷ 4 ∷ 5 ∷ 6 ∷ 7 ∷ 8 ∷ 1 ∷ 2 ∷ 3 ∷ 4 ∷ 5 ∷ 6 ∷ 7 ∷ 8
    ∷ 1 ∷ 2 ∷ 3 ∷ 4 ∷ 5 ∷ 6 ∷ 7 ∷ 8 ∷ []

abbrev blake2b : Bytes → Bytes
blake2b bs = digest

abbrev no_uuid : String → Option Bytes
no_uuid t = none

abbrev nil_uuid : Bytes → String
nil_uuid bs = "00000000-0000-0000-0000-000000000000"

abbrev whole : Bytes → Option Bytes
whole bs = some bs

abbrev takes : Bytes → Bool
takes bs = true

abbrev message : Message Bytes
message = record {
  msg_type = MessageType.command;
  sequence_id = 258;
  correlation_id = "c";
  payload = 65 ∷ 66 ∷ 67 ∷ [];
  flags = 1;
  timestamp_ns = 1000000;
}

abbrev quiet : Writer
quiet = record { written = 9 ∷ []; unacknowledged_writes = 0 }

abbrev after_write : Writer
after_write = (write_frame crc32 blake2b no_uuid nil_uuid whole whole takes message quiet).1

abbrev pieces : List Turn
pieces = gives 0 ∷ gives 1 ∷ gives 0 ∷ gives 40 ∷ []

pieces-IsPunctual : IsPunctual pieces
pieces-IsPunctual = refl

written :
    write_frame crc32 blake2b no_uuid nil_uuid whole whole takes message quiet
    ≡ (ok tt, after_write)
unfolding write_frame write_serialized write_packed write_bytes write_payload pack_frame_header
    in_range limit header_args
written = refl

read-write_frame_example :
    (bytes : Bytes) × (new : Bytes) × (w : Wire) × (after_write.written ≡ quiet.written ++ new)
    × (whole message.payload ≡ some bytes)
    × (read_frame crc32 blake2b no_uuid nil_uuid whole whole
          (record { incoming = new ++ 1 ∷ 2 ∷ []; turns = pieces })
        ≡ (ok (some (delivered crc32 blake2b no_uuid nil_uuid whole whole message bytes)), w))
    × (w.incoming ≡ 1 ∷ 2 ∷ [])
read-write_frame_example =
    read-write_frame crc32 blake2b no_uuid nil_uuid whole whole takes message quiet after_write
      (1 ∷ 2 ∷ []) pieces (λ bs. refl) (λ bs e. sym e) pieces-IsPunctual written

abbrev args : HeaderArgs
args = header_args crc32 blake2b no_uuid nil_uuid whole whole message message.payload

abbrev packed : Bytes
packed =
    78 ∷ 77 ∷ 73 ∷ 80 ∷ 1 ∷ 1 ∷ 0 ∷ 0 ∷ 83 ∷ 1 ∷ 1 ∷ 0 ∷ 0 ∷ 0 ∷ 0 ∷ 0 ∷ 0 ∷ 1 ∷ 2 ∷ 0 ∷ 0 ∷ 0 ∷ 0
      ∷ 0 ∷ 0 ∷ 0 ∷ 0 ∷ 0 ∷ 0 ∷ 0 ∷ 0 ∷ 0 ∷ 0 ∷ 0 ∷ 0 ∷ 0 ∷ 0 ∷ 0 ∷ 0 ∷ 0 ∷ 15 ∷ 66 ∷ 64 ∷ 0 ∷ 0 ∷ 0
      ∷ 3 ∷ digest
    ++ 0 ∷ 0 ∷ 0 ∷ 7 ∷ []

packed_run : pack_frame_header crc32 no_uuid args ≡ ok packed
unfolding pack_frame_header in_range limit header_args concat fields encode fit zeros checksum
    type_value
packed_run = refl

unpack_frame_header_le_example :
    ((sent crc32 no_uuid nil_uuid args).payload_length ≤ 16777216)
    × ((sent crc32 no_uuid nil_uuid args).flags < limit 1)
    × ((sent crc32 no_uuid nil_uuid args).sequence_id < limit 8)
    × ((sent crc32 no_uuid nil_uuid args).timestamp_ns < limit 8)
unpack_frame_header_le_example =
    unpack_frame_header_le crc32 nil_uuid (packed ++ 5 ∷ []) (sent crc32 no_uuid nil_uuid args) refl
      (unpack-pack crc32 no_uuid nil_uuid args packed (5 ∷ []) packed_run)

abbrev incoming : Bytes → Wire
incoming bs = record { incoming = bs; turns = [] }

-- One byte of noise before a frame: the scan for the magic starts behind the four bytes that were read,
-- finds no other, and the frame is lost.
noise_run :
    (read_frame crc32 blake2b no_uuid nil_uuid whole whole
      (incoming (0 ∷ packed ++ 65 ∷ 66 ∷ 67 ∷ []))).0
    ≡ err FrameReadError.closed_in_resync
unfolding read_frame after_magic after_resync read_exact read_loop is_empty same_bytes resync
noise_run = refl

-- The time is over after three of the four bytes: the caller is told of the end of the stream.
late_run :
    (read_frame crc32 blake2b no_uuid nil_uuid whole whole
      (record { incoming = packed; turns = gives 2 ∷ late ∷ [] })).0
    ≡ ok none
unfolding read_frame after_magic read_exact read_loop is_empty same_bytes
late_run = refl
