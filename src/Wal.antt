-- ===== src/Wal.antt =====
-- core/transaction/effect_wal.py: the log of side effects as the bytes of its file. `json.dumps` with
-- its encoding, `json.loads` with its decoding and the digest are parameters; writes, `flush` and
-- `fsync` succeed. A byte is a number. `worker_id` and `payload` keep what the reconciler reads.
pub mod Recover
pub mod Torn
pub mod Tampered
pub mod Reconcile
pub mod Verdict
mod Samples
use novamind.Prelude.{
  ℕ, zero, suc, ◌+◌, ◌*◌, ◌/◌, ◌%◌, String, Bool, true, false, Option, none, some, List, [], ◌∷◌,
  ◌++◌, length, take, drop, all, contains, eqb, ltb, if◌then◌else◌, not, ◌&&◌, ◌==◌,
}
use novamind.Prelude.Dict
use novamind.Prelude.Dict.{Dict}
use novamind.Prelude.Result.{Result, ok, err}

abbrev pub Bytes : Type 0
Bytes = List ℕ

pub data WalState : Type 0 where
  prepare lease_bind dispatch execute_begin execute_end verify commit rollback : WalState

-- The payload of a record: the flag that `EffectReconciler` looks for, if the key is there, and the rest.
pub record Payload : Type 0 where
  pub is_reversible : Option Bool
  pub body : String

pub record WalRecord : Type 0 where
  pub global_seq : ℕ
  pub tx_id : String
  pub state : WalState
  pub worker_id : String
  pub payload : Payload

pub data WalError : Type 0 where
  truncated_prefix truncated_payload not_ascii truncated_hash chain_broken undecodable out_of_fuel :
      WalError

-- The fields that `_recover` rebuilds.
pub record Index : Type 0 where
  pub global_seq : ℕ
  pub last_hash : Bytes
  pub transactions : Dict (List WalRecord)

pub record EffectWal : Type 0 where
  pub file : Bytes
  pub index : Index

-- struct.pack(">I", n), for n < 2 ** 32
abbrev pub pack : ℕ → Bytes
pack n = n / 16777216 % 256 ∷ n / 65536 % 256 ∷ n / 256 % 256 ∷ n % 256 ∷ []

-- struct.unpack(">I", bytes)[0], of four bytes
abbrev pub unpack : Bytes → ℕ
unpack (a ∷ b ∷ c ∷ d ∷ []) = ((a * 256 + b) * 256 + c) * 256 + d
unpack _ = 0

unfoldable pub same_bytes : Bytes → Bytes → Bool
same_bytes [] [] = true
same_bytes (a ∷ l) (b ∷ m) = eqb a b && same_bytes l m
same_bytes _ _ = false

-- self.transactions[tx_id].append(record)
abbrev pub index_record : WalRecord → Dict (List WalRecord) → Dict (List WalRecord)
index_record r d =
    Dict.insert r.tx_id (elim (Dict.lookup r.tx_id d) [ none ↦ r ∷ [] | some l ↦ l ++ r ∷ [] ]) d

-- The arguments of one call of `append`.
pub record Append : Type 0 where
  pub tx_id : String
  pub state : WalState
  pub payload : Payload
  pub worker_id : String

abbrev pub made : Append → Index → WalRecord
made x s = record {
  global_seq = s.global_seq + 1;
  tx_id = x.tx_id;
  state = x.state;
  worker_id = x.worker_id;
  payload = x.payload;
}

module _ (dumps : WalRecord → Bytes) (loads : Bytes → Option WalRecord)
    (hexdigest : Bytes → Bytes) where
  -- b"genesis"
  abbrev pub initial : Index
  initial = record {
    global_seq = 0;
    last_hash = hexdigest (103 ∷ 101 ∷ 110 ∷ 101 ∷ 115 ∷ 105 ∷ 115 ∷ []);
    transactions = [];
  }

  abbrev pub create : EffectWal
  create = record { file = []; index = initial }

  abbrev pub frame : Bytes → Bytes → Bytes
  frame payload hash = pack (length payload) ++ payload ++ hash

  -- What one valid record does to the fields.
  abbrev pub absorb : Bytes → WalRecord → Index → Index
  absorb payload r s = record {
    global_seq = r.global_seq;
    last_hash = hexdigest (s.last_hash ++ payload);
    transactions = if r.tx_id == "" then s.transactions else index_record r s.transactions;
  }

  -- The tests of `_recover` on what it reads: the length prefix, the payload, the hash and the rest.
  unfoldable pub checked : Bytes → Bytes → Bytes → Bytes → Index → Result WalError (Index × Bytes)
  checked len_bytes payload hash rest s =
      if ltb (length len_bytes) 4
      then err truncated_prefix
      else if ltb (length payload) (unpack len_bytes)
      then err truncated_payload
      else if not (all (λ b. ltb b 128) hash)
      then err not_ascii
      else if ltb (length hash) 64
      then err truncated_hash
      else if not (same_bytes hash s.last_hash)
      then err chain_broken
      else elim (loads payload) [ none ↦ err undecodable | some r ↦ ok (absorb payload r s, rest) ]

  -- The body of the loop of `_recover`: the record and the bytes that are left to read.
  unfoldable pub read_record : Bytes → Index → Result WalError (Index × Bytes)
  read_record bytes s =
      let len_bytes = take 4 bytes in
      let record_len = unpack len_bytes in
      checked len_bytes (take record_len (drop 4 bytes)) (take 64 (drop record_len (drop 4 bytes)))
        (drop 64 (drop record_len (drop 4 bytes))) s

  unfoldable pub recover_loop : ℕ → Bytes → Index → Result WalError Index
  recover_loop fuel [] s = ok s
  recover_loop zero (b ∷ bytes) s = err out_of_fuel
  recover_loop (suc fuel) (b ∷ bytes) s = elim (read_record (b ∷ bytes) s) [
    | err e ↦ err e
    | ok (s', rest) ↦ recover_loop fuel rest s'
  ]

  unfoldable pub recover : Bytes → Result WalError Index
  recover bytes = recover_loop (length bytes) bytes initial

  -- `append`: the result is None if `struct.pack` refuses the length, which is after the new
  -- sequence number is set.
  unfoldable pub append : Append → EffectWal → Option ℕ × EffectWal
  append x w =
      let s = w.index in
      let r = made x s in
      let bytes = dumps r in
      if ltb (length bytes) 4294967296
      then (
        some r.global_seq,
        record {
          file = w.file ++ frame bytes s.last_hash;
          index = record {
            global_seq = r.global_seq;
            last_hash = hexdigest (s.last_hash ++ bytes);
            transactions = index_record r s.transactions;
          };
        },
      )
      else (none, record w { index = record s { global_seq = r.global_seq } })

  unfoldable pub append_all : List Append → EffectWal → EffectWal
  append_all [] w = w
  append_all (x ∷ l) w = append_all l (append x w).1
