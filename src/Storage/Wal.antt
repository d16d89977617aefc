-- ===== src/Storage/Wal.antt =====
-- LetDB/include/let/storage/wal.h: the entries of the write-ahead log and their bytes on disk.
-- The structs are packed and little-endian; the union of the payloads takes the 33 bytes of its
-- largest member, and `let_storage_wal_entry_new` has cleared what a smaller one does not use.
pub mod Bytes
pub mod File
pub mod Log
pub mod Open
pub mod Header
pub mod Opening
pub mod Write
pub mod Crash
pub mod Replay
use let_dx.Base.{
  ℕ, ◌+◌, ◌*◌, ◌^◌, ◌<◌, Option, none, some, List, [], ◌∷◌, ◌++◌, length, take, drop, replicate,
  ◌==◌, if◌then◌else◌,
}
use let_dx.Base.Bytes.{le_bytes, from_le}
use let_dx.Storage.Crc.{crc32c}

-- let_storage_wal_entry_data_t, a constructor for each member, in the order of its fields
pub data EntryData : Type 0 where
  -- credits, debits, flags
  add_account : ℕ → ℕ → ℕ → EntryData
  -- from_id, to_id, amount
  make_transfer : ℕ → ℕ → ℕ → EntryData
  -- account_id, flags
  update_account : ℕ → ℕ → EntryData

-- let_storage_wal_entry_t; the type in the header is that of the payload.
pub record Entry : Type 0 where
  pub id : ℕ
  pub timestamp : ℕ
  pub payload : EntryData

-- let_storage_wal_entry_new, with the payload that is assigned behind it
unfoldable pub entry_new : ℕ → ℕ → EntryData → Entry
entry_new id timestamp payload = record { id = id; timestamp = timestamp; payload = payload }

-- LET_STORAGE_WAL_HEADER_MAGIC, LET_STORAGE_WAL_HEADER_VERSION, LET_STORAGE_WAL_HEADER_LENGTH
abbrev pub header_magic : ℕ
header_magic = 0x4c41_575f_5f54_454c

abbrev pub header_version : ℕ
header_version = 1

abbrev pub header_length : ℕ
header_length = 10

-- sizeof(let_storage_wal_entry_t), sizeof(let_storage_wal_entry_safe_t)
abbrev pub sizeof_entry : ℕ
sizeof_entry = 50

abbrev pub sizeof_safe : ℕ
sizeof_safe = 54

-- let_storage_wal_entry_type_t
unfoldable pub entry_type : EntryData → ℕ
entry_type (add_account credits debits flags) = 1
entry_type (make_transfer from_id to_id amount) = 2
entry_type (update_account account_id flags) = 3

unfoldable pub payload_bytes : EntryData → List ℕ
payload_bytes (add_account credits debits flags) =
    le_bytes 16 credits ++ (le_bytes 16 debits ++ le_bytes 1 flags)
payload_bytes (make_transfer from_id to_id amount) =
    le_bytes 8 from_id ++ (le_bytes 8 to_id ++ (le_bytes 16 amount ++ replicate 1 0))
payload_bytes (update_account account_id flags) =
    le_bytes 8 account_id ++ (le_bytes 1 flags ++ replicate 24 0)

-- the memory of a let_storage_wal_entry_t
unfoldable pub entry_bytes : Entry → List ℕ
entry_bytes e =
    le_bytes 8 e.id
    ++ (le_bytes 8 e.timestamp ++ (le_bytes 1 (entry_type e.payload) ++ payload_bytes e.payload))

-- the memory of a let_storage_wal_entry_safe_t that holds the entry and its checksum
unfoldable pub safe_bytes : Entry → List ℕ
safe_bytes e = entry_bytes e ++ le_bytes 4 (crc32c (entry_bytes e))

-- a field of a packed struct
abbrev pub field : ℕ → ℕ → List ℕ → ℕ
field offset width bytes = from_le (take width (drop offset bytes))

-- the payload that the type in the header selects
unfoldable pub read_payload : ℕ → List ℕ → Option EntryData
read_payload type bytes =
    if type == 1
    then some (add_account (field 17 16 bytes) (field 33 16 bytes) (field 49 1 bytes))
    else if type == 2
    then some (make_transfer (field 17 8 bytes) (field 25 8 bytes) (field 33 16 bytes))
    else if type == 3
    then some (update_account (field 17 8 bytes) (field 25 1 bytes))
    else none

-- the bytes of a let_storage_wal_entry_t, read through its fields; `none` is an unknown type
unfoldable pub read_entry : List ℕ → Option Entry
read_entry bytes = elim (read_payload (field 16 1 bytes) bytes) [
  | none ↦ none
  | some payload ↦
      some (record { id = field 0 8 bytes; timestamp = field 8 8 bytes; payload = payload })
]

-- The values of an entry fit its fields.
abbrev pub PayloadFits : EntryData → Type 0
PayloadFits (add_account credits debits flags) =
    (credits < 2 ^ 128) × (debits < 2 ^ 128) × (flags < 2 ^ 8)
PayloadFits (make_transfer from_id to_id amount) =
    (from_id < 2 ^ 64) × (to_id < 2 ^ 64) × (amount < 2 ^ 128)
PayloadFits (update_account account_id flags) = (account_id < 2 ^ 64) × (flags < 2 ^ 8)

pub record EntryFits (e : Entry) : Type 0 where
  pub id_fits : e.id < 2 ^ 64
  pub timestamp_fits : e.timestamp < 2 ^ 64
  pub payload_fits : PayloadFits e.payload
