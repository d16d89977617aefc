-- ===== src/Network/Request.antt =====
-- LetDB/include/let/network/request/request.h: the requests, a constructor for each type with the
-- fields of its member of the union `let_network_request_data_t`.
pub mod Decoder
use let_dx.Base.{ℕ, ◌^◌, ◌<◌}

-- let_network_request_t
pub data Request : Type 0 where
  magic : Request
  -- wal_id, credits, debits, flags
  add_account : ℕ → ℕ → ℕ → ℕ → Request
  -- wal_id, from_id, to_id, amount
  make_transfer : ℕ → ℕ → ℕ → ℕ → Request
  -- account_id
  get_account : ℕ → Request
  count_database : Request
  -- wal_id, account_id, flags
  update_account : ℕ → ℕ → ℕ → Request
  close : Request

-- The values of a request fit its fields.
abbrev pub RequestFits : Request → Type 0
RequestFits (add_account wal_id credits debits flags) =
    (wal_id < 2 ^ 64) × (credits < 2 ^ 128) × (debits < 2 ^ 128) × (flags < 2 ^ 8)
RequestFits (make_transfer wal_id from_id to_id amount) =
    (wal_id < 2 ^ 64) × (from_id < 2 ^ 64) × (to_id < 2 ^ 64) × (amount < 2 ^ 128)
RequestFits (get_account account_id) = account_id < 2 ^ 64
RequestFits (update_account wal_id account_id flags) =
    (wal_id < 2 ^ 64) × (account_id < 2 ^ 64) × (flags < 2 ^ 8)
RequestFits _ = Unit

-- let_network_request_empty: all zero, and the type of number 0
abbrev pub request_empty : Request
request_empty = magic
