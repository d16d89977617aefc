-- ===== src/Network/Response.antt =====
-- LetDB/include/let/network/response/response.h: the responses, a constructor for each type with
-- the fields of its member of the union `let_network_response_data_t`.
pub mod Encoder
use let_dx.Base.{ℕ, ◌^◌, ◌<◌}
use let_dx.Error.{Error}

-- let_network_response_t
pub data Response : Type 0 where
  magic : Response
  -- account_id
  add_account : ℕ → Response
  -- credits, debits, flags
  get_account : ℕ → ℕ → ℕ → Response
  -- accounts, entries
  count_database : ℕ → ℕ → Response
  ok : Response
  error : Error → Response

-- The values of a response fit its fields.
abbrev pub ResponseFits : Response → Type 0
ResponseFits (add_account id) = id < 2 ^ 64
ResponseFits (get_account credits debits flags) =
    (credits < 2 ^ 128) × (debits < 2 ^ 128) × (flags < 2 ^ 8)
ResponseFits (count_database accounts entries) = (accounts < 2 ^ 64) × (entries < 2 ^ 64)
ResponseFits _ = Unit

-- let_network_response_empty: all zero, and the type of number 0
abbrev pub response_empty : Response
response_empty = magic
