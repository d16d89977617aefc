-- ===== src/Gateway/Request.antt =====
-- LetDD/tcp/request.go: the requests of the gateway, a constructor for each struct with its fields, and
-- the bytes that are sent for them.
pub mod Understood
use let_dx.Base.{ℕ, Bool, true, false, List, [], ◌∷◌, ◌++◌}
use let_dx.Network.Request.Decoder.RoundTrip.{print_number}
use let_dx.Gateway.Uint128.{Uint128, uint128_bytes}

-- the structs that implement Request
pub data TcpRequest : Type 0 where
  magic : TcpRequest
  -- WalID, Credits, Debits, Flags
  add_account : ℕ → Uint128 → Uint128 → ℕ → TcpRequest
  -- WalID, FromID, ToID, Amount
  make_transfer : ℕ → ℕ → ℕ → Uint128 → TcpRequest
  -- AccountID
  get_account : ℕ → TcpRequest
  count_database : TcpRequest
  -- WalID, AccountID, Flags
  update_account : ℕ → ℕ → ℕ → TcpRequest
  close : TcpRequest

-- the methods Encode; `%d` prints a number in decimal, and `%s` calls Uint128.String
unfoldable pub encode : TcpRequest → List ℕ
encode magic = b';' ∷ 10 ∷ []
encode (add_account w c d f) =
    b'+'
    ∷ (print_number w
        ++ (b' '
            ∷ (uint128_bytes c
                ++ (b' ' ∷ (uint128_bytes d ++ (b' ' ∷ (print_number f ++ (10 ∷ []))))))))
encode (make_transfer w s r a) =
    b'%'
    ∷ (print_number w
        ++ (b' '
            ∷ (print_number s
                ++ (b' ' ∷ (print_number r ++ (b' ' ∷ (uint128_bytes a ++ (10 ∷ []))))))))
encode (get_account i) = b'?' ∷ (print_number i ++ (10 ∷ []))
encode count_database = b'#' ∷ 10 ∷ []
encode (update_account w i f) =
    b'=' ∷ (print_number w ++ (b' ' ∷ (print_number i ++ (b' ' ∷ (print_number f ++ (10 ∷ []))))))
encode close = b'.' ∷ 10 ∷ []

-- the methods SetID of the three that implement WalRequest
unfoldable pub set_id : ℕ → TcpRequest → TcpRequest
set_id id (add_account w c d f) = add_account id c d f
set_id id (make_transfer w s r a) = make_transfer id s r a
set_id id (update_account w i f) = update_account id i f
set_id id request = request

-- which of them these are
abbrev pub is_wal_request : TcpRequest → Bool
is_wal_request (add_account w c d f) = true
is_wal_request (make_transfer w s r a) = true
is_wal_request (update_account w i f) = true
is_wal_request _ = false
