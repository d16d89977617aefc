-- ===== src/Error.antt =====
-- LetDB/include/let/error.h and LetDB/src/error.c: errors, their numeric codes and their reports.
-- The pair (id, error) of `let_error_t` is one data type, with a data type for the codes of each
-- module; the numbers of the C enumerations are `error_id` and `error_number`. The log lines that
-- `let_error_new` prints are output only and have no counterpart.
pub mod Report
pub mod Codes
use let_dx.Base.{ℕ, ◌+◌, ◌*◌, ◌%◌, ◌^◌, String, Bool, true, false}

pub data AccountError : Type 0 where
  out_of_memory : AccountError
  not_found : AccountError
  capacity_overflow : AccountError

pub data StateError : Type 0 where
  invalid_account_list : StateError
  invalid_time : StateError

pub data GuardError : Type 0 where
  same_account : GuardError
  sender_not_found : GuardError
  recipient_not_found : GuardError
  insufficient_balance : GuardError
  transaction_overflow : GuardError
  zero_balance : GuardError
  account_cannot_send : GuardError
  account_cannot_receive : GuardError
  invalid_state : GuardError

pub data NetworkError : Type 0 where
  server_create_failed : NetworkError
  server_bind_failed : NetworkError
  server_listen_failed : NetworkError
  server_accept_failed : NetworkError
  server_read_failed : NetworkError
  server_write_failed : NetworkError
  server_read_timeout : NetworkError
  server_write_timeout : NetworkError
  server_closed : NetworkError
  client_closed : NetworkError
  request_empty : NetworkError
  request_malformed : NetworkError
  request_invalid_command : NetworkError
  request_invalid_integer : NetworkError
  request_integer_overflow : NetworkError
  request_expected_new_line : NetworkError
  request_arguments_missing : NetworkError
  request_buffer_overflow : NetworkError
  response_buffer_overflow : NetworkError

pub data StorageError : Type 0 where
  wal_create_failed : StorageError
  wal_open_failed : StorageError
  wal_write_failed : StorageError
  wal_read_failed : StorageError
  wal_sync_failed : StorageError
  wal_seek_failed : StorageError
  wal_truncate_failed : StorageError
  wal_invalid_magic : StorageError
  wal_invalid_version : StorageError
  wal_nonce_mismatch : StorageError
  wal_checksum_mismatch : StorageError
  wal_invalid_entry_type : StorageError
  wal_invalid_time : StorageError
  wal_invalid_state : StorageError
  wal_invalid_path : StorageError

pub data CliError : Type 0 where
  invalid_option : CliError
  invalid_port : CliError
  invalid_backlog : CliError
  invalid_read_timeout : CliError
  invalid_write_timeout : CliError
  invalid_log_level : CliError

pub data Error : Type 0 where
  none : Error
  account : AccountError → Error
  state : StateError → Error
  guard : GuardError → Error
  network : NetworkError → Error
  storage : StorageError → Error
  cli : CliError → Error

unfoldable pub account_number : AccountError → ℕ
account_number out_of_memory = 1
account_number not_found = 2
account_number capacity_overflow = 3

unfoldable pub state_number : StateError → ℕ
state_number invalid_account_list = 1
state_number invalid_time = 2

unfoldable pub guard_number : GuardError → ℕ
guard_number same_account = 1
guard_number sender_not_found = 2
guard_number recipient_not_found = 3
guard_number insufficient_balance = 4
guard_number transaction_overflow = 5
guard_number zero_balance = 6
guard_number account_cannot_send = 7
guard_number account_cannot_receive = 8
guard_number invalid_state = 9

unfoldable pub network_number : NetworkError → ℕ
network_number server_create_failed = 1
network_number server_bind_failed = 2
network_number server_listen_failed = 3
network_number server_accept_failed = 4
network_number server_read_failed = 5
network_number server_write_failed = 6
network_number server_read_timeout = 7
network_number server_write_timeout = 8
network_number server_closed = 9
network_number client_closed = 10
network_number request_empty = 11
network_number request_malformed = 12
network_number request_invalid_command = 13
network_number request_invalid_integer = 14
network_number request_integer_overflow = 15
network_number request_expected_new_line = 16
network_number request_arguments_missing = 17
network_number request_buffer_overflow = 18
network_number response_buffer_overflow = 19

unfoldable pub storage_number : StorageError → ℕ
storage_number wal_create_failed = 1
storage_number wal_open_failed = 2
storage_number wal_write_failed = 3
storage_number wal_read_failed = 4
storage_number wal_sync_failed = 5
storage_number wal_seek_failed = 6
storage_number wal_truncate_failed = 7
storage_number wal_invalid_magic = 8
storage_number wal_invalid_version = 9
storage_number wal_nonce_mismatch = 10
storage_number wal_checksum_mismatch = 11
storage_number wal_invalid_entry_type = 12
storage_number wal_invalid_time = 13
storage_number wal_invalid_state = 14
storage_number wal_invalid_path = 15

unfoldable pub cli_number : CliError → ℕ
cli_number invalid_option = 1
cli_number invalid_port = 2
cli_number invalid_backlog = 3
cli_number invalid_read_timeout = 4
cli_number invalid_write_timeout = 5
cli_number invalid_log_level = 6

unfoldable pub error_id : Error → ℕ
error_id none = 0
error_id (account e) = 1
error_id (state e) = 2
error_id (guard e) = 3
error_id (network e) = 4
error_id (storage e) = 5
error_id (cli e) = 6

unfoldable pub error_number : Error → ℕ
unfolding account_number state_number guard_number network_number storage_number cli_number
error_number none = 0
error_number (account e) = account_number e
error_number (state e) = state_number e
error_number (guard e) = guard_number e
error_number (network e) = network_number e
error_number (storage e) = storage_number e
error_number (cli e) = cli_number e

-- let_error_exists
unfoldable pub error_exists : Error → Bool
error_exists none = false
error_exists _ = true

-- let_error_code, in `let_u16_t`
unfoldable pub error_code : Error → ℕ
unfolding error_id error_number
error_code none = 0
error_code e = (1000 * error_id e % 2 ^ 16 + error_number e) % 2 ^ 16
