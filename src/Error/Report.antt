-- ===== src/Error/Report.antt =====
-- `let_error_report` of LetDB/src/error.c: the action and the message of each error.
use let_dx.Base.{String}
use let_dx.Error.{
  Error, AccountError, StateError, GuardError, NetworkError, StorageError, CliError, account, state,
  guard, network, storage, cli, account_cannot_receive, account_cannot_send, capacity_overflow,
  client_closed, insufficient_balance, invalid_account_list, invalid_backlog, invalid_log_level,
  invalid_option, invalid_port, invalid_read_timeout, invalid_state, invalid_time,
  invalid_write_timeout, not_found, out_of_memory, recipient_not_found, request_arguments_missing,
  request_buffer_overflow, request_empty, request_expected_new_line, request_integer_overflow,
  request_invalid_command, request_invalid_integer, request_malformed, response_buffer_overflow,
  same_account, sender_not_found, server_accept_failed, server_bind_failed, server_closed,
  server_create_failed, server_listen_failed, server_read_failed, server_read_timeout,
  server_write_failed, server_write_timeout, transaction_overflow, wal_checksum_mismatch,
  wal_create_failed, wal_invalid_entry_type, wal_invalid_magic, wal_invalid_path, wal_invalid_state,
  wal_invalid_time, wal_invalid_version, wal_nonce_mismatch, wal_open_failed, wal_read_failed,
  wal_seek_failed, wal_sync_failed, wal_truncate_failed, wal_write_failed, zero_balance,
}

pub data Action : Type 0 where
  none reject ignore close fatal : Action

pub record Report : Type 0 where
  pub action : Action
  pub message : String

unfoldable pub account_report : AccountError → Report
account_report out_of_memory = record {
  action = fatal;
  message = "The account subsystem ran out of memory";
}
account_report not_found = record {
  action = reject;
  message = "The requested account cannot be resolved";
}
account_report capacity_overflow = record {
  action = reject;
  message = "The account registry is completely full";
}

unfoldable pub state_report : StateError → Report
state_report invalid_account_list = record {
  action = fatal;
  message = "The provided account list contains corrupted data";
}
state_report invalid_time = record {
  action = fatal;
  message = "The provided timestamp for state subsystem is invalid";
}

unfoldable pub guard_report : GuardError → Report
guard_report same_account = record {
  action = reject;
  message = "The source and destination accounts must be different";
}
guard_report sender_not_found = record {
  action = reject;
  message = "The transaction sender was not found";
}
guard_report recipient_not_found = record {
  action = reject;
  message = "The transaction recipient was not found";
}
guard_report insufficient_balance = record {
  action = reject;
  message = "The account balance is insufficient for this transfer";
}
guard_report transaction_overflow = record {
  action = reject;
  message = "The transaction registry is completely full";
}
guard_report zero_balance = record {
  action = reject;
  message = "The account can only send positive amount of funds";
}
guard_report account_cannot_send = record {
  action = reject;
  message = "The account is not authorized to send funds";
}
guard_report account_cannot_receive = record {
  action = reject;
  message = "The account is not authorized to receive funds";
}
guard_report invalid_state = record {
  action = fatal;
  message = "The guard subsystem has been corrupted unexpectedly";
}

unfoldable pub network_report : NetworkError → Report
network_report server_create_failed = record {
  action = fatal;
  message = "The server failed to create the TCP socket";
}
network_report server_bind_failed = record {
  action = fatal;
  message = "The server failed to bind the port";
}
network_report server_listen_failed = record {
  action = fatal;
  message = "The server failed to listen for incoming connections";
}
network_report server_accept_failed = record {
  action = fatal;
  message = "The server failed to accept the incoming connection";
}
network_report server_read_failed = record {
  action = close;
  message = "The system failed to read data from the network";
}
network_report server_write_failed = record {
  action = close;
  message = "The system failed to write data to the network";
}
network_report server_read_timeout = record {
  action = close;
  message = "The network read operation timed out";
}
network_report server_write_timeout = record {
  action = close;
  message = "The network write operation timed out";
}
network_report server_closed = record { action = ignore; message = "The network server is closed" }
network_report client_closed = record { action = ignore; message = "The network client is closed" }
network_report request_empty = record {
  action = reject;
  message = "The received network request contains no data";
}
network_report request_malformed = record {
  action = reject;
  message = "The network request format is incorrect";
}
network_report request_invalid_command = record {
  action = reject;
  message = "The requested network command is unknown";
}
network_report request_invalid_integer = record {
  action = reject;
  message = "The network request integer value cannot be parsed";
}
network_report request_integer_overflow = record {
  action = reject;
  message = "The network request integer value is too large";
}
network_report request_expected_new_line = record {
  action = reject;
  message = "The network request is missing a final newline character";
}
network_report request_arguments_missing = record {
  action = reject;
  message = "The network request is missing required parameters";
}
network_report request_buffer_overflow = record {
  action = close;
  message = "The incoming network request exceeds the buffer size";
}
network_report response_buffer_overflow = record {
  action = close;
  message = "The outgoing network response exceeds the buffer size";
}

unfoldable pub storage_report : StorageError → Report
storage_report wal_create_failed = record {
  action = fatal;
  message = "The system failed to create a new storage file";
}
storage_report wal_open_failed = record {
  action = fatal;
  message = "The system failed to open the storage file";
}
storage_report wal_write_failed = record {
  action = fatal;
  message = "The system failed to write data to the storage file";
}
storage_report wal_read_failed = record {
  action = fatal;
  message = "The system failed to read data from the storage file";
}
storage_report wal_sync_failed = record {
  action = fatal;
  message = "The system failed to sync the storage data to disk";
}
storage_report wal_seek_failed = record {
  action = fatal;
  message = "The system failed to reposition the storage file pointer";
}
storage_report wal_truncate_failed = record {
  action = fatal;
  message = "The system failed to truncate the storage file";
}
storage_report wal_invalid_magic = record {
  action = fatal;
  message = "The storage file contains an invalid magic number signature";
}
storage_report wal_invalid_version = record {
  action = fatal;
  message = "The storage file version is not supported by this engine";
}
storage_report wal_nonce_mismatch = record {
  action = reject;
  message = "The transaction nonce does not match the file metadata";
}
storage_report wal_checksum_mismatch = record {
  action = fatal;
  message = "The storage file data failed the checksum validation check";
}
storage_report wal_invalid_entry_type = record {
  action = fatal;
  message = "The storage file contains an unknown tracking entry type";
}
storage_report wal_invalid_time = record {
  action = fatal;
  message = "The provided timestamp for storage subsystem is invalid";
}
storage_report wal_invalid_state = record {
  action = fatal;
  message = "The storage file contains an invalid state that cannot be processed";
}
storage_report wal_invalid_path = record {
  action = fatal;
  message = "The provided path for storage subsystem is invalid";
}

unfoldable pub cli_report : CliError → Report
cli_report invalid_option = record {
  action = fatal;
  message = "The specified command line flag is unrecognized";
}
cli_report invalid_port = record {
  action = fatal;
  message = "The specified network port number is out of range";
}
cli_report invalid_backlog = record {
  action = fatal;
  message = "The specified connection backlog size must be positive";
}
cli_report invalid_read_timeout = record {
  action = fatal;
  message = "The specified read timeout value must be positive";
}
cli_report invalid_write_timeout = record {
  action = fatal;
  message = "The specified write timeout value must be positive";
}
cli_report invalid_log_level = record {
  action = fatal;
  message = "The specified log level is out of range";
}

-- let_error_report
unfoldable pub error_report : Error → Report
unfolding account_report state_report guard_report network_report storage_report cli_report
error_report Error.none = record { action = none; message = "No error occurred" }
error_report (account e) = account_report e
error_report (state e) = state_report e
error_report (guard e) = guard_report e
error_report (network e) = network_report e
error_report (storage e) = storage_report e
error_report (cli e) = cli_report e
