-- ===== src/Lib.antt =====
-- LetDB, a database of accounts and transfers (LetDB/ of the repository), modelled where it
-- computes, with the system's answers as parameters where it calls the system; and of LetDD, the
-- gateway in front of it, the client that talks to it over TCP.
--
-- A client sends lines of text; the decoder turns a line into a request; `let_request` checks it
-- with the guard, writes an entry to the write-ahead log, and then changes the account list through
-- the state; the encoder writes the response. At the start the log is opened and replayed, so the
-- account list is rebuilt from the entries on disk. The process itself parses its options, starts,
-- serves one client after the other, and ends on a signal or a fatal error.
--
-- Files, and the code they model:
--   Base, Base/*              numbers, lists, little-endian bytes and tests that the parts share
--   Error, Error/Report       LetDB/include/let/error.h, LetDB/src/error.c: `let_error_t` is one data
--                             type; `error_code` is let_error_code, `error_report` let_error_report
--   Error/Codes               the codes that clients see
--   Result                    a function that returns `let_error_t`, with its output parameters
--   Account, Account/Laws     LetDB/include/let/account.h, LetDB/src/account.c: `AccountList` with its
--                             capacity; account_list_add, account_list_get, account_list_update
--   State, State/*            LetDB/src/state.c: the changes of the ledger in memory
--   Guard, Guard/Laws         LetDB/src/guard.c: the checks before a change
--   Network/Request           LetDB/include/let/network/request/request.h: the requests
--   Network/Request/Decoder   LetDB/src/network/request/decoder.c and request.c, byte by byte; its
--                             children state which bytes are accepted and what they mean
--   Network/Request/Decoder/Exact  the language of the decoder, both ways, which has more lines than
--                             docs/LETDB.md; Inversion leads back from a
--                             request to its bytes
--   Network/Response          LetDB/include/let/network/response/response.h: the responses
--   Network/Response/Encoder  LetDB/src/network/response/encoder.c and response.c; its children read
--                             the bytes back as a client does
--   Network/Server            LetDB/src/network/server.c: the loops of let_network_client_read and
--                             let_network_client_write; its children say what they read and send
--   Network/Server/Sockets    the rest of it: how sockets are opened, accepted and closed
--   Storage/Crc               LetDB/include/let/storage/crc.h, LetDB/src/storage/crc.c: CRC-32C; its
--                             children say how the table divides and what a checksum detects
--   Storage/Wal               LetDB/include/let/storage/wal.h: the entries and their bytes on disk
--   Storage/Wal/File          `let_storage_wal_t` with the file behind its descriptor
--   Storage/Wal/Open          let_storage_wal_init of LetDB/src/storage/wal.c
--   Storage/Wal/Write         let_storage_wal_write
--   Storage/Wal/Replay        let_storage_wal_replay
--   Storage/Wal/Crash         a write that is cut off, and the replay after it
--   Ledger, Ledger/Refines    the specification: a list of balances, what an entry does to it, and
--                             that the account list refines it through `view`
--   Ledger/Books              the specification of the answers: `serve` answers a request from the
--                             balances and the number of entries alone, in plain arithmetic
--   App, App/*                let_request of LetDB/src/let.c: `Let` is the account list and the log
--   App/Machine               let_run and let_close as a machine: `Runtime` is `let_t` with the place
--                             in let_run and the open sockets, `step` a step from a place, `advance`
--                             a step with the signal that may arrive before it
--   App/Refines               let_request against `serve`
--   App/Machine/*             the invariant of a run, what a client gets, and the way to the end;
--                             Session takes the requests of a connection one after the other
--   App/Start, App/Start/*    let_init and let_cleanup, and apply_process of LetDB/src/main.c: from the
--                             options to the exit status, and the next start on the same file
--   Main, Main/Exits          main and apply_signal of LetDB/src/main.c: what signals do to the process,
--                             wherever they arrive, and the status that it exits with
--   Cli, Cli/*                LetDB/include/let/cli.h, LetDB/src/cli.c: let_cli_parse, over what
--                             getopt_long(3) returns; strtoul(3) is written out in Cli/Number
--   Log                       LetDB/include/let/log.h, LetDB/src/log.c, and the lines that
--                             let_error_new prints
--   Gateway/Uint128           LetDD/uint128/uint128.go: numbers of two words; Gateway/Json its JSON
--   Gateway/Request           LetDD/tcp/request.go: the bytes of requests, and how LetDB reads them
--   Gateway/Response          LetDD/tcp/response.go: ParseResponse on what LetDB writes
--   Gateway/Supervisor        LetDD/supervisor/supervisor.go: tries and pauses
--   Gateway/Client            LetDD/tcp/client.go: Communicate over a `Wire`, the calls of a connection;
--                             Link puts let_request at its other end, Retry loses a response, Counting
--                             and Stale follow the counter of transactions, Trials the loop
--   */Tests                   concrete runs, with the hypotheses of the results met
--
-- A machine integer is a natural number, with `% 2 ^ w` written out where the code can wrap. What the
-- system answers (open, read, write, fsync, lseek, ftruncate, time, malloc, socket, bind, listen,
-- accept, recv, send) is an argument of the operation (OpenDevice, WriteDevice, ReplayDevice,
-- RequestDevice, ListenDevice, Acceptance, Receipt, Sending, InitDevice, StepDevice), so that results
-- hold for every answer unless they name a system on which nothing fails (`Works`, `Opens`,
-- `InitWorks`). `stuck`, and the place `broken`, mark an access outside an array or a loop without
-- fuel.
--
-- The handler of the signals only clears the two flags, and let_run reads them at the heads of its two
-- loops and writes them at a few places; so a signal between two steps of the machine stands for a
-- signal at any time in let_run. Outside of it (`Arrivals`) the handler has no effect, since let_init
-- sets `accepting` behind all else, and nothing reads the flags after let_run. A signal that main.c does
-- not name (`unnamed`) has its default action, which may be to end the process.
--
-- The loops are structural, on the bytes, on a count, or on the list of the system's answers, but for
-- four. The loop of the replay runs on fuel, one more than the bytes of the file, and a round takes a
-- record of 54 bytes from it; that of the write to a client has one more than the bytes of the
-- response, of which a round sends one at least. The loop of Uint128.Bytes has three rounds, each of 18
-- digits, for numbers below 10 ^ 39; and the loop of Communicate has two more than the tries that
-- the supervisor allows.
--
-- Not modelled: let_cli_help and let_cli_version, which print; let_account_list_free, which releases
-- memory; the texts of the log lines inside let_init and let_run; of LetDD the HTTP server, which
-- stands on a web framework outside the repository, its configuration, the mutex of the TCP client, and
-- texts of responses that are not ASCII, which LetDB never sends. What the gateway uses of Go's standard
-- library is written out: decimal printing, bytes.Split and TrimSpace, strconv.ParseUint, and of
-- math/big reading a number in base 10 or 16 and taking its words.
pub mod Base
pub mod Error
pub mod Result
pub mod Account
pub mod State
pub mod Guard
pub mod Network
pub mod Storage
pub mod Ledger
pub mod App
pub mod Cli
pub mod Log
pub mod Main
pub mod Gateway
