-- ===== src/App/Machine/Tests.antt =====
-- A client that sends a transfer, and one that sends nonsense.
use let_dx.Base.{ℕ, ◌≡◌, refl, ap, true, false, some, List, [], ◌∷◌, ◌++◌, arith, if◌then◌else◌}
use let_dx.Error.{Error, network, request_invalid_integer, server_closed}
use let_dx.Error.Report.{error_report, network_report}
use let_dx.Result.{ok, err}
use let_dx.Network.Request.Decoder.{
  request_decode, run_loop, run_byte, run_command, run_argument, parse_argument, parse_u64,
  parse_u128, finish,
}
use let_dx.Network.Response.{Response}
use let_dx.Network.Response.Encoder.{response_encode, run_payload, write_all, write_byte}
use let_dx.Network.Response.Encoder.Reply.{response_text}
use let_dx.Network.Server.{Sending, client_write, write_loop, write_response}
use let_dx.Network.Server.Read.{delivers}
use let_dx.Network.Server.Sockets.{Acceptance}
use let_dx.Cli.{cli_empty}
use let_dx.App.Tests.{database, device, willing, transfer, answers}
use let_dx.App.{let_request}
use let_dx.App.Machine.{Runtime, StepDevice, serving, responding, is_close, handle, let_run}
use let_dx.App.Machine.Serving.{in_service, IsLine, let_run-rejects, let_run-serves_on}

-- the transfer of 40 from account 0 to account 1, with the nonce 2
abbrev transfer_text : List ℕ
transfer_text = b'%' ∷ b'2' ∷ b' ' ∷ b'0' ∷ b' ' ∷ b'1' ∷ b' ' ∷ b'4' ∷ b'0' ∷ []

transfer_decoded : request_decode (transfer_text ++ (b' ' ∷ [])) ≡ ok transfer
unfolding request_decode run_loop run_byte run_command run_argument parse_argument parse_u64
    parse_u128 finish
transfer_decoded = refl

abbrev sends : List ℕ → StepDevice
sends text = record {
  signal = false;
  accept = Acceptance.failed;
  recv = delivers (text ++ (10 ∷ []));
  request = device;
  send = willing;
}

transfer-IsLine : IsLine transfer_text (sends transfer_text)
transfer-IsLine = (
  (
    (λ e. omega arith),
    (
      (λ e. omega arith),
      (
        (λ e. omega arith),
        (
          (λ e. omega arith),
          (
            (λ e. omega arith),
            (
              (λ e. omega arith),
              ((λ e. omega arith), ((λ e. omega arith), ((λ e. omega arith), tt))),
            ),
          ),
        ),
      ),
    ),
  ),
  omega arith,
  ([], refl),
)

abbrev session : Runtime
session = record {
  at = serving;
  accepting = true;
  executing = true;
  error = Error.none;
  database = database;
  server = record { handle = some 3; port = 55543 };
  client = record { handle = some 4; port = 0 };
  taken = [];
  sockets = [];
}

-- `?x`, which the decoder refuses.
bad_line : request_decode (b'?' ∷ b'x' ∷ b' ' ∷ []) ≡ err (network request_invalid_integer)
unfolding request_decode run_loop run_byte run_command run_argument parse_argument parse_u64
    parse_u128 finish
bad_line = refl

bad_text-IsLine : IsLine (b'?' ∷ b'x' ∷ []) (sends (b'?' ∷ b'x' ∷ []))
bad_text-IsLine = (((λ e. omega arith), ((λ e. omega arith), tt)), omega arith, ([], refl))

let_run-rejects_example :
    let_run cli_empty (sends (b'?' ∷ b'x' ∷ []) ∷ sends [] ∷ []) (in_service session)
    ≡ record session {
      at = serving;
      error = Error.none;
      executing = if is_close (err (network request_invalid_integer)) then false else true;
      database = database;
      taken = session.taken ++ response_text (Response.error (network request_invalid_integer));
    }
unfolding handle
let_run-rejects_example =
    let_run-rejects cli_empty (sends (b'?' ∷ b'x' ∷ [])) (sends []) session (b'?' ∷ b'x' ∷ [])
      (err (network request_invalid_integer)) (network request_invalid_integer) database refl refl
      bad_text-IsLine (λ n. (127, refl)) bad_line refl (unfold error_report network_report in refl)

-- A signal interrupts the write of an answer.
abbrev interrupted_write : StepDevice
interrupted_write = record {
  signal = true;
  accept = Acceptance.failed;
  recv = delivers [];
  request = device;
  send = λ n. Sending.interrupted;
}

write_interrupted :
    client_write (λ n. Sending.interrupted) Response.magic ≡ (err (network server_closed), [])
unfolding client_write write_response write_loop response_encode run_payload write_all write_byte
write_interrupted = refl

-- let_request on the transfer, whose answer a lemma of the ledger's tests gives
transfer_answers :
    let_request device database transfer
    ≡ (ok Response.ok, (let_request device database transfer).1)
transfer_answers = ap (λ m. (m, (let_request device database transfer).1)) answers

let_run-serves_on_example :
    let_run cli_empty
      (interrupted_write ∷ sends transfer_text ∷ sends [] ∷ [])
      (record session { at = responding false Response.magic })
    ≡ record session {
      at = serving;
      accepting = false;
      error = Error.none;
      executing = if is_close (ok transfer) then false else true;
      database = (let_request device database transfer).1;
      taken = (session.taken ++ []) ++ response_text Response.ok;
    }
let_run-serves_on_example =
    let_run-serves_on cli_empty interrupted_write (sends transfer_text) (sends []) session false
      Response.magic Response.ok (network server_closed) [] transfer_text transfer
      (let_request device database transfer).1 refl write_interrupted
      (unfold error_report network_report in refl) refl refl transfer-IsLine (λ n. (127, refl))
      transfer_decoded transfer_answers
