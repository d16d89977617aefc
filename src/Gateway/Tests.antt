-- ===== src/Gateway/Tests.antt =====
-- The gateway sends requests to a database of two accounts.
use let_dx.Base.{
  ℕ, ◌+◌, ◌^◌, ◌≡◌, ◌≢◌, ◌<◌, ◌≤◌, ◌*◌, ◌/◌, ◌-◌, ◌⊎◌, refl, true, false, some, List, [], ◌∷◌, ◌++◌,
  arith,
}
use let_dx.Error
use let_dx.Result.{ok}
use let_dx.Network.Request.{Request}
use let_dx.Network.Request.Decoder.RoundTrip.{print_number}
use let_dx.Network.Response.{Response}
use let_dx.Network.Response.Encoder.{response_encode}
use let_dx.Network.Server.{client_read}
use let_dx.Network.Server.Read.{delivers}
use let_dx.Network.Server.Sockets.{Acceptance}
use let_dx.Storage.Tests.{log}
use let_dx.Storage.Wal.{Entry}
use let_dx.Cli.{cli_empty}
use let_dx.Ledger.{apply_payload}
use let_dx.Ledger.Books.{Books, update_refusal, enter, serve}
use let_dx.App.{Let}
use let_dx.App.Durable.{books, IsDurable}
use let_dx.App.Tests.{database, database-IsDurable, device, device-IsReliable, willing}
use let_dx.App.Machine.{Runtime, StepDevice, serving, let_run}
use let_dx.App.Machine.Session.{Turn, IsCalm, devices, served, converse, reply, let_run-converses}
use let_dx.Gateway.Uint128.{Uint128, to_number, uint128_bytes}
use let_dx.Gateway.Uint128.Decimal.{uint128_bytes-decimal}
use let_dx.Gateway.Json.{unmarshal_json}
use let_dx.Gateway.Json.Numerals.{unmarshal_json-negative}
use let_dx.Gateway.Supervisor.{Supervisor, new_supervisor}
use let_dx.Gateway.Request.{TcpRequest, encode, set_id}
use let_dx.Gateway.Request.Understood.{meant, client_read-encode}
use let_dx.Gateway.Response.{TcpResponse, parse_response}
use let_dx.Gateway.Response.Received.{received, parse_response-encode}
use let_dx.Gateway.Client.{Client, Outcome, answered, aborted, try_loop, communicate}
use let_dx.Gateway.Client.Link.{Link, link}
use let_dx.Gateway.Client.Retry.{linked, communicate-applies_twice}
use let_dx.Gateway.Client.Counting.{quiet, communicate-counts}
use let_dx.Gateway.Client.Stale.{communicate-stays_stale, communicate-falls_behind}
use let_dx.Gateway.Client.Trials.{try_loop-ends}

-- 2 ^ 64 + 5
abbrev large : Uint128
large = record { high = 1; low = 5 }

uint128_bytes-decimal_example : uint128_bytes large ≡ print_number (to_number large)
uint128_bytes-decimal_example =
    uint128_bytes-decimal large (record { high_fits = omega arith; low_fits = omega arith })

unmarshal_json-negative_example :
    (u : Uint128) × (unmarshal_json large (b'-' ∷ print_number 1) ≡ some u)
    × (0 < to_number u)
    × ((1 ≤ 2 ^ 128 - 2 ^ 64)
          × (1 ≤ to_number u)
          × (to_number u + 1 ≡ 2 * (2 ^ 64 * ((1 + (2 ^ 64 - 1)) / 2 ^ 64)))
        ⊎ (2 ^ 128 - 2 ^ 64 < 1) × (to_number u + 1 ≡ 2 ^ 128))
unmarshal_json-negative_example = unmarshal_json-negative large 1 (omega arith) (omega arith)

abbrev update : TcpRequest
update = TcpRequest.update_account 2 0 7

client_read-encode_example :
    client_read (delivers (encode update ++ (b'#' ∷ []))) ≡ ok (meant update)
client_read-encode_example =
    client_read-encode update (b'#' ∷ []) (omega arith, omega arith, omega arith)

parse_response-encode_example :
    (bytes : List ℕ) × (response_encode 73 (Response.get_account 300 7 3) ≡ ok bytes)
    × (parse_response bytes ≡ some (received (Response.get_account 300 7 3)))
parse_response-encode_example =
    parse_response-encode 73 (Response.get_account 300 7 3) (omega arith)
      (omega arith, omega arith, omega arith)

-- A client's two requests: one for an account that is not there, and the update.
abbrev system : TcpRequest → StepDevice
system request = record {
  signal = false;
  accept = Acceptance.failed;
  recv = delivers (encode request ++ []);
  request = device;
  send = willing;
}

abbrev turn : TcpRequest → Turn
turn request = record { request = request; reads = system request; writes = system request }

missing-IsCalm : IsCalm (turn (TcpRequest.get_account 9))
unfolding meant
missing-IsCalm = record {
  fits = omega arith;
  stays = refl;
  read_unsignalled = refl;
  write_unsignalled = refl;
  behind = [];
  delivered = refl;
  willing = λ n. (127, refl);
  reliable = device-IsReliable;
  time = omega arith;
}

update-IsCalm : IsCalm (turn update)
unfolding meant
update-IsCalm = record {
  fits = (omega arith, omega arith, omega arith);
  stays = refl;
  read_unsignalled = refl;
  write_unsignalled = refl;
  behind = [];
  delivered = refl;
  willing = λ n. (127, refl);
  reliable = device-IsReliable;
  time = omega arith;
}

abbrev turns : List Turn
turns = turn (TcpRequest.get_account 9) ∷ turn update ∷ []

abbrev connection : Runtime
connection = record {
  at = serving;
  accepting = true;
  executing = true;
  error = Error.none;
  database = database;
  server = record { handle = some 3; port = 55543 };
  client = record { handle = some 4; port = 0 };
  taken = [];
  sockets = [];
}

let_run-converses_example :
    (db : Let) × (log' : List Entry) × IsDurable log' db
    × (books db ≡ (converse turns (books database)).1)
    × (let_run cli_empty (devices turns) (served connection) ≡ record (served connection) {
      database = db;
      taken = connection.taken ++ (converse turns (books database)).0;
    })
let_run-converses_example =
    let_run-converses cli_empty turns connection log (missing-IsCalm, (update-IsCalm, tt))
      database-IsDurable (omega arith)

-- The update, and what the books make of it.
abbrev updated : Books
updated = (serve 9 (Request.update_account 2 0 7) (books database)).1

updates : serve 9 (meant (set_id 2 update)) (books database) ≡ (ok Response.ok, updated)
unfolding serve enter update_refusal meant set_id
updates = refl

abbrev again : Books
again = (serve 9 (Request.update_account 3 0 7) updated).1

updates_again : serve 9 (meant (set_id updated.entries update)) updated ≡ (ok Response.ok, again)
unfolding serve enter update_refusal meant set_id apply_payload
updates_again = refl

abbrev patient : Supervisor
patient = new_supervisor 5 5000 200

communicate-applies_twice_example :
    (c : Client) × (s : Link) × (communicate
        (link false device)
        patient
        update
        (linked 2)
        (record { database = database; text = []; losses = true ∷ [] })
      ≡ (answered (received Response.ok), c, s))
    × (books s.database ≡ again)
communicate-applies_twice_example =
    communicate-applies_twice device patient update log database [] Response.ok Response.ok updated
      again device-IsReliable (omega arith) database-IsDurable (omega arith)
      (omega arith, omega arith, omega arith) refl (omega arith) tt updates updates_again

communicate-counts_example :
    (s : Link) × (communicate (link false device) patient update (linked 2) (quiet database [])
      ≡ (answered (received (reply (ok Response.ok))), linked updated.entries, s))
    × (books s.database ≡ updated)
communicate-counts_example =
    communicate-counts device patient update log database [] (ok Response.ok) updated
      device-IsReliable (omega arith) database-IsDurable (omega arith)
      (omega arith, omega arith, omega arith) refl updates (unfold reply in tt)

communicate-stays_stale_example :
    (code : ℕ) × (s : Link) × (communicate
        (link false device)
        patient
        update
        (linked 1)
        (quiet database [])
      ≡ (answered (TcpResponse.error code), linked 1, s))
    × (books s.database ≡ books database)
communicate-stays_stale_example =
    communicate-stays_stale device patient update log database [] 1 device-IsReliable (omega arith)
      database-IsDurable (omega arith) (omega arith, omega arith, omega arith) refl (omega arith)
      (λ e. omega arith)

communicate-falls_behind_example :
    (s : Link) × (communicate (link true device) patient update (linked 2) (quiet database [])
      ≡ (aborted, linked 2, s))
    × (books s.database ≡ updated)
    × ((books database).entries ≢ (books s.database).entries)
communicate-falls_behind_example =
    communicate-falls_behind device patient update log database [] Response.ok updated
      device-IsReliable (omega arith) database-IsDurable (omega arith)
      (omega arith, omega arith, omega arith) refl updates tt

try_loop-ends_example :
    try_loop
      (link false device)
      (5 + 2 + 3)
      update
      Outcome.idle
      patient
      (linked 2)
      (quiet database [])
    ≡ try_loop
        (link false device)
        (5 + 2)
        update
        Outcome.idle
        patient
        (linked 2)
        (quiet database [])
try_loop-ends_example =
    try_loop-ends (link false device) update 3 Outcome.idle patient (linked 2) (quiet database [])
      (omega arith) refl
