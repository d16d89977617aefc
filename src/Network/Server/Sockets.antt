-- ===== src/Network/Server/Sockets.antt =====
-- The sockets of LetDB/include/let/network/server.h and LetDB/src/network/server.c: how they are
-- opened, accepted and closed. What the system calls return is given; the open sockets of the process
-- are a list, the latest first.
pub mod Closing
use let_dx.Base.{ℕ, Bool, Option, none, some, List, [], ◌∷◌, ◌==◌, if◌then◌else◌}
use let_dx.Error.{
  Error, network, server_create_failed, server_bind_failed, server_listen_failed, server_closed,
  server_accept_failed,
}
use let_dx.Result.{Result, ok, err}

-- let_network_server_t: `none` is the handle -1. The buffers are those of the loops that read and
-- write; the address is the port on every interface.
pub record Server : Type 0 where
  pub handle : Option ℕ
  pub port : ℕ

-- let_network_server_empty
abbrev pub server_empty : Server
server_empty = record { handle = none; port = 0 }

-- An open descriptor, with its options SO_RCVTIMEO and SO_SNDTIMEO in seconds.
pub record Socket : Type 0 where
  pub descriptor : ℕ
  pub read_timeout : ℕ
  pub write_timeout : ℕ

-- close(2)
unfoldable pub sys_close : ℕ → List Socket → List Socket
sys_close fd [] = []
sys_close fd (s ∷ sockets) =
    let rest = sys_close fd sockets in if s.descriptor == fd then sockets else s ∷ rest

-- What the system answers to let_network_server_init: a descriptor or -1 to socket(2), whether
-- bind(2) takes the port, and whether listen(2) takes the backlog.
pub record ListenDevice : Type 0 where
  pub socket : Option ℕ
  pub binds : ℕ → Bool
  pub listens : ℕ → Bool

-- a call that failed behind the creation of the socket
abbrev pub give_up : Error → Server → ℕ → List Socket → Result (Unit {0}) × Server × List Socket
give_up e server fd sockets = (err e, record server { handle = none }, sys_close fd sockets)

-- the part behind socket(2)
unfoldable pub listen_on :
    ListenDevice → Server → ℕ → ℕ → List Socket → Result (Unit {0}) × Server × List Socket
listen_on dev server fd backlog sockets =
    if dev.binds server.port
    then if dev.listens backlog
      then (ok tt, server, sockets)
      else give_up (network server_listen_failed) server fd sockets
    else give_up (network server_bind_failed) server fd sockets

-- the part from the check of the descriptor
unfoldable pub on_socket :
    ListenDevice → ℕ → ℕ → List Socket → Option ℕ → Result (Unit {0}) × Server × List Socket
unfolding listen_on
on_socket dev port backlog sockets none =
    (err (network server_create_failed), record { handle = none; port = port }, sockets)
on_socket dev port backlog sockets (some fd) =
    listen_on dev (record { handle = some fd; port = port }) fd backlog
      (record { descriptor = fd; read_timeout = 0; write_timeout = 0 } ∷ sockets)

-- let_network_server_init
abbrev pub server_init :
    ListenDevice → ℕ → ℕ → List Socket → Result (Unit {0}) × Server × List Socket
server_init dev port backlog sockets = on_socket dev port backlog sockets dev.socket

-- The answer of accept(2): a descriptor, or -1 with EINTR or with another error.
pub data Acceptance : Type 0 where
  accepted : ℕ → Acceptance
  interrupted failed : Acceptance

-- let_network_server_accept: the answer, the client, and the open sockets
unfoldable pub server_accept :
    Acceptance → ℕ → ℕ → Server → List Socket → Result (Unit {0}) × Server × List Socket
server_accept (accepted fd) read_timeout write_timeout client sockets = (
  ok tt,
  record client { handle = some fd },
  record { descriptor = fd; read_timeout = read_timeout; write_timeout = write_timeout } ∷ sockets,
)
server_accept interrupted read_timeout write_timeout client sockets =
    (err (network server_closed), client, sockets)
server_accept failed read_timeout write_timeout client sockets =
    (err (network server_accept_failed), client, sockets)

-- let_network_close
unfoldable pub network_close : Server → List Socket → Server × List Socket
network_close server sockets = elim server.handle [
  | none ↦ (server, sockets)
  | some fd ↦ (record server { handle = none }, sys_close fd sockets)
]
