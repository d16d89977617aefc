-- ===== src/Network/Server/Sockets/Closing.antt =====
-- Every socket that LetDB/src/network/server.c opens is closed once.
use let_dx.Base.{ℕ, ◌≡◌, refl, ap, Option, none, some, List, ◌∷◌, ==_refl, Bool-cases, inl, inr}
use let_dx.Error.Report.{fatal, error_report}
use let_dx.Error.{Error, network, server_create_failed, server_bind_failed, server_listen_failed}
use let_dx.Result.{Result, ok, err}
use let_dx.Network.Server.Sockets.{
  Server, Socket, ListenDevice, sys_close, listen_on, on_socket, server_init, network_close,
}

-- The latest socket is the one that is closed.
pub sys_close-head :
    (s : Socket) (sockets : List Socket) → sys_close s.descriptor (s ∷ sockets) ≡ sockets
unfolding sys_close
sys_close-head s sockets = rw (==_refl s.descriptor) refl

-- What opening the server's socket can come to.
pub data Opened (port : ℕ) (sockets : List Socket) (r : Result (Unit {0}) × Server × List Socket)
    : Type 0 where
  listening :
      (fd : ℕ)
      → r ≡ (
        ok tt,
        record { handle = some fd; port = port },
        record { descriptor = fd; read_timeout = 0; write_timeout = 0 } ∷ sockets,
      )
      → Opened port sockets r
  nothing_open :
      (x : Error)
      → (error_report x).action ≡ fatal
      → r ≡ (err x, record { handle = none; port = port }, sockets)
      → Opened port sockets r

listen_on-Opened :
    (dev : ListenDevice) (port backlog fd : ℕ) (sockets : List Socket)
    → Opened port sockets (
        listen_on dev
          (record { handle = some fd; port = port })
          fd
          backlog
          (record { descriptor = fd; read_timeout = 0; write_timeout = 0 } ∷ sockets))
unfolding listen_on error_report
listen_on-Opened dev port backlog fd sockets =
    let opened : Socket = record { descriptor = fd; read_timeout = 0; write_timeout = 0 } in
    elim (Bool-cases (dev.binds port)) [
      | inr unbound ↦
          nothing_open (network server_bind_failed) refl
            (rw unbound (ap (λ t. (_, _, t)) (sys_close-head opened sockets)))
      | inl bound ↦ elim (Bool-cases (dev.listens backlog)) [
        | inl listens ↦ listening fd (rw (bound, listens) refl)
        | inr deaf ↦
            nothing_open (network server_listen_failed) refl
              (rw (bound, deaf) (ap (λ t. (_, _, t)) (sys_close-head opened sockets)))
      ]
    ]

on_socket-Opened :
    (dev : ListenDevice) (port backlog : ℕ) (sockets : List Socket) (answer : Option ℕ)
    → Opened port sockets (on_socket dev port backlog sockets answer)
unfolding on_socket error_report
on_socket-Opened dev port backlog sockets none =
    nothing_open (network server_create_failed) refl refl
on_socket-Opened dev port backlog sockets (some fd) = listen_on-Opened dev port backlog fd sockets

-- Either the server listens on a new socket, the only one opened, or the error is fatal, the handle is
-- -1, and no socket is left open, whichever call failed.
pub server_init-Opened :
    (dev : ListenDevice) (port backlog : ℕ) (sockets : List Socket)
    → Opened port sockets (server_init dev port backlog sockets)
server_init-Opened dev port backlog sockets = on_socket-Opened dev port backlog sockets dev.socket

abbrev closed_server : ℕ → Server
closed_server port = record { handle = none; port = port }

-- Whatever let_network_server_init came to, let_network_close behind it gives back the sockets that
-- were open before, and leaves the handle -1.
pub network_close-Opened :
    (port : ℕ) (sockets : List Socket) (r : Result (Unit {0}) × Server × List Socket)
    → Opened port sockets r
    → network_close r.1 r.2 ≡ (record { handle = none; port = port }, sockets)
unfolding network_close
network_close-Opened port sockets r (listening fd e) = rw e (
    ap (λ (t : List Socket). (closed_server port, t))
      (sys_close-head (record { descriptor = fd; read_timeout = 0; write_timeout = 0 }) sockets))
network_close-Opened port sockets r (nothing_open x act e) = rw e refl
