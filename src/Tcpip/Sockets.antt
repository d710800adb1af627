-- ===== src/Tcpip/Sockets.antt =====
-- Opening, accepting, waiting and closing in src/lib/tcpip_server.c. What the calls of the operating system
-- return are arguments.
pub mod Owned
use usbip_server.Prelude.{
  ℕ, ◌+◌, ◌*◌, ◌%◌, ◌/◌, Bool, true, false, not, ◌&&◌, Option, none, some, List, [], ◌∷◌, ltb, ◌==◌,
  if◌then◌else◌,
}

-- `server_socket` and `client_socket`, with `none` for -1, and the descriptors that the operating system
-- has given to this program and that are not closed, the latest first.
pub record Sockets : Type 0 where
  pub server_socket : Option ℕ
  pub client_socket : Option ℕ
  pub descriptors : List ℕ

-- `close(fd)`
unfoldable pub close : ℕ → List ℕ → List ℕ
close fd [] = []
close fd (d ∷ descriptors) =
    let rest = close fd descriptors in if d == fd then descriptors else d ∷ rest

-- `tcpip_server_close`
unfoldable pub tcpip_server_close : Sockets → Sockets
unfolding close
tcpip_server_close s = elim s.server_socket [
  | none ↦ s
  | some fd ↦ record s { server_socket = none; descriptors = close fd s.descriptors }
]

-- `tcpip_server_close_client`
unfoldable pub tcpip_server_close_client : Sockets → Sockets
unfolding close
tcpip_server_close_client s = elim s.client_socket [
  | none ↦ s
  | some fd ↦ record s { client_socket = none; descriptors = close fd s.descriptors }
]

-- A new descriptor, or `none` where the call fails.
abbrev pub open_descriptor : Option ℕ → List ℕ → List ℕ
open_descriptor none descriptors = descriptors
open_descriptor (some fd) descriptors = fd ∷ descriptors

-- What `socket` returns, and whether `bind` and `listen` succeed.
pub record Opening : Type 0 where
  pub socket : Option ℕ
  pub bound : Bool
  pub listening : Bool

-- `tcpip_server_open`. `is_address` is whether `inet_pton` takes the address.
unfoldable pub tcpip_server_open : Opening → (is_address : Bool) → Sockets → Bool × Sockets
unfolding tcpip_server_close
tcpip_server_open o is_address s =
    let opened = record s {
      server_socket = o.socket;
      descriptors = open_descriptor o.socket s.descriptors;
    } in
    elim o.socket [
      | none ↦ (false, opened)
      | some fd ↦
          if not is_address
          then (false, tcpip_server_close opened)
          else if not o.bound
          then (false, tcpip_server_close opened)
          else if not o.listening
          then (false, tcpip_server_close opened)
          else (true, opened)
    ]

-- What `select` finds within its time, and what `accept` returns if that is a client.
pub data Knock : Type 0 where
  no_client : Knock
  arrived : Option ℕ → Knock

-- `tcpip_server_wait_for_client`. Descriptor 0 counts as a failure.
unfoldable pub tcpip_server_wait_for_client : Knock → Sockets → Bool × Sockets
tcpip_server_wait_for_client no_client s = (false, s)
tcpip_server_wait_for_client (arrived none) s = (false, record s { client_socket = none })
tcpip_server_wait_for_client (arrived (some fd)) s =
    (ltb 0 fd, record s { client_socket = some fd; descriptors = fd ∷ s.descriptors })

-- `timeout` of `tcpip_server_wait_for_data`: `tv_sec` and `tv_nsec`
unfoldable pub timespec : ℕ → ℕ × ℕ
timespec timeout_us = (timeout_us / 1000000, timeout_us % 1000000 * 1000)

-- `tcpip_server_wait_for_data`: `ppoll` returns more than 0 or not, and `revents` of the client's socket is
-- not 0.
unfoldable pub tcpip_server_wait_for_data : (stop_server polled revents : Bool) → Bool
tcpip_server_wait_for_data stop_server polled revents = not stop_server && polled && revents
