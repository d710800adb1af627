-- ===== src/Tcpip.antt =====
-- `tcpip_server_read` and `tcpip_server_write` of src/lib/tcpip_server.c, over the calls `read` and `write`
-- of the operating system. What those calls do is a list with one entry for each round of a loop.
pub mod Refine
pub mod Sockets
pub mod Writes
mod Tests
use usbip_server.Prelude.{
  ℕ, suc, ◌-◌, Bool, false, Option, none, some, List, [], ◌∷◌, ◌++◌, ◌==◌, if◌then◌else◌, is_empty,
  length, min, take, drop,
}

-- One round of `tcpip_server_read`. `delivered k`: `read` has at most `k + 1` bytes ready, and returns
-- those that fit the buffer, or 0 if the client has closed the connection. `retried`: it returns EAGAIN
-- or EINTR. `failed`: another error. `stopped`: `stop_server` is set.
pub data Arrival : Type 0 where
  delivered : ℕ → Arrival
  retried : Arrival
  failed : Arrival
  stopped : Arrival

-- The loop, with `left` bytes to read: what is read, what the client sends after it, and the rounds that
-- are left; `none` while it waits. `stream` is all that the client sends before it closes.
unfoldable pub read_loop : List Arrival → ℕ → List ℕ → Option (List ℕ × List ℕ × List Arrival)
read_loop [] left stream = if left == 0 then some ([], stream, []) else none
read_loop (a ∷ arrivals) left stream =
    if left == 0 then some ([], stream, a ∷ arrivals) else elim a [
      | delivered k ↦
          let res = take (min (suc k) left) stream in
          let rest = read_loop arrivals (left - length res) (drop (min (suc k) left) stream) in
          if is_empty res then some ([], stream, arrivals) else elim rest [
            | none ↦ none
            | some (bytes, stream', arrivals') ↦ some (res ++ bytes, stream', arrivals')
          ]
      | retried ↦ read_loop arrivals left stream
      | failed ↦ some ([], stream, arrivals)
      | stopped ↦ some ([], stream, arrivals)
    ]

-- `tcpip_server_read`: the status, and what the buffer and the client's stream are then.
unfoldable pub tcpip_server_read :
    List Arrival → ℕ → List ℕ → Option (Bool × List ℕ × List ℕ × List Arrival)
unfolding read_loop
tcpip_server_read arrivals read_size stream = elim (read_loop arrivals read_size stream) [
  | none ↦ none
  | some (bytes, stream', arrivals') ↦ some (length bytes == read_size, bytes, stream', arrivals')
]

-- One round of `tcpip_server_write`. `accepted k`: `write` takes at most `k + 1` bytes, as far as the
-- connection has room, and fails when it has none.
pub data Departure : Type 0 where
  accepted : ℕ → Departure
  timed_out : Departure
  broken : Departure
  halted : Departure

-- The loop: what is written and the room and rounds that are left. A timeout leaves at once, with `false`,
-- and so do the other errors, since bytes are left.
unfoldable pub write_loop : List Departure → List ℕ → ℕ → Option (List ℕ × ℕ × List Departure)
write_loop departures [] room = some ([], room, departures)
write_loop [] (b ∷ bytes) room = none
write_loop (d ∷ departures) (b ∷ bytes) room = elim d [
  | accepted k ↦
      let res = min (suc k) (min (length (b ∷ bytes)) room) in
      let rest = write_loop departures (drop res (b ∷ bytes)) (room - res) in
      if res == 0 then some ([], room, departures) else elim rest [
        | none ↦ none
        | some (sent, room', departures') ↦ some (take res (b ∷ bytes) ++ sent, room', departures')
      ]
  | timed_out ↦ some ([], room, departures)
  | broken ↦ some ([], room, departures)
  | halted ↦ some ([], room, departures)
]

-- `tcpip_server_write`
unfoldable pub tcpip_server_write :
    List Departure → List ℕ → ℕ → Option (Bool × List ℕ × ℕ × List Departure)
unfolding write_loop
tcpip_server_write departures bytes room = elim (write_loop departures bytes room) [
  | none ↦ none
  | some (sent, room', departures') ↦ some (length sent == length bytes, sent, room', departures')
]
