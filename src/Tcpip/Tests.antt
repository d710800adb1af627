-- ===== src/Tcpip/Tests.antt =====
-- Reads and writes that are delivered in pieces.
use usbip_server.Prelude.{
  ℕ, ◌≤◌, ◌≡◌, refl, false, some, List, [], ◌∷◌, ◌++◌, ◌==◌, arith, length, take, drop,
}
use usbip_server.Protocol.Conn
use usbip_server.Protocol.Conn.{Conn}
use usbip_server.Tcpip.{
  Arrival, delivered, retried, failed, tcpip_server_read, Departure, accepted, tcpip_server_write,
}
use usbip_server.Tcpip.Writes.{tcpip_server_write_lem}
use usbip_server.Tcpip.Refine.{tcpip_server_read_lem, tcpip_server_read-IsPart}

abbrev arrivals : List Arrival
arrivals = delivered 1 ∷ retried ∷ delivered 0 ∷ delivered 0 ∷ delivered 0 ∷ []

abbrev departures : List Departure
departures = accepted 0 ∷ accepted 0 ∷ accepted 9 ∷ accepted 9 ∷ []

abbrev conn : Conn
conn = record { input = 7 ∷ 8 ∷ 9 ∷ 10 ∷ []; room = 2; output = [] }

tcpip_server_read_lem_example :
    (rest : List Arrival) × (tcpip_server_read arrivals 3 conn.input
      ≡ some ((Conn.read 3 conn).0, (Conn.read 3 conn).1, (Conn.read 3 conn).2.input, rest))
tcpip_server_read_lem_example = tcpip_server_read_lem arrivals 3 conn tt (omega arith)

tcpip_server_write_lem_example :
    (rest : List Departure) × (sent : List ℕ) × (tcpip_server_write departures
        (4 ∷ 5 ∷ 6 ∷ [])
        conn.room
      ≡ some (
        (Conn.write (4 ∷ 5 ∷ 6 ∷ []) conn).0,
        sent,
        (Conn.write (4 ∷ 5 ∷ 6 ∷ []) conn).1.room,
        rest,
      ))
    × ((Conn.write (4 ∷ 5 ∷ 6 ∷ []) conn).1.output ≡ conn.output ++ sent)
tcpip_server_write_lem_example =
    tcpip_server_write_lem departures (4 ∷ 5 ∷ 6 ∷ []) conn tt (omega arith)

abbrev front : List ℕ
front = 7 ∷ 8 ∷ []

abbrev stream : List ℕ
stream = 7 ∷ 8 ∷ 9 ∷ []

-- The connection fails after two bytes.
cut_short : tcpip_server_read (delivered 1 ∷ failed ∷ []) 3 stream ≡ some (false, front, 9 ∷ [], [])
unfolding tcpip_server_read take drop
cut_short = refl

tcpip_server_read-IsPart_example :
    (front ++ 9 ∷ [] ≡ stream) × (length front ≤ 3) × (false ≡ (length front == 3))
tcpip_server_read-IsPart_example =
    tcpip_server_read-IsPart (delivered 1 ∷ failed ∷ []) [] 3 stream front (9 ∷ []) false cut_short
