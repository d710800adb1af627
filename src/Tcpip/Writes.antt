-- ===== src/Tcpip/Writes.antt =====
-- The loop of `tcpip_server_write` of src/lib/tcpip_server.c against the connection that the protocol is
-- served over, `Protocol.Conn`.
use usbip_server.Prelude.{
  ℕ, zero, suc, ◌-◌, ◌<◌, ◌≡◌, refl, ap, false, some, List, [], ◌∷◌, ◌++◌, arith, ◌==◌, leb, length,
  min, take, drop, length-take, length-drop, take-take-drop,
}
use usbip_server.Protocol.Conn
use usbip_server.Protocol.Conn.{Conn}
use usbip_server.Tcpip.{
  Departure, accepted, timed_out, broken, halted, write_loop, tcpip_server_write,
}

-- No round of `write` fails, and how many of them take bytes.
abbrev pub acceptances : List Departure → ℕ
acceptances [] = 0
acceptances (accepted k ∷ rs) = suc (acceptances rs)
acceptances (d ∷ rs) = acceptances rs

abbrev pub IsFree : List Departure → Type 0
IsFree [] = Unit
IsFree (accepted k ∷ rs) = IsFree rs
IsFree (timed_out ∷ rs) = ⊥
IsFree (broken ∷ rs) = ⊥
IsFree (halted ∷ rs) = ⊥

abbrev Writes : List Departure → List ℕ → ℕ → Type 0
Writes rs bytes room =
    (rest : List Departure) × (write_loop rs bytes room
      ≡ some (take room bytes, room - length bytes, rest))

-- One round that takes some bytes, and the rounds after it.
accepted-Writes :
    (k r b j : ℕ) (rs : List Departure) (bytes : List ℕ)
    → j ≡ min k (min (length bytes) r)
    → Writes rs (drop j bytes) (r - j)
    → Writes (accepted k ∷ rs) (b ∷ bytes) (suc r)
unfolding write_loop take drop
accepted-Writes k r b j rs bytes def (rest, e) =
    let m : min (suc k) (min (suc (length bytes)) (suc r)) ≡ suc j = omega (arith, def) in
    let q : suc r - suc j ≡ r - j = omega arith in
    let z : (suc j == 0) ≡ false = ground arith in
    let l : length (take j bytes) ≡ j = omega (arith, length-take j bytes, def) in
    let t : take j bytes ++ take (r - j) (drop j bytes) ≡ take r bytes =
      rw (← ap (λ n. r - n) l) (take-take-drop j r bytes (omega (arith, def))) in
    let w : (r - j) - length (drop j bytes) ≡ suc r - suc (length bytes) =
      omega (arith, length-drop j bytes, def) in
    (rest, rw (m, z, q, e, m, t, w) refl)

take-nil : (n : ℕ) → take {A = ℕ} n [] ≡ []
unfolding take
take-nil zero = refl
take-nil (suc n) = refl

-- With more rounds than bytes to write, the loop writes as many bytes as there is room for.
write_loop_lem :
    (rs : List Departure) (bytes : List ℕ) (room : ℕ)
    → IsFree rs
    → length bytes < acceptances rs
    → Writes rs bytes room
unfolding write_loop take
write_loop_lem [] bytes room free enough = absurd (omega arith)
write_loop_lem (accepted k ∷ rs) [] room free enough =
    (accepted k ∷ rs, let z : room - 0 ≡ room = omega arith in rw (z, take-nil room) refl)
write_loop_lem (accepted k ∷ rs) (b ∷ bytes) zero free enough =
    let m : min (suc k) (min (suc (length bytes)) 0) ≡ 0 = omega arith in
    let q : 0 - suc (length bytes) ≡ 0 = omega arith in (rs, rw (m, q) refl)
write_loop_lem (accepted k ∷ rs) (b ∷ bytes) (suc r) free enough =
    let j = min k (min (length bytes) r) in
    accepted-Writes k r b j rs bytes refl
      (write_loop_lem rs (drop j bytes) (r - j) free (omega (arith, length-drop j bytes)))
write_loop_lem (timed_out ∷ rs) bytes room free enough = absurd free
write_loop_lem (broken ∷ rs) bytes room free enough = absurd free
write_loop_lem (halted ∷ rs) bytes room free enough = absurd free

-- With enough rounds in which no write fails, `tcpip_server_write` returns, and it does what the
-- connection of the protocol's model does: all the bytes and `true` if there is room for them, or as many
-- as there is room for and `false`.
pub tcpip_server_write_lem :
    (departures : List Departure) (bytes : List ℕ) (c : Conn)
    → IsFree departures
    → length bytes < acceptances departures
    → (rest : List Departure) × (sent : List ℕ) × (tcpip_server_write departures bytes c.room
        ≡ some ((Conn.write bytes c).0, sent, (Conn.write bytes c).1.room, rest))
      × ((Conn.write bytes c).1.output ≡ c.output ++ sent)
unfolding Conn.write tcpip_server_write
tcpip_server_write_lem departures bytes c free enough =
    let (rest, e) = write_loop_lem departures bytes c.room free enough in
    let l : length (take c.room bytes) ≡ min c.room (length bytes) = length-take c.room bytes in
    let b : (length (take c.room bytes) == length bytes) ≡ leb (length bytes) c.room =
      ground (arith, l) in
    (rest, take c.room bytes, rw (tcpip_server_write, e, b) refl, refl)
