-- ===== src/Tcpip/Refine.antt =====
-- The loop of `tcpip_server_read` of src/lib/tcpip_server.c against the connection that the protocol is served over,
-- `Protocol.Conn`.
use usbip_server.Prelude.{
  ℕ, zero, suc, ◌-◌, ◌≤◌, ◌<◌, ◌≡◌, refl, sym, ap, ◌∙◌, Bool, false, Option, none, some, List, [],
  ◌∷◌, ◌++◌, arith, ◌==◌, leb, is_empty, length, min, take, drop, append_assoc, length-append,
  take-append-drop, length-take, take-take-drop, drop-take-drop, if_elim,
}
use mathlib.Core.Option.{some-injective}
use usbip_server.Protocol.Conn
use usbip_server.Protocol.Conn.{Conn}
use usbip_server.Tcpip.{Arrival, delivered, retried, failed, stopped, read_loop, tcpip_server_read}

-- Nothing goes wrong in the rounds, and `n` of them deliver: how many do.
abbrev pub deliveries : List Arrival → ℕ
deliveries [] = 0
deliveries (delivered k ∷ rs) = suc (deliveries rs)
deliveries (a ∷ rs) = deliveries rs

abbrev pub IsClean : List Arrival → Type 0
IsClean [] = Unit
IsClean (delivered k ∷ rs) = IsClean rs
IsClean (retried ∷ rs) = IsClean rs
IsClean (failed ∷ rs) = ⊥
IsClean (stopped ∷ rs) = ⊥

abbrev Reads : List Arrival → ℕ → List ℕ → Type 0
Reads rs left stream =
    (rest : List Arrival) × (read_loop rs left stream
      ≡ some (take left stream, drop left stream, rest))

-- One round that delivers some bytes, and the rounds after it.
delivered-Reads :
    (k left : ℕ) (rs : List Arrival) (stream : List ℕ)
    → (λ (n : ℕ). Reads rs (suc left - length (take n stream)) (drop n stream))
        (min (suc k) (suc left))
    → 0 < length stream
    → Reads (delivered k ∷ rs) (suc left) stream
unfolding read_loop take
delivered-Reads k left rs [] ih pos = absurd (omega arith)
delivered-Reads k left rs (x ∷ xs) (rest, e) pos =
    let m : min (suc k) (suc left) ≡ suc (min k left) = omega arith in
    let le : suc (min k left) ≤ suc left = omega arith in
    let t = take-take-drop (suc (min k left)) (suc left) (x ∷ xs) le in
    let d = drop-take-drop (suc (min k left)) (suc left) (x ∷ xs) le in
    let z : (suc left == 0) ≡ false = ground arith in
    (
      rest,
      rw
          (
            z,
            m,
            ap (λ n. read_loop rs (suc left - length (take n (x ∷ xs))) (drop n (x ∷ xs))) (sym m)
                ∙ e,
            m,
            t,
            d,
          )
          refl,
    )

-- With more rounds that deliver than bytes to read, the loop reads as many bytes as there are.
read_loop_lem :
    (rs : List Arrival) (left : ℕ) (stream : List ℕ)
    → IsClean rs
    → left < deliveries rs
    → Reads rs left stream
unfolding read_loop take drop
read_loop_lem [] left stream clean enough = absurd (omega arith)
read_loop_lem (delivered k ∷ rs) zero stream clean enough = (delivered k ∷ rs, refl)
read_loop_lem (delivered k ∷ rs) (suc left) [] clean enough =
    let m : min (suc k) (suc left) ≡ suc (min k left) = omega arith in
    let z : (suc left == 0) ≡ false = ground arith in (rs, rw (z, m) refl)
read_loop_lem (delivered k ∷ rs) (suc left) (x ∷ xs) clean enough =
    delivered-Reads k left rs (x ∷ xs)
      (read_loop_lem rs (suc left - length (take (min (suc k) (suc left)) (x ∷ xs)))
        (drop (min (suc k) (suc left)) (x ∷ xs)) clean
        (omega (arith, length-take (min (suc k) (suc left)) (x ∷ xs))))
      (omega arith)
read_loop_lem (retried ∷ rs) zero stream clean enough = (retried ∷ rs, refl)
read_loop_lem (retried ∷ rs) (suc left) stream clean enough =
    let (rest, e) = read_loop_lem rs (suc left) stream clean enough in (rest, ground (arith, e))
read_loop_lem (failed ∷ rs) left stream clean enough = absurd clean
read_loop_lem (stopped ∷ rs) left stream clean enough = absurd clean

-- With enough rounds in which nothing goes wrong, `tcpip_server_read` returns, and it returns what the
-- connection of the protocol's model gives: all the bytes and `true`, or as many as there are and `false`.
pub tcpip_server_read_lem :
    (arrivals : List Arrival) (read_size : ℕ) (c : Conn)
    → IsClean arrivals
    → read_size < deliveries arrivals
    → (rest : List Arrival) × (tcpip_server_read arrivals read_size c.input
        ≡ some (
          (Conn.read read_size c).0,
          (Conn.read read_size c).1,
          (Conn.read read_size c).2.input,
          rest,
        ))
unfolding tcpip_server_read Conn.read
tcpip_server_read_lem arrivals n c clean enough =
    let (rest, e) = read_loop_lem arrivals n c.input clean enough in
    let l : length (take n c.input) ≡ min n (length c.input) = length-take n c.input in
    let b : (length (take n c.input) == n) ≡ leb n (length c.input) = ground (arith, l) in
    (rest, rw (tcpip_server_read, e, b) refl)

-- As many bytes as `left` allows are taken from the front of `stream`, and what is left follows them.
abbrev pub IsPart : List ℕ → ℕ → Option (List ℕ × List ℕ × List Arrival) → Type 0
IsPart stream left none = Unit
IsPart stream left (some (bytes, stream', rest)) =
    (bytes ++ stream' ≡ stream) × (length bytes ≤ left)

-- One round that delivers, before rounds that take a part.
delivered-IsPart :
    (n left : ℕ) (stream : List ℕ) (o : Option (List ℕ × List ℕ × List Arrival))
    → n ≤ left
    → IsPart (drop n stream) (left - length (take n stream)) o
    → IsPart stream left (elim o [
      | none ↦ none
      | some (bytes, stream', rest) ↦ some (take n stream ++ bytes, stream', rest)
    ])
delivered-IsPart n left stream none le h = tt
delivered-IsPart n left stream (some (bytes, stream', rest)) le (e, l) =
    let t = length-take n stream in
    (
      append_assoc (take n stream) bytes stream'
          ∙ ap (λ zs. take n stream ++ zs) e
          ∙ take-append-drop n stream,
      omega (arith, length-append (take n stream) bytes, t, l),
    )

read_loop-IsPart :
    (rs : List Arrival) (left : ℕ) (stream : List ℕ) → IsPart stream left (read_loop rs left stream)
unfolding read_loop
read_loop-IsPart [] left stream = if_elim (IsPart stream left) (left == 0) (refl, omega arith) tt
read_loop-IsPart (delivered k ∷ rs) left stream =
    if_elim (IsPart stream left) (left == 0) (refl, omega arith)
      (if_elim (IsPart stream left) (is_empty (take (min (suc k) left) stream)) (refl, omega arith)
        (delivered-IsPart (min (suc k) left) left stream
          (read_loop rs (left - length (take (min (suc k) left) stream))
            (drop (min (suc k) left) stream))
          (omega arith)
          (read_loop-IsPart rs (left - length (take (min (suc k) left) stream))
            (drop (min (suc k) left) stream))))
read_loop-IsPart (retried ∷ rs) left stream =
    if_elim (IsPart stream left) (left == 0) (refl, omega arith) (read_loop-IsPart rs left stream)
read_loop-IsPart (failed ∷ rs) left stream =
    if_elim (IsPart stream left) (left == 0) (refl, omega arith) (refl, omega arith)
read_loop-IsPart (stopped ∷ rs) left stream =
    if_elim (IsPart stream left) (left == 0) (refl, omega arith) (refl, omega arith)

returned-IsPart :
    (o : Option (List ℕ × List ℕ × List Arrival)) (n : ℕ) (stream : List ℕ) (ok : Bool)
    (bytes stream' : List ℕ) (rest : List Arrival)
    → IsPart stream n o
    → (elim o as (λ k. Option (Bool × List ℕ × List ℕ × List Arrival)) [
      | none ↦ none
      | some (bs, rs, arrivals') ↦ some (length bs == n, bs, rs, arrivals')
    ])
      ≡ some (ok, bytes, stream', rest)
    → (bytes ++ stream' ≡ stream) × (length bytes ≤ n) × (ok ≡ (length bytes == n))
returned-IsPart none n stream ok bytes stream' rest part h = cc
returned-IsPart (some (bs, rs, arrivals')) n stream ok bytes stream' rest (e, l) h =
    let p = some-injective _ _ h in
    let b = ap (λ x. x.1) p in
    (rw (← b, ← ap (λ x. x.2) p) e, rw (← b) l, sym (ap (λ x. x.0) p) ∙ ap (λ x. length x == n) b)

-- Whatever happens in the rounds, the bytes that `tcpip_server_read` has put in the buffer when it returns
-- are the next ones of the client's stream, in order and at most as many as it is asked for; the rest of
-- the stream stays unread, and the status is `true` exactly when there are as many as it is asked for.
pub tcpip_server_read-IsPart :
    (arrivals rest : List Arrival) (n : ℕ) (stream bytes stream' : List ℕ) (ok : Bool)
    → tcpip_server_read arrivals n stream ≡ some (ok, bytes, stream', rest)
    → (bytes ++ stream' ≡ stream) × (length bytes ≤ n) × (ok ≡ (length bytes == n))
unfolding tcpip_server_read
tcpip_server_read-IsPart arrivals rest n stream bytes stream' ok h =
    returned-IsPart (read_loop arrivals n stream) n stream ok bytes stream' rest
      (read_loop-IsPart arrivals n stream) h
