-- ===== src/Protocol/Unlink/Removal.antt =====
-- The loop of `process_unlink` of src/lib/usbip_protocol.c: the transfer it finds and the stream it
-- restarts.
use usbip_server.Prelude.{
  ℕ, suc, ◌≡◌, ◌≢◌, ◌⊎◌, refl, sym, ap, ◌∙◌, not, ◌&&◌, none, some, List, [], ◌∷◌, ◌++◌, arith,
  ◌==◌, ==_iff, ==-false→ne, Bool-cases, Option-cases, inl, inr, All, if◌then◌else◌,
}
use mathlib.Core.Option.{some-injective}
use usbip_server.Protocol.State.{Endpoint, PendingUrb, Server, slot}
use usbip_server.Protocol.Reply.{urb_unlinked}
use usbip_server.Protocol.Unlink.{
  has_pending_iso_urbs, remove_pending_urb, find_urb, unlink_found, unlink,
}

-- `seqnum` is the number of none of these transfers.
abbrev pub Absent : ℕ → List PendingUrb → Type 0
Absent seqnum = All (λ urb. urb.seqnum ≢ seqnum)

-- The first transfer with the number, and those before and behind it.
pub record Found (seqnum : ℕ) (urbs : List PendingUrb) : Type 0 where
  pub before : List PendingUrb
  pub urb : PendingUrb
  pub behind : List PendingUrb
  pub parts : urbs ≡ before ++ urb ∷ behind
  pub numbered : urb.seqnum ≡ seqnum
  pub first : Absent seqnum before

none≢some {ℓ} : {A : Type ℓ} {a : A} → ¬ (none ≡ some a)
none≢some h = cc

find_urb-none : (n : ℕ) (urbs : List PendingUrb) → find_urb n urbs ≡ none → Absent n urbs
unfolding find_urb
find_urb-none n [] e = tt
find_urb-none n (urb ∷ urbs) e = elim (Option-cases (find_urb n urbs)) [
  | inl f ↦ ground (arith, find_urb-none n urbs f)
  | inr (r, f) ↦ ground arith
]

find_urb-some :
    (n : ℕ) (urbs : List PendingUrb) (i : ℕ) {urb : PendingUrb}
    → find_urb n urbs ≡ some (i, urb)
    → (f : Found n urbs) × (f.urb ≡ urb) × (remove_pending_urb i urbs ≡ f.before ++ f.behind)
unfolding find_urb remove_pending_urb
find_urb-some n [] i e = cc
find_urb-some n (u ∷ urbs) i {urb} e = elim (Bool-cases (u.seqnum == n)) [
  | inl here ↦
      let at_head : some (0, u) ≡ some (i, urb) = rw (here, find_urb) at e in
      let pair = some-injective _ _ at_head in
      (
        record {
          before = [];
          urb = u;
          behind = urbs;
          parts = refl;
          numbered = (==_iff _ _).0 here;
          first = tt;
        },
        ap (λ (q : ℕ × PendingUrb). q.1) pair,
        ap (λ (q : ℕ × PendingUrb). remove_pending_urb q.0 (u ∷ urbs)) (sym pair),
      )
  | inr later ↦ elim (Option-cases (find_urb n urbs)) [
    | inl f ↦ absurd (none≢some (rw (later, f, find_urb) at e))
    | inr (r, f) ↦
        let (g, same, left) = find_urb-some n urbs r.0 f in
        let behind_head : some (suc r.0, r.1) ≡ some (i, urb) = rw (later, f, find_urb) at e in
        let pair = some-injective _ _ behind_head in
        (
          record {
            before = u ∷ g.before;
            urb = g.urb;
            behind = g.behind;
            parts = ap (λ us. u ∷ us) g.parts;
            numbered = g.numbered;
            first = (==-false→ne _ _ later, g.first);
          },
          same ∙ ap (λ (q : ℕ × PendingUrb). q.1) pair,
          ap (λ (q : ℕ × PendingUrb). remove_pending_urb q.0 (u ∷ urbs)) (sym pair)
              ∙ ap (λ us. u ∷ us) left,
        )
  ]
]

-- The stream of an isochronous endpoint starts over when its last pending transfer is cancelled; no
-- other endpoint changes.
abbrev pub restart_stream : PendingUrb → List PendingUrb → (ℕ → Endpoint) → ℕ → Endpoint
restart_stream urb left endpoints i =
    if i == slot urb.direction urb.ep
      && urb.isochronous
      && not (has_pending_iso_urbs urb.ep urb.direction left)
    then record (endpoints i) { stream_end_us = 0 }
    else endpoints i

module _ {A : Type 0} where
  endpoints-unlink_found :
      (i : ℕ) (urb : PendingUrb) (s : Server A) (j : ℕ)
      → (unlink_found i urb s).endpoints j
        ≡ restart_stream urb (remove_pending_urb i s.pending_urbs) s.endpoints j
  unfolding unlink_found
  endpoints-unlink_found i urb s j = ground arith

  -- A pending transfer is cancelled exactly if the number is that of one: the first such transfer goes,
  -- the others stay in their order, and the status is -ECONNRESET. Otherwise nothing changes, and the
  -- status is 0. Nothing else of the state is touched, but that the stream of an isochronous endpoint starts
  -- over when its last pending transfer is cancelled.
  pub unlink_lem :
      (n : ℕ) (s : Server A)
      → (Absent n s.pending_urbs × (unlink n s ≡ (0, s)))
        ⊎ ((f : Found n s.pending_urbs) × ((unlink n s).0 ≡ urb_unlinked)
            × ((unlink n s).1 ≡ record s {
              pending_urbs = f.before ++ f.behind;
              endpoints = (unlink n s).1.endpoints;
            })
            × ((i : ℕ)
                → (unlink n s).1.endpoints i
                  ≡ restart_stream f.urb (f.before ++ f.behind) s.endpoints i))
  unfolding unlink
  unlink_lem n s = elim (Option-cases (find_urb n s.pending_urbs)) [
    | inl e ↦ inl (find_urb-none n s.pending_urbs e, rw (e, unlink))
    | inr (r, e) ↦
        let (f, same, left) = find_urb-some n s.pending_urbs r.0 e in
        inr (
          f,
          rw (e, unlink),
          rw (e, unlink)
              (ap
                (λ urbs. record s {
                  pending_urbs = urbs;
                  endpoints = (unlink_found r.0 r.1 s).endpoints;
                })
                left),
          λ i.
              rw (e, unlink)
                (endpoints-unlink_found r.0 r.1 s i ∙ λ k.
                  restart_stream (sym same k) (left k) s.endpoints i),
        )
  ]
