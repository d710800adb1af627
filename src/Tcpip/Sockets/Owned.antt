-- ===== src/Tcpip/Sockets/Owned.antt =====
-- Which descriptors the sockets of src/lib/tcpip_server.c keep open.
use usbip_server.Prelude.{
  ℕ, ◌+◌, ◌*◌, ◌<◌, ◌≡◌, inl, inr, refl, sym, ap, ◌∙◌, Bool, false, not, Option, none, some, List,
  ◌∷◌, arith, ◌==◌, Bool-cases, Option-cases, if_elim, ==_iff,
}
use usbip_server.Tcpip.Sockets.{
  Sockets, close, tcpip_server_close, tcpip_server_close_client, open_descriptor, Opening,
  tcpip_server_open, Knock, no_client, arrived, tcpip_server_wait_for_client, timespec,
}

-- The sockets are open, and of the other descriptors those in `others`.
abbrev pub Owns : List ℕ → Sockets → Type 0
Owns others s =
    s.descriptors ≡ open_descriptor s.client_socket (open_descriptor s.server_socket others)

close_first : (fd : ℕ) (rest : List ℕ) → close fd (fd ∷ rest) ≡ rest
unfolding close
close_first fd rest = ground arith

close_second : (d fd : ℕ) (rest : List ℕ) → close fd (d ∷ fd ∷ rest) ≡ d ∷ rest
unfolding close
close_second d fd rest = elim (Bool-cases (d == fd)) [
  | inl same ↦ let e = (==_iff d fd).0 same in rw same (ap (λ x. x ∷ rest) (sym e))
  | inr other ↦ rw other (ap (λ x. d ∷ x) (close_first fd rest))
]

abbrev sockets : Option ℕ → Option ℕ → List ℕ → Sockets
sockets server client ds = record {
  server_socket = server;
  client_socket = client;
  descriptors = ds;
}

module _ (others : List ℕ) where
  close_by_fields :
      (server client : Option ℕ) (ds : List ℕ)
      → Owns others (sockets server client ds)
      → Owns others (tcpip_server_close (sockets server client ds))
  unfolding tcpip_server_close
  close_by_fields none client ds h = h
  close_by_fields (some fd) none ds h = rw h (close_first fd others)
  close_by_fields (some fd) (some d) ds h = rw h (close_second d fd others)

  close_client_by_fields :
      (server client : Option ℕ) (ds : List ℕ)
      → Owns others (sockets server client ds)
      → Owns others (tcpip_server_close_client (sockets server client ds))
  unfolding tcpip_server_close_client
  close_client_by_fields server none ds h = h
  close_client_by_fields server (some fd) ds h =
      rw h (close_first fd (open_descriptor server others))

  pub close-Owns : (s : Sockets) → Owns others s → Owns others (tcpip_server_close s)
  close-Owns s = close_by_fields s.server_socket s.client_socket s.descriptors

  pub close_client-Owns : (s : Sockets) → Owns others s → Owns others (tcpip_server_close_client s)
  close_client-Owns s = close_client_by_fields s.server_socket s.client_socket s.descriptors

  -- A client that is accepted is owned, provided the one before it is closed.
  pub wait_for_client-Owns :
      (k : Knock) (s : Sockets)
      → s.client_socket ≡ none
      → Owns others s
      → Owns others (tcpip_server_wait_for_client k s).1
  unfolding tcpip_server_wait_for_client
  wait_for_client-Owns no_client s e h = h
  wait_for_client-Owns (arrived none) s e h = h ∙ rw e refl
  wait_for_client-Owns (arrived (some fd)) s e h = ap (λ ds. fd ∷ ds) (h ∙ rw e refl)

  -- What opening leaves: a socket only if it succeeds.
  abbrev pub Opened : Bool × Sockets → Type 0
  Opened (status, s) =
      Owns others s × (s.client_socket ≡ none) × (status ≡ false → s.server_socket ≡ none)

  -- Opening fails without a socket left open.
  pub open-Owns :
      (o : Opening) (is_address : Bool) (s : Sockets)
      → s.server_socket ≡ none
      → s.client_socket ≡ none
      → Owns others s
      → let (status, s') = tcpip_server_open o is_address s in Opened (status, s')
  unfolding tcpip_server_open
  open-Owns o is_address s e c h = elim (Option-cases o.socket) [
    | inl none_left ↦ rw none_left (h ∙ rw e refl, c, λ _. refl)
    | inr (fd, opened) ↦
        let owned : fd ∷ s.descriptors ≡ open_descriptor s.client_socket (fd ∷ others) =
          rw c (ap (λ ds. fd ∷ ds) (h ∙ rw (c, e) refl)) in
        let closed : Opened
            (false, tcpip_server_close (sockets (some fd) s.client_socket (fd ∷ s.descriptors))) =
          (close_by_fields (some fd) s.client_socket (fd ∷ s.descriptors) owned, c, λ _. refl) in
        rw opened (
          if_elim {A = Bool × Sockets} Opened (not is_address) closed (
            if_elim {A = Bool × Sockets} Opened (not o.bound) closed
              (if_elim {A = Bool × Sockets} Opened (not o.listening) closed (owned, c, λ no. cc))))
  ]

pub no_server : (s : Sockets) → (tcpip_server_close s).server_socket ≡ none
unfolding tcpip_server_close
no_server s = by_field s.server_socket s.client_socket s.descriptors
  where
    by_field :
        (server client : Option ℕ) (ds : List ℕ)
        → (tcpip_server_close (sockets server client ds)).server_socket ≡ none
    by_field none client ds = refl
    by_field (some fd) client ds = refl

pub no_client_left : (s : Sockets) → (tcpip_server_close_client s).client_socket ≡ none
unfolding tcpip_server_close_client
no_client_left s = by_field s.server_socket s.client_socket s.descriptors
  where
    by_field :
        (server client : Option ℕ) (ds : List ℕ)
        → (tcpip_server_close_client (sockets server client ds)).client_socket ≡ none
    by_field server none ds = refl
    by_field server (some fd) ds = refl

close-client_socket : (s : Sockets) → (tcpip_server_close s).client_socket ≡ s.client_socket
unfolding tcpip_server_close
close-client_socket s = by_field s.server_socket s.client_socket s.descriptors
  where
    by_field :
        (server client : Option ℕ) (ds : List ℕ)
        → (tcpip_server_close (sockets server client ds)).client_socket ≡ client
    by_field none client ds = refl
    by_field (some fd) client ds = refl

pub all_closed :
    (others : List ℕ) (s : Sockets)
    → Owns others s
    → s.client_socket ≡ none
    → (tcpip_server_close s).descriptors ≡ others
all_closed others s h free =
    close-Owns others s h ∙ rw (no_server s, close-client_socket s, free) refl

-- The time that `ppoll` waits is the time that is asked for, and its nanoseconds are less than a second.
timespec_lem :
    (timeout_us : ℕ)
    → let (tv_sec, tv_nsec) = timespec timeout_us in
      (tv_sec * 1000000000 + tv_nsec ≡ timeout_us * 1000) × (tv_nsec < 1000000000)
unfolding timespec
timespec_lem timeout_us = (omega arith, omega arith)
