-- ===== src/Bulk/Loop.antt =====
-- The main loop of src/usb_bulk, between transfers from the host.
use usbip_server.Prelude.{
  ℕ, zero, suc, ◌+◌, ◌%◌, ◌<◌, u32_mod, ◌≤◌, ◌≡◌, refl, ap, Bool, true, false, List, [], ◌∷◌, ◌++◌,
  arith, is_empty, leb, leb→le, length-append, if◌then◌else◌, if_split, length, append_assoc,
  append-nil,
}
use usbip_server.Prelude.Decimal.{decimal, decimal_int, decimal_int-small}
use usbip_server.Protocol.Messages.{codes}
use usbip_server.Bulk.{InputBuffer, input_buffer_length, store_input}

-- `input_buffer` and `msg_counter`, and what is printed (its frame, "Input: " and a line end, left out) and
-- transmitted so far. `msg_counter` is the 32 bits of an `int`, whose overflow C leaves undefined and which
-- wraps around here.
pub record MainLoop : Type 0 where
  pub input : InputBuffer
  pub msg_counter : ℕ
  pub printed : List ℕ
  pub sent : List (List ℕ)

abbrev pub activated : MainLoop
activated = record { input = []; msg_counter = 0; printed = []; sent = [] }

-- `str_buffer`, which always has room for it.
abbrev pub message : ℕ → List ℕ
message msg_counter = codes "Message Counter: " ++ decimal_int msg_counter

-- The critical section: `reply`.
unfoldable pub take_input : MainLoop → Bool × MainLoop
take_input s = if is_empty s.input then (false, s) else (
  true,
  record s {
    input = [];
    msg_counter = (s.msg_counter + 1) % u32_mod;
    printed = s.printed ++ s.input;
  },
)

-- One round.
unfoldable pub main_round : MainLoop → MainLoop
unfolding take_input decimal_int
main_round s =
    let (reply, s') = take_input s in
    if reply then record s' { sent = s'.sent ++ message s'.msg_counter ∷ [] } else s'

-- A transfer from the host, or a round of the loop.
pub data Turn : Type 0 where
  transfer : List ℕ → Turn
  loop_round : Turn

unfoldable pub take_turn : Turn → MainLoop → MainLoop
unfolding store_input main_round
take_turn (transfer bytes) s = record s { input = store_input s.input bytes }
take_turn loop_round s = main_round s

-- The latest turn is the first.
unfoldable pub take_turns : List Turn → MainLoop → MainLoop
unfolding take_turn
take_turns [] s = s
take_turns (turn ∷ turns) s = take_turn turn (take_turns turns s)

-- `Kept turns bytes`: these are the bytes of some of the transfers, whole and in order.
pub data Kept : List Turn → List ℕ → Type 0 where
  kept_none : Kept [] []
  kept_round :
      {turns : List Turn} {bytes : List ℕ} → Kept turns bytes → Kept (loop_round ∷ turns) bytes
  kept_transfer :
      {turns : List Turn} {bytes : List ℕ} (more : List ℕ)
      → Kept turns bytes
      → Kept (transfer more ∷ turns) (bytes ++ more)
  kept_drop :
      {turns : List Turn} {bytes : List ℕ} (more : List ℕ)
      → Kept turns bytes
      → Kept (transfer more ∷ turns) bytes

-- The messages 1 to `n`.
abbrev pub messages : ℕ → List (List ℕ)
messages zero = []
messages (suc n) = messages n ++ (codes "Message Counter: " ++ decimal (suc n)) ∷ []

abbrev pub Sound : List Turn → MainLoop → Type 0
Sound turns s =
    Kept turns (s.printed ++ s.input)
    × (length s.input ≤ input_buffer_length)
    × (s.sent ≡ messages s.msg_counter)
    × (s.msg_counter ≤ length turns)

main_round-Sound :
    (turns : List Turn) (s : MainLoop)
    → length turns < 0x7fff_ffff
    → Sound turns s
    → Sound (loop_round ∷ turns) (main_round s)
unfolding main_round take_input
main_round-Sound turns s few (kept, room, sent, count) =
    if_split {A = Bool × MainLoop}
      (λ r.
        Sound (loop_round ∷ turns)
          (if r.0 then record (r.1) { sent = r.1.sent ++ message r.1.msg_counter ∷ [] } else r.1))
      (is_empty s.input) (λ nothing. (kept_round kept, room, sent, omega (arith, count)))
      (λ some_bytes.
        let next : (s.msg_counter + 1) % u32_mod ≡ suc s.msg_counter = omega (arith, count, few) in
        (
          rw (append-nil (s.printed ++ s.input)) (kept_round kept),
          omega arith,
          rw (next, decimal_int-small (suc s.msg_counter) (omega (arith, count, few)))
              (ap (λ ms. ms ++ (codes "Message Counter: " ++ decimal (suc s.msg_counter)) ∷ [])
                sent),
          rw next (omega (arith, count)),
        ))

-- In whatever order the host's transfers and the rounds of the main loop come, fewer than 2 ^ 31 in all, what
-- is printed and what the buffer holds are whole transfers of the host in the order in which it sent them,
-- each at most once, the buffer never overflows, and the messages that are sent are numbered 1, 2, 3 and so
-- on to the counter, which is at most the number of turns.
pub take_turns-Sound :
    (turns : List Turn) → length turns < 0x8000_0000 → Sound turns (take_turns turns activated)
unfolding take_turns take_turn store_input
take_turns-Sound [] few = (kept_none, omega arith, refl, omega arith)
take_turns-Sound (loop_round ∷ turns) few =
    main_round-Sound turns (take_turns turns activated) (omega (arith, few))
      (take_turns-Sound turns (omega (arith, few)))
take_turns-Sound (transfer bytes ∷ turns) few =
    let (kept, room, sent, count) = take_turns-Sound turns (omega (arith, few)) in
    let s = take_turns turns activated in
    if_split {A = InputBuffer}
      (λ input. Sound (transfer bytes ∷ turns) (record s { input = input }))
      (leb (length s.input + length bytes) input_buffer_length)
      (λ fits. (
        rw (← append_assoc s.printed s.input bytes) (kept_transfer bytes kept),
        omega (arith, leb→le _ _ fits, length-append s.input bytes),
        sent,
        omega (arith, count),
      ))
      (λ full. (kept_drop bytes kept, room, sent, omega (arith, count)))
