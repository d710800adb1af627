-- ===== src/Mouse/Tests.antt =====
-- The mouse on a circle that is a line.
use usbip_server.Prelude.{ℕ, ◌+◌, ◌%◌, ◌≡◌, arith}
use usbip_server.Mouse.Circle.{
  number_of_steps, next_step, delta, moves, follow_all, SmallSteps, follow_all-moves,
}

-- To and fro within a step of 61.
abbrev place : ℕ → ℕ
place step = 100 + step % number_of_steps

place-SmallSteps : SmallSteps place
unfolding next_step delta
place-SmallSteps step = (omega arith, ground arith)

follow_all-moves_example :
    let (reports, last_step) = moves place place 100 3 in
    (follow_all (place 3, place 3) reports ≡ (place last_step, place last_step))
    × (last_step ≡ (3 + 100) % number_of_steps)
follow_all-moves_example =
    follow_all-moves place place place-SmallSteps place-SmallSteps 100 3 (omega arith)
