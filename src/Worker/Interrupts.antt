-- ===== src/Worker/Interrupts.antt =====
-- How often Ctrl-C stops the server of src/lib/usbip_server.c.
use usbip_server.Prelude.{
  ℕ, zero, suc, ◌-◌, ◌≤◌, ◌≡◌, refl, sym, ap, ◌∙◌, true, arith, leb, min, if◌then◌else◌,
}
use usbip_server.Worker.{Run, started, int_handler, ctrl_c}

-- What `n` times Ctrl-C come to.
abbrev pub after : ℕ → Run
after n = record {
  keep_running = 3 - n;
  panic_counter = min n 8 - 3;
  stop_server = leb 3 n;
  exited = leb 8 n;
}

after-late : (n : ℕ) → 8 ≤ n → after n ≡ after 8
after-late n late =
    let k : 3 - n ≡ 0 = omega (arith, late) in
    let p : min n 8 ≡ 8 = omega (arith, late) in
    let s : leb 3 n ≡ true = ground (arith, late) in
    let x : leb 8 n ≡ true = ground (arith, late) in rw (k, p, s, x) refl

-- After Ctrl-C is received `n` times, `keep_running` has fallen to 0, and the blocking calls of the
-- connection are stopped, exactly if `n` is at least 3; the program has left by `_exit` exactly if `n` is
-- at least 8.
pub ctrl_c_lem : (n : ℕ) → ctrl_c n started ≡ after n
unfolding ctrl_c int_handler
ctrl_c_lem zero = refl
ctrl_c_lem (suc zero) = refl
ctrl_c_lem (suc (suc zero)) = refl
ctrl_c_lem (suc (suc (suc zero))) = refl
ctrl_c_lem (suc (suc (suc (suc zero)))) = refl
ctrl_c_lem (suc (suc (suc (suc (suc zero))))) = refl
ctrl_c_lem (suc (suc (suc (suc (suc (suc zero)))))) = refl
ctrl_c_lem (suc (suc (suc (suc (suc (suc (suc zero))))))) = refl
ctrl_c_lem (suc (suc (suc (suc (suc (suc (suc (suc zero)))))))) = refl
ctrl_c_lem (suc (suc (suc (suc (suc (suc (suc (suc (suc n))))))))) =
    let h = ctrl_c_lem (suc (suc (suc (suc (suc (suc (suc (suc n)))))))) in
    let l = after-late (suc (suc (suc (suc (suc (suc (suc (suc n)))))))) (omega arith) in
    ap (λ r. if r.exited then r else int_handler r) (h ∙ l)
    ∙ sym (after-late (suc (suc (suc (suc (suc (suc (suc (suc (suc n))))))))) (omega arith))
