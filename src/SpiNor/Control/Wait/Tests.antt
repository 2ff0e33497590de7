-- ===== src/SpiNor/Control/Wait/Tests.antt =====
-- A chip whose world is the time: it is busy up to the time 5.
use ufprog.Common.{
  ℕ, ◌+◌, ◌≡◌, refl, arith, ap, sym, ◌∙◌, ltb, ltb_of_ge, if◌then◌else◌, true, Bool-cases, inl, inr,
  [], ◌∷◌, Result, done, err,
}
use ufprog.SpiNor.Api.{SpiMem, Snor}
use ufprog.SpiNor.Regs.{
  read_reg_acc, read_descs, read_reg_desc, decode, read_op, set_low_speed, set_speed,
}
use ufprog.SpiNor.Control.{read_sr, timer, poll, wait_busy}
use ufprog.SpiNor.Control.Wait.{IsClock, IsReadyFrom, is_finished, poll_ends, wait_busy_done}
use ufprog.SpiNor.Tests.{register_spi, small_setup, small_snor}

abbrev busy_bit : ℕ → ℕ
busy_bit w = if ltb w 5 then 1 else 0

abbrev slow_spi : SpiMem ℕ
slow_spi = record register_spi {
  exec_op = λ op w. (done (busy_bit w ∷ []), w);
  timer_us = λ w. (w, w + 1);
}

abbrev started : Snor ℕ
started = record small_snor { world = 0 }

status_of : (s : Snor ℕ) → read_sr slow_spi small_setup 0 s ≡ (done (busy_bit s.world), s)
unfolding read_sr read_reg_acc read_descs read_reg_desc decode read_op set_low_speed set_speed
status_of s = elim (Bool-cases (ltb s.world 5)) [
  | inl busy ↦ rw busy refl
  | inr idle ↦ rw idle refl
]

abbrev value_of : Result ℕ → ℕ
value_of (done a) = a
value_of (err e) = 0

is_clock : IsClock slow_spi small_setup 0 (λ s. s.world)
unfolding timer
is_clock = record {
  says = λ s. refl;
  moves = λ s. omega arith;
  on = λ s. rw (status_of s) (omega arith);
}

is_ready : IsReadyFrom slow_spi small_setup 0 (λ s. s.world) 5
is_ready = record {
  reads = λ s. (busy_bit s.world, ap (λ p. p.0) (status_of s));
  idle = λ s sr read h.
      let e : sr ≡ busy_bit s.world =
        sym (ap value_of read) ∙ ap (λ p. value_of p.0) (status_of s) in
      rw (e, ltb_of_ge s.world 5 h) refl;
}

poll_ends_example : is_finished (poll slow_spi small_setup 9 0 7 started).0 ≡ true
poll_ends_example =
    poll_ends slow_spi small_setup 0 (λ s. s.world) is_clock 9 7 started (omega arith) (omega arith)

wait_busy_done_example : (wait_busy slow_spi small_setup 0 1 started).0 ≡ done tt
wait_busy_done_example =
    wait_busy_done slow_spi small_setup 0 (λ s. s.world) is_clock 5 is_ready 1 started (omega arith)
