-- ===== src/SpiNor/Control/Wait.antt =====
-- Waiting for a chip, with a timer that moves on.
pub mod Tests
use ufprog.Common.{
  ℕ, zero, suc, ◌+◌, ◌*◌, ◌≤◌, ◌<◌, ◌≡◌, ◌≢◌, refl, arith, ap, sym, ◌∙◌, u32, leb, leb→le,
  leb_of_le, leb_of_gt, not, if◌then◌else◌, Bool, true, false, Bool-cases, inl, inr, Result, done,
  err, Result-cases,
}
use native.Mathlib.Decide.{dec_le}
use ufprog.SpiNor.Api.{SpiMem, Snor, Setup}
use ufprog.SpiNor.Regs.{has}
use ufprog.SpiNor.Control.{
  sr_busy, read_sr, timer, poll, wait_busy, Waited, finished, out_of_fuel, out_of_time,
  after_status, last_status,
}

-- `clock` is what the timer says: it moves on with each reading, and never goes back.
pub record IsClock {W : Type 0} (spi : SpiMem W) (setup : Setup W) (left_over : ℕ)
    (clock : Snor W → ℕ) : Type 0 where
  pub says : (s : Snor W) → (timer spi setup s).0 ≡ clock s
  pub moves : (s : Snor W) → clock s < clock (timer spi setup s).1
  pub on : (s : Snor W) → clock s ≤ clock (read_sr spi setup left_over s).1

-- Each read of the status succeeds, and from the time `ready` on it says that the chip is not busy.
pub record IsReadyFrom {W : Type 0} (spi : SpiMem W) (setup : Setup W) (left_over : ℕ)
    (clock : Snor W → ℕ) (ready : ℕ) : Type 0 where
  pub reads : (s : Snor W) → (sr : ℕ) × ((read_sr spi setup left_over s).0 ≡ done sr)
  pub idle :
      (s : Snor W) (sr : ℕ)
      → (read_sr spi setup left_over s).0 ≡ done sr
      → ready ≤ clock s
      → has sr sr_busy ≡ false

abbrev pub is_finished : Waited → Bool
is_finished (finished r) = true
is_finished out_of_fuel = false

module _ {W : Type 0} (spi : SpiMem W) (setup : Setup W) (left_over : ℕ) (clock : Snor W → ℕ)
    (is_clock : IsClock spi setup left_over clock) where
  after_status_ends :
      (r : Result ℕ) (s : Snor W) (still_busy : Snor W → Waited × Snor W)
      → is_finished (still_busy s).0 ≡ true
      → is_finished (after_status spi setup r s still_busy).0 ≡ true
  after_status_ends (err e) s still_busy h = refl
  after_status_ends (done sr) s still_busy h = elim (Bool-cases (has sr sr_busy)) [
    | inl busy ↦ rw busy h
    | inr idle ↦ rw idle refl
  ]

  last_status_ends : (r : Result ℕ) (s : Snor W) → is_finished (last_status spi setup r s).0 ≡ true
  last_status_ends (err e) s = refl
  last_status_ends (done sr) s = refl

  -- With a timer that moves on, the loop ends by its own tests: a round for each microsecond that is
  -- left, and two more, are enough.
  pub poll_ends :
      (fuel tmo : ℕ) (s : Snor W)
      → 0 < fuel
      → tmo + 1 < fuel + clock s
      → is_finished (poll spi setup fuel left_over tmo s).0 ≡ true
  unfolding poll
  poll_ends zero tmo s pos h = absurd (omega (arith, pos))
  poll_ends (suc fuel) tmo s pos h =
      let (r, s1) = read_sr spi setup left_over s in
      let (now, s2) = timer spi setup s1 in
      let (last, s3) = read_sr spi setup left_over s2 in
      let says = is_clock.says s1 in
      let on = is_clock.on s in
      let moves = is_clock.moves s1 in
      after_status_ends r s1 _ (elim (dec_le now tmo) [
        | no late ↦ rw (leb_of_gt now tmo (omega (arith, late))) (last_status_ends last s3)
        | yes early ↦ rw (leb_of_le now tmo early) (
            poll_ends fuel tmo s2 (omega (arith, says, on, early, h))
              (omega (arith, says, on, moves, early, h)))
      ])

  module _ (ready : ℕ) (is_ready : IsReadyFrom spi setup left_over clock ready) where
    after_status_idle :
        (s : Snor W) (still_busy : Snor W → Waited × Snor W)
        → let (r, s1) = read_sr spi setup left_over s in
          (still_busy s1).0 ≡ finished (done tt)
          → (after_status spi setup r s1 still_busy).0 ≡ finished (done tt)
    after_status_idle s still_busy h =
        let (sr, read) = is_ready.reads s in
        elim (Bool-cases (has sr sr_busy)) [
          | inl busy ↦ rw (read, busy) h
          | inr idle ↦ rw (read, idle) refl
        ]

    last_status_idle :
        (s : Snor W)
        → ready ≤ clock s
        → let (last, s1) = read_sr spi setup left_over s in
          (last_status spi setup last s1).0 ≡ finished (done tt)
    last_status_idle s h =
        let (sr, read) = is_ready.reads s in rw (read, is_ready.idle s sr read h) refl

    poll_done :
        (fuel tmo : ℕ) (s : Snor W)
        → 0 < fuel
        → tmo + 1 < fuel + clock s
        → ready ≤ tmo
        → (poll spi setup fuel left_over tmo s).0 ≡ finished (done tt)
    unfolding poll
    poll_done zero tmo s pos h in_time = absurd (omega (arith, pos))
    poll_done (suc fuel) tmo s pos h in_time =
        let (now, s2) = timer spi setup (read_sr spi setup left_over s).1 in
        let says = is_clock.says (read_sr spi setup left_over s).1 in
        let on = is_clock.on s in
        let moves = is_clock.moves (read_sr spi setup left_over s).1 in
        after_status_idle s _ (elim (dec_le now tmo) [
          | no late ↦
              rw (leb_of_gt now tmo (omega (arith, late)))
                (last_status_idle s2 (omega (arith, says, late, moves, in_time)))
          | yes early ↦ rw (leb_of_le now tmo early) (
              poll_done fuel tmo s2 (omega (arith, says, on, early, h))
                (omega (arith, says, on, moves, early, h)) in_time)
        ])

    -- With a timer that moves on and a chip that can be read and is ready before the time is over,
    -- the wait returns `UFP_OK`. The time is the product of 32 bits that the code computes.
    pub wait_busy_done :
        (wait_ms : ℕ) (s : Snor W)
        → ready ≤ clock s + u32 (wait_ms * 1000)
        → (wait_busy spi setup left_over wait_ms s).0 ≡ done tt
    unfolding wait_busy
    wait_busy_done wait_ms s h =
        let (now, s1) = timer spi setup s in
        let says = is_clock.says s in
        let moves = is_clock.moves s in
        rw
          (poll_done (u32 (wait_ms * 1000) + 2) (now + u32 (wait_ms * 1000)) s1 (omega arith)
            (omega (arith, says, moves)) (omega (arith, says, h)))
          refl
