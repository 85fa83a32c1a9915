-- ===== src/TeamAuto/Schedule/Loops.antt =====
-- The loops that look for the next boundary end within their fuel.
use teamclaw.Prelude.{
  ℕ, zero, suc, ◌+◌, ◌*◌, ◌≤◌, ◌<◌, ◌≡◌, Bool, true, false, arith, Bool-cases, inl, inr,
}
use teamclaw.TeamAuto.Schedule.{advance}

zero_steps : (t step : ℕ) → t + 0 * step ≡ t
zero_steps t step = omega arith

one_step : (t step k : ℕ) → t + suc k * step ≡ t + step + k * step
one_step t step k = omega arith

-- A boundary that lies `k` steps ahead, within the fuel, is found or another before it.
pub advance_lem :
    (fuel step : ℕ) (ok : ℕ → Bool) (t k : ℕ)
    → k < fuel
    → ok (t + k * step) ≡ true
    → (ok (advance fuel step ok t) ≡ true)
      × (t ≤ advance fuel step ok t)
      × (advance fuel step ok t ≤ t + k * step)
unfolding advance
advance_lem zero step ok t k lt h = elim lt [ ]
advance_lem (suc fuel) step ok t zero lt h =
    let h' : ok t ≡ true = rw (zero_steps t step) at h in rw h' (h', omega arith, omega arith)
advance_lem (suc fuel) step ok t (suc k) lt h = elim (Bool-cases (ok t)) [
  | inl now ↦ rw now (now, omega arith, omega arith)
  | inr more ↦ rw more (
      let ih = advance_lem fuel step ok (t + step) k (omega arith) (rw (one_step t step k) at h) in
      (ih.0, omega (arith, ih.1), omega (arith, ih.2, one_step t step k)))
]

-- Nothing is skipped: every step before the boundary that is found is no boundary.
pub advance_first :
    (fuel step : ℕ) (ok : ℕ → Bool) (t k : ℕ)
    → t + k * step < advance fuel step ok t
    → ok (t + k * step) ≡ false
unfolding advance
advance_first zero step ok t k lt = absurd (omega arith)
advance_first (suc fuel) step ok t zero lt = elim (Bool-cases (ok t)) [
  | inl now ↦ absurd (omega (arith, rw (now, advance) at lt))
  | inr more ↦ rw (zero_steps t step) more
]
advance_first (suc fuel) step ok t (suc k) lt = elim (Bool-cases (ok t)) [
  | inl now ↦ absurd (omega (arith, rw (now, advance) at lt))
  | inr more ↦ rw (one_step t step k) (
      advance_first fuel step ok (t + step) k
        (rw (one_step t step k) at (rw (more, advance) at lt)))
]

-- The result lies a whole number of steps ahead.
pub advance_steps :
    (fuel step : ℕ) (ok : ℕ → Bool) (t : ℕ) → (k : ℕ) × (advance fuel step ok t ≡ t + k * step)
unfolding advance
advance_steps zero step ok t = (0, omega arith)
advance_steps (suc fuel) step ok t = elim (Bool-cases (ok t)) [
  | inl now ↦ (0, rw now (omega arith))
  | inr more ↦
      let ih = advance_steps fuel step ok (t + step) in
      (suc ih.0, rw more (omega (arith, ih.1, one_step t step ih.0)))
]
