-- ===== src/TeamAuto/Schedule/Calendar.antt =====
-- The calendar walk finds the day of the month.
use teamclaw.Prelude.{
  ℕ, zero, suc, ◌+◌, ◌-◌, ◌≤◌, ◌<◌, ◌≡◌, true, false, arith, inl, inr, ltb, ◌==◌, if◌then◌else◌,
  ◌⊎◌,
}
use teamclaw.TeamAuto.Schedule.{civil, days_in_month}

days-pos : (y m : ℕ) → (0 < days_in_month y m) × (days_in_month y m ≤ 31)
unfolding days_in_month
days-pos y m = ground arith

abbrev next_year : ℕ → ℕ → ℕ
next_year y m = if m == 11 then y + 1 else y

abbrev month_after : ℕ → ℕ
month_after m = if m == 11 then 0 else m + 1

civil_here :
    (fuel y m d : ℕ) → d < days_in_month y m → civil (suc fuel) y m d ≡ (d, days_in_month y m)
unfolding civil
civil_here fuel y m d lt = let h : ltb d (days_in_month y m) ≡ true = ground arith in rw h

civil_there :
    (fuel y m d : ℕ)
    → days_in_month y m ≤ d
    → civil (suc fuel) y m d ≡ civil fuel (next_year y m) (month_after m) (d - days_in_month y m)
unfolding civil
civil_there fuel y m d le = let h : ltb d (days_in_month y m) ≡ false = ground arith in rw h

in_month : (y m d : ℕ) → (d < days_in_month y m) ⊎ (days_in_month y m ≤ d)
in_month y m d = ground arith

-- The day is within its month and not before the first of the count.
pub civil_lem :
    (fuel y m d : ℕ)
    → d < fuel
    → ((civil fuel y m d).0 < (civil fuel y m d).1)
      × ((civil fuel y m d).0 ≤ d)
      × ((civil fuel y m d).1 ≤ 31)
civil_lem zero y m d lt = elim lt [ ]
civil_lem (suc fuel) y m d lt = elim (in_month y m d) [
  | inl this ↦ rw (civil_here fuel y m d this) (this, omega arith, (days-pos y m).1)
  | inr later ↦
      let ih =
        civil_lem fuel (next_year y m) (month_after m) (d - days_in_month y m)
          (omega (arith, days-pos y m)) in
      rw (civil_there fuel y m d later) (ih.0, omega (arith, ih.1), ih.2)
]

-- The first day of the month, and the first of the month after it, are first days.
pub civil_first :
    (fuel fuel' y m d : ℕ)
    → d < fuel
    → d - (civil fuel y m d).0 < fuel'
    → (civil fuel' y m (d - (civil fuel y m d).0)).0 ≡ 0
civil_first zero fuel' y m d lt lt' = elim lt [ ]
civil_first (suc fuel) zero y m d lt lt' = elim lt' [ ]
civil_first (suc fuel) (suc fuel') y m d lt lt' = elim (in_month y m d) [
  | inl this ↦
      rw (civil_here fuel y m d this)
        (let e : d - d ≡ 0 = omega arith in rw e (rw (civil_here fuel' y m 0 (days-pos y m).0)))
  | inr later ↦
      let r = (civil fuel (next_year y m) (month_after m) (d - days_in_month y m)).0 in
      let day =
        civil_lem fuel (next_year y m) (month_after m) (d - days_in_month y m)
          (omega (arith, days-pos y m)) in
      let lt'' : d - r < suc fuel' = rw (civil_there fuel y m d later) at lt' in
      let swap : d - r - days_in_month y m ≡ d - days_in_month y m - r = omega arith in
      rw (civil_there fuel y m d later) (
        rw (civil_there fuel' y m (d - r) (omega (arith, day.1))) (
          rw swap (
            civil_first fuel fuel' (next_year y m) (month_after m) (d - days_in_month y m)
              (omega (arith, days-pos y m)) (omega (arith, days-pos y m, day.1)))))
]

pub civil_next :
    (fuel fuel' y m d : ℕ)
    → d < fuel
    → d - (civil fuel y m d).0 + (civil fuel y m d).1 < fuel'
    → (civil fuel' y m (d - (civil fuel y m d).0 + (civil fuel y m d).1)).0 ≡ 0
civil_next zero fuel' y m d lt lt' = elim lt [ ]
civil_next (suc fuel) zero y m d lt lt' = elim lt' [ ]
civil_next (suc fuel) (suc zero) y m d lt lt' =
    absurd (omega (arith, civil_lem (suc fuel) y m d lt))
civil_next (suc fuel) (suc (suc fuel')) y m d lt lt' = elim (in_month y m d) [
  | inl this ↦ rw (civil_here fuel y m d this) (
      let e : d - d + days_in_month y m ≡ days_in_month y m = omega arith in
      let e' : days_in_month y m - days_in_month y m ≡ 0 = omega arith in
      rw e (
        rw (civil_there (suc fuel') y m (days_in_month y m) (omega arith)) (
          rw e' (
            rw (
              civil_here fuel' (next_year y m) (month_after m) 0
                (days-pos (next_year y m) (month_after m)).0)))))
  | inr later ↦
      let r = civil fuel (next_year y m) (month_after m) (d - days_in_month y m) in
      let day =
        civil_lem fuel (next_year y m) (month_after m) (d - days_in_month y m)
          (omega (arith, days-pos y m)) in
      let lt'' : d - r.0 + r.1 < suc (suc fuel') = rw (civil_there fuel y m d later) at lt' in
      let swap : d - r.0 + r.1 - days_in_month y m ≡ d - days_in_month y m - r.0 + r.1 =
        omega (arith, day.1) in
      rw (civil_there fuel y m d later) (
        rw (civil_there (suc fuel') y m (d - r.0 + r.1) (omega (arith, day.1))) (
          rw swap (
            civil_next fuel (suc fuel') (next_year y m) (month_after m) (d - days_in_month y m)
              (omega (arith, days-pos y m)) (omega (arith, days-pos y m, day.1)))))
]
