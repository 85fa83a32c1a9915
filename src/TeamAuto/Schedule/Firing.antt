-- ===== src/TeamAuto/Schedule/Firing.antt =====
-- The next time at which a schedule fires: later than now, within a period, on a boundary.
use teamclaw.Prelude.{
  ℕ, ◌+◌, ◌*◌, ◌-◌, ◌/◌, ◌%◌, ◌≤◌, ◌<◌, ◌≡◌, ◌≢◌, true, false, arith, ◌==◌, ==_iff, Bool, leb,
  Bool-cases, inl, inr, ◌⊎◌,
}
use teamclaw.TeamAuto.Schedule.{
  Schedule, hourly, daily, weekly, monthly, every_minutes, hourly_at, every_hours, daily_at,
  next_fire, advance, minutes, hours, weekday, later_than, day_of_month, minute_ms, hour_ms, day_ms,
  start_of_day, set_minutes, clear_seconds, civil,
}
use teamclaw.TeamAuto.Schedule.Calendar.{civil_lem, civil_next}
use teamclaw.TeamAuto.Schedule.Residues.{rest_of, rest_of_lt, rest_of_lem}
use teamclaw.TeamAuto.Schedule.Loops.{advance_lem, advance_steps, advance_first}

-- The ranges that the parser admits.
abbrev pub IsValid : Schedule → Type 0
IsValid (every_minutes n) = (0 < n) × (n < 60)
IsValid (every_hours n) = (0 < n) × (n < 24)
IsValid (hourly_at m) = m < 60
IsValid (daily_at m h) = (m < 60) × (h < 24)
IsValid _ = Unit

-- The longest wait until a firing: the step of a `*/n` expression, else the time between two firings.
abbrev pub period : Schedule → ℕ
period hourly = hour_ms
period daily = day_ms
period weekly = 7 * day_ms
period monthly = 31 * day_ms
period (every_minutes n) = n * minute_ms
period (hourly_at m) = hour_ms
period (every_hours n) = n * hour_ms
period (daily_at m h) = day_ms

-- The meaning of each expression on the local clock.
abbrev pub Fires : Schedule → ℕ → Type 0
Fires hourly t = t % hour_ms ≡ 0
Fires daily t = t % day_ms ≡ 0
Fires weekly t = (t % day_ms ≡ 0) × (weekday t ≡ 1)
Fires monthly t = (t % day_ms ≡ 0) × ((day_of_month t).0 ≡ 0)
Fires (every_minutes n) t = (t % minute_ms ≡ 0) × (minutes t % n ≡ 0)
Fires (hourly_at m) t = (t % minute_ms ≡ 0) × (minutes t ≡ m)
Fires (every_hours n) t = (t % hour_ms ≡ 0) × (hours t % n ≡ 0)
Fires (daily_at m h) t = (t % minute_ms ≡ 0) × (minutes t ≡ m) × (hours t ≡ h)

abbrev Good : Schedule → ℕ → ℕ → Type 0
Good s now t = (now < t) × (t ≤ now + period s) × Fires s t

hourly-Good : (now : ℕ) → Good hourly now (next_fire hourly now)
unfolding next_fire
hourly-Good now = ground arith

daily-Good : (now : ℕ) → Good daily now (next_fire daily now)
unfolding next_fire
daily-Good now = ground arith

hourly_at-Good : (m now : ℕ) → m < 60 → Good (hourly_at m) now (next_fire (hourly_at m) now)
unfolding next_fire
hourly_at-Good m now h = ground arith

daily_at-Good :
    (m h now : ℕ) → m < 60 → h < 24 → Good (daily_at m h) now (next_fire (daily_at m h) now)
unfolding next_fire
daily_at-Good m h now p q = ground arith

mod_zero : (n : ℕ) → 0 < n → 0 % n ≡ 0
mod_zero n h = grind arith

reaches : (a b : ℕ) → (a ≤ b) ⊎ (b < a)
reaches a b = elim (Bool-cases (leb a b)) [
  | inl above ↦ inl (ground arith)
  | inr below ↦ inr (ground arith)
]

-- The steps to the next multiple of `n` are fewer than `n`, and so are those to the full hour, if it comes first.
every_minutes_soon :
    (n t : ℕ)
    → 0 < n
    → t % minute_ms ≡ 0
    → advance 61 minute_ms (λ x. minutes x % n == 0) t ≤ t + (n - 1) * minute_ms
every_minutes_soon n t pos even =
    let ok : ℕ → Bool = λ x. minutes x % n == 0 in
    let k = rest_of (minutes t) n in
    let small : k < n = rest_of_lt (minutes t) n pos in
    elim (reaches 60 (minutes t + k)) [
      | inl wraps ↦
          let turn : minutes (t + (60 - minutes t) % 60 * minute_ms) ≡ 0 = ground arith in
          let found =
            advance_lem 61 minute_ms ok t ((60 - minutes t) % 60) (omega arith)
              (rw turn ((==_iff _ _).1 (mod_zero n pos))) in
          let few : (60 - minutes t) % 60 ≤ n - 1 = omega (arith, small, wraps) in
          omega (arith, found.2, few)
      | inr within ↦
          let same : minutes (t + k * minute_ms) ≡ minutes t + k = omega (arith, within, even) in
          let found =
            advance_lem 61 minute_ms ok t k (omega (arith, within))
              (rw same ((==_iff _ _).1 (rest_of_lem (minutes t) n pos))) in
          omega (arith, found.2, small)
    ]

every_minutes-Good :
    (n now : ℕ) → 0 < n → Good (every_minutes n) now (next_fire (every_minutes n) now)
unfolding next_fire
every_minutes-Good n now pos =
    let t = later_than now minute_ms (clear_seconds now) in
    let on_hour : minutes (t + (60 - minutes t) % 60 * minute_ms) ≡ 0 = ground arith in
    let ok : (minutes (t + (60 - minutes t) % 60 * minute_ms) % n == 0) ≡ true =
      rw on_hour ((==_iff _ _).1 (mod_zero n pos)) in
    let found =
      advance_lem 61 minute_ms (λ x. minutes x % n == 0) t ((60 - minutes t) % 60) (omega arith)
        ok in
    let even : t % minute_ms ≡ 0 = ground arith in
    let start : t ≤ now + minute_ms = ground arith in
    let soon = every_minutes_soon n t pos even in
    let (k, at) = advance_steps 61 minute_ms (λ x. minutes x % n == 0) t in
    (
      ground (arith, found.1),
      omega (arith, soon, start, pos),
      (ground (arith, at), (==_iff _ _).0 found.0),
    )

-- The steps to the next multiple of `n` are fewer than `n`, and so are those to midnight, if it comes first.
every_hours_soon :
    (n t : ℕ)
    → 0 < n
    → t % hour_ms ≡ 0
    → advance 25 hour_ms (λ x. hours x % n == 0) t ≤ t + (n - 1) * hour_ms
every_hours_soon n t pos even =
    let ok : ℕ → Bool = λ x. hours x % n == 0 in
    let k = rest_of (hours t) n in
    let small : k < n = rest_of_lt (hours t) n pos in
    elim (reaches 24 (hours t + k)) [
      | inl wraps ↦
          let turn : hours (t + (24 - hours t) % 24 * hour_ms) ≡ 0 = ground arith in
          let found =
            advance_lem 25 hour_ms ok t ((24 - hours t) % 24) (omega arith)
              (rw turn ((==_iff _ _).1 (mod_zero n pos))) in
          let few : (24 - hours t) % 24 ≤ n - 1 = omega (arith, small, wraps) in
          omega (arith, found.2, few)
      | inr within ↦
          let same : hours (t + k * hour_ms) ≡ hours t + k = omega (arith, within, even) in
          let found =
            advance_lem 25 hour_ms ok t k (omega (arith, within))
              (rw same ((==_iff _ _).1 (rest_of_lem (hours t) n pos))) in
          omega (arith, found.2, small)
    ]

every_hours-Good : (n now : ℕ) → 0 < n → Good (every_hours n) now (next_fire (every_hours n) now)
unfolding next_fire
every_hours-Good n now pos =
    let t = later_than now hour_ms (set_minutes 0 (clear_seconds now)) in
    let midnight : hours (t + (24 - hours t) % 24 * hour_ms) ≡ 0 = ground arith in
    let ok : (hours (t + (24 - hours t) % 24 * hour_ms) % n == 0) ≡ true =
      rw midnight ((==_iff _ _).1 (mod_zero n pos)) in
    let found =
      advance_lem 25 hour_ms (λ x. hours x % n == 0) t ((24 - hours t) % 24) (omega arith) ok in
    let even : t % hour_ms ≡ 0 = ground arith in
    let start : t ≤ now + hour_ms = ground arith in
    let soon = every_hours_soon n t pos even in
    let (k, at) = advance_steps 25 hour_ms (λ x. hours x % n == 0) t in
    (
      ground (arith, found.1),
      omega (arith, soon, start, pos),
      (ground (arith, at), (==_iff _ _).0 found.0),
    )

weekly-Good : (now : ℕ) → Good weekly now (next_fire weekly now)
unfolding next_fire
weekly-Good now =
    let t = later_than now day_ms (start_of_day now) in
    let k = (8 - weekday t) % 7 in
    let ok : (weekday (t + k * day_ms) == 1) ≡ true = ground arith in
    let found = advance_lem 7 day_ms (λ x. weekday x == 1) t k (omega arith) ok in
    let (j, at) = advance_steps 7 day_ms (λ x. weekday x == 1) t in
    (ground (arith, found.1), ground (arith, found.2), (ground (arith, at), (==_iff _ _).0 found.0))

-- The first of the month after that of `now`, in days.
abbrev month_end : ℕ → ℕ
month_end d = d - (civil (d + 1) 1970 0 d).0 + (civil (d + 1) 1970 0 d).1

day_bounds :
    (d : ℕ)
    → ((civil (d + 1) 1970 0 d).0 < (civil (d + 1) 1970 0 d).1)
      × ((civil (d + 1) 1970 0 d).0 ≤ d)
      × ((civil (d + 1) 1970 0 d).1 ≤ 31)
day_bounds d = civil_lem (d + 1) 1970 0 d (omega arith)

month_end_first : (d : ℕ) → (civil (month_end d + 1) 1970 0 (month_end d)).0 ≡ 0
month_end_first d = civil_next (d + 1) (month_end d + 1) 1970 0 d (omega arith) (omega arith)

next_month_lem : (now : ℕ) → next_fire monthly now ≡ month_end (now / 86400000) * 86400000
unfolding next_fire day_of_month
next_month_lem now = ground (arith, day_bounds (now / 86400000))

monthly-Good : (now : ℕ) → Good monthly now (next_fire monthly now)
monthly-Good now =
    let d = now / 86400000 in
    let e : month_end d * 86400000 / 86400000 ≡ month_end d = omega arith in
    rw (next_month_lem now) (
      omega (arith, day_bounds d),
      omega (arith, day_bounds d),
      (omega arith, unfold day_of_month in rw e (month_end_first d)),
    )

-- For every schedule that the parser admits, the next firing lies after now and within a period of
-- the schedule, and it lies on the boundary that the expression names on the local clock.
pub next_fire_good :
    (s : Schedule) (now : ℕ)
    → IsValid s
    → (now < next_fire s now) × (next_fire s now ≤ now + period s) × Fires s (next_fire s now)
next_fire_good hourly now v = hourly-Good now
next_fire_good daily now v = daily-Good now
next_fire_good weekly now v = weekly-Good now
next_fire_good monthly now v = monthly-Good now
next_fire_good (every_minutes n) now v = every_minutes-Good n now v.0
next_fire_good (hourly_at m) now v = hourly_at-Good m now v
next_fire_good (every_hours n) now v = every_hours-Good n now v.0
next_fire_good (daily_at m h) now v = daily_at-Good m h now v.0 v.1

-- A sweep every `n` minutes skips none: no minute between now and the next firing is a multiple of
-- `n`.
pub every_minutes_first :
    (n now t : ℕ)
    → t % minute_ms ≡ 0
    → now < t
    → t < next_fire (every_minutes n) now
    → minutes t % n ≢ 0
unfolding next_fire
every_minutes_first n now t on_minute after earlier hit =
    let t0 = later_than now minute_ms (clear_seconds now) in
    let k = (t - t0) / 60000 in
    let e : t0 + k * minute_ms ≡ t = ground arith in
    let missed : (minutes t % n == 0) ≡ false =
      rw e at (advance_first 61 minute_ms (λ x. minutes x % n == 0) t0 k (rw e earlier)) in
    ground arith
