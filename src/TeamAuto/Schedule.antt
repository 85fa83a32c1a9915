-- ===== src/TeamAuto/Schedule.antt =====
-- src/src/teamauto/schedule.ts. A `Date` is the number of milliseconds since the epoch on the local
-- clock, whose offset from UTC is taken as fixed; a thrown `ScheduleParseError` is `none`.
pub mod Loops
pub mod Residues
pub mod Calendar
pub mod Firing
pub mod Meaning
pub mod Parsing
use teamclaw.Prelude.{
  ℕ, zero, suc, ◌+◌, ◌-◌, ◌*◌, ◌/◌, ◌%◌, Bool, true, false, ◌&&◌, ◌||◌, not, Option, none, some,
  List, [], ◌∷◌, ltb, leb, ◌==◌, if◌then◌else◌, Text, codes, text_eq, is_digit, words,
}

pub data Schedule : Type 0 where
  hourly daily weekly monthly : Schedule
  every_minutes hourly_at every_hours : ℕ → Schedule
  -- The minute, then the hour.
  daily_at : ℕ → ℕ → Schedule

-- (\d{1,2})
pub one_or_two_digits : Text → Option ℕ
one_or_two_digits [] = none
one_or_two_digits (a ∷ []) = if is_digit a then some (a - b'0') else none
one_or_two_digits (a ∷ b ∷ []) =
    if is_digit a && is_digit b then some (10 * (a - b'0') + (b - b'0')) else none
one_or_two_digits (a ∷ b ∷ c ∷ s) = none

-- \*\/(\d{1,2})
pub step_field : Text → Option ℕ
unfolding one_or_two_digits
step_field [] = none
step_field (a ∷ []) = none
step_field (a ∷ b ∷ s) = if a == b'*' && b == b'/' then one_or_two_digits s else none

abbrev pub is_star : Text → Bool
is_star s = text_eq s (codes "*")

abbrev pub guarded : Bool → Schedule → Option Schedule
guarded ok s = if ok then some s else none

abbrev pub parse_daily : Option ℕ → Option ℕ → Option Schedule
parse_daily none h = none
parse_daily (some m) none = none
parse_daily (some m) (some h) = guarded (leb m 59 && leb h 23) (daily_at m h)

abbrev pub parse_hour_step : Text → Option ℕ → Option Schedule → Option Schedule
parse_hour_step minute none other = other
parse_hour_step minute (some n) other =
    if text_eq minute (codes "0") then guarded (leb 1 n && leb n 23) (every_hours n) else other

abbrev pub parse_hourly : Text → Option ℕ → Option Schedule → Option Schedule
parse_hourly hour none other = other
parse_hourly hour (some m) other = if is_star hour then guarded (leb m 59) (hourly_at m) else other

abbrev pub parse_minute_step : Text → Option ℕ → Option Schedule → Option Schedule
parse_minute_step hour none other = other
parse_minute_step hour (some n) other =
    if is_star hour then guarded (leb 1 n && leb n 59) (every_minutes n) else other

-- The regular expressions in the order of the code, over the five fields.
pub parse_fields : List Text → Option Schedule
unfolding step_field one_or_two_digits
parse_fields (minute ∷ hour ∷ d ∷ m ∷ w ∷ []) =
    if is_star d && is_star m && is_star w
    then parse_minute_step hour (step_field minute) (
        parse_hourly hour (one_or_two_digits minute) (
          parse_hour_step minute (step_field hour)
            (parse_daily (one_or_two_digits minute) (one_or_two_digits hour))))
    else none
parse_fields _ = none

abbrev pub parse_word : List Text → Option Schedule
parse_word (s ∷ []) =
    if text_eq s (codes "@hourly")
    then some hourly
    else if text_eq s (codes "@daily")
    then some daily
    else if text_eq s (codes "@weekly")
    then some weekly
    else if text_eq s (codes "@monthly")
    then some monthly
    else none
parse_word _ = none

abbrev pub first_of_two : Option Schedule → Option Schedule → Option Schedule
first_of_two none b = b
first_of_two (some a) b = some a

unfoldable pub parse : Text → Option Schedule
unfolding parse_fields
parse s = first_of_two (parse_word (words s)) (parse_fields (words s))

abbrev pub minute_ms : ℕ
minute_ms = 60000

abbrev pub hour_ms : ℕ
hour_ms = 3600000

abbrev pub day_ms : ℕ
day_ms = 86400000

-- getMinutes(), getHours(), getDay(): 1 January 1970 was a Thursday.
abbrev pub minutes : ℕ → ℕ
minutes t = t / 60000 % 60

abbrev pub hours : ℕ → ℕ
hours t = t / 3600000 % 24

abbrev pub weekday : ℕ → ℕ
weekday t = (t / 86400000 + 4) % 7

-- setSeconds(0, 0), setMinutes(m), setHours(h), setHours(0, 0, 0, 0)
abbrev pub clear_seconds : ℕ → ℕ
clear_seconds t = t - t % 60000

abbrev pub set_minutes : ℕ → ℕ → ℕ
set_minutes m t = t - minutes t * 60000 + m * 60000

abbrev pub set_hours : ℕ → ℕ → ℕ
set_hours h t = t - hours t * 3600000 + h * 3600000

abbrev pub start_of_day : ℕ → ℕ
start_of_day t = t - t % 86400000

abbrev is_leap : ℕ → Bool
is_leap y = y % 4 == 0 && (not (y % 100 == 0) || y % 400 == 0)

-- The days of month 0 to 11.
pub days_in_month : ℕ → ℕ → ℕ
days_in_month y m =
    if m == 1
    then (if is_leap y then 29 else 28)
    else if m == 3 || m == 5 || m == 8 || m == 10
    then 30
    else 31

-- From day `d` of the counting that starts at month `m` of year `y`: the days since the first of
-- its month, and the length of that month.
pub civil : ℕ → ℕ → ℕ → ℕ → ℕ × ℕ
civil zero y m d = (d, days_in_month y m)
civil (suc fuel) y m d =
    let rest =
      civil fuel (if m == 11 then y + 1 else y) (if m == 11 then 0 else m + 1)
        (d - days_in_month y m) in
    if ltb d (days_in_month y m) then (d, days_in_month y m) else rest

unfoldable pub day_of_month : ℕ → ℕ × ℕ
unfolding civil days_in_month
day_of_month t = let d = t / 86400000 in civil (d + 1) 1970 0 d

-- `while (!ok(next)) next += step`
unfoldable pub advance : ℕ → ℕ → (ℕ → Bool) → ℕ → ℕ
advance zero step ok t = t
advance (suc fuel) step ok t =
    let rest = advance fuel step ok (t + step) in if ok t then t else rest

abbrev pub later_than : ℕ → ℕ → ℕ → ℕ
later_than now step next = if leb next now then next + step else next

abbrev pub next_month : ℕ → ℕ
next_month now =
    let first = start_of_day now - (day_of_month now).0 * 86400000 in
    if leb first now then first + (day_of_month now).1 * 86400000 else first

-- The time at which the schedule fires next.
unfoldable pub next_fire : Schedule → ℕ → ℕ
next_fire hourly now = later_than now hour_ms (set_minutes 0 (clear_seconds now))
next_fire daily now = later_than now day_ms (start_of_day now)
next_fire weekly now =
    advance 7 day_ms (λ t. weekday t == 1) (later_than now day_ms (start_of_day now))
next_fire monthly now = next_month now
next_fire (every_minutes n) now =
    advance 61 minute_ms (λ t. minutes t % n == 0) (later_than now minute_ms (clear_seconds now))
next_fire (hourly_at m) now = later_than now hour_ms (set_minutes m (clear_seconds now))
next_fire (every_hours n) now =
    advance 25 hour_ms (λ t. hours t % n == 0)
      (later_than now hour_ms (set_minutes 0 (clear_seconds now)))
next_fire (daily_at m h) now =
    later_than now day_ms (set_hours h (set_minutes m (clear_seconds now)))

abbrev fire_in : ℕ → Option Schedule → Option ℕ
fire_in now none = none
fire_in now (some s) = some (next_fire s now - now)

-- `nextFireMs`
unfoldable pub next_fire_ms : Text → ℕ → Option ℕ
unfolding parse next_fire
next_fire_ms schedule now = fire_in now (parse schedule)
