-- ===== src/TeamAuto/Schedule/Parsing.antt =====
-- What the parser admits, and `nextFireMs` over every text.
use teamclaw.Prelude.{
  ℕ, ◌+◌, ◌-◌, ◌≤◌, ◌<◌, ◌≡◌, Bool, true, false, ◌&&◌, if◌then◌else◌, words, arith, Option, none,
  some, List, [], ◌∷◌, Text, Option-cases, inl, inr,
}
use teamclaw.TeamAuto.Schedule.{
  Schedule, parse, next_fire, next_fire_ms, parse_word, parse_fields, parse_daily, parse_hour_step,
  parse_hourly, parse_minute_step, is_star, first_of_two, step_field, one_or_two_digits,
}
use teamclaw.TeamAuto.Schedule.Meaning.{Denotes, parse-Denotes}
use teamclaw.TeamAuto.Schedule.Firing.{IsValid, Fires, period, next_fire_good}

abbrev AllValid : Option Schedule → Type 0
AllValid none = Unit
AllValid (some s) = IsValid s

word_valid : (ws : List Text) → AllValid (parse_word ws)
word_valid [] = tt
word_valid (s ∷ []) = ground arith
word_valid (s ∷ r ∷ ws) = tt

daily_valid : (m h : Option ℕ) → AllValid (parse_daily m h)
daily_valid none h = tt
daily_valid (some m) none = tt
daily_valid (some m) (some h) = ground arith

hour_step_valid :
    (t : Text) (n : Option ℕ) (o : Option Schedule) → AllValid o → AllValid (parse_hour_step t n o)
hour_step_valid t none o h = h
hour_step_valid t (some n) o h = ground arith

hourly_valid :
    (t : Text) (n : Option ℕ) (o : Option Schedule) → AllValid o → AllValid (parse_hourly t n o)
hourly_valid t none o h = h
hourly_valid t (some n) o h = ground arith

minute_step_valid :
    (t : Text) (n : Option ℕ) (o : Option Schedule)
    → AllValid o
    → AllValid (parse_minute_step t n o)
minute_step_valid t none o h = h
minute_step_valid t (some n) o h = ground arith

if_valid : (b : Bool) (o : Option Schedule) → AllValid o → AllValid (if b then o else none)
if_valid true o h = h
if_valid false o h = tt

fields_valid : (ws : List Text) → AllValid (parse_fields ws)
unfolding parse_fields
fields_valid [] = tt
fields_valid (a ∷ []) = tt
fields_valid (a ∷ b ∷ []) = tt
fields_valid (a ∷ b ∷ c ∷ []) = tt
fields_valid (a ∷ b ∷ c ∷ d ∷ []) = tt
fields_valid (a ∷ b ∷ c ∷ d ∷ e ∷ []) = if_valid (is_star c && is_star d && is_star e) _ (
    minute_step_valid b (step_field a) _ (
      hourly_valid b (one_or_two_digits a) _ (
        hour_step_valid a (step_field b) _
          (daily_valid (one_or_two_digits a) (one_or_two_digits b)))))
fields_valid (a ∷ b ∷ c ∷ d ∷ e ∷ f ∷ ws) = tt

first_valid : (a b : Option Schedule) → AllValid a → AllValid b → AllValid (first_of_two a b)
first_valid none b h k = k
first_valid (some s) b h k = h

parse_valid : (text : Text) → AllValid (parse text)
unfolding parse
parse_valid text =
    first_valid (parse_word (words text)) (parse_fields (words text)) (word_valid (words text))
      (fields_valid (words text))

-- Whatever the text of a schedule, if it is not refused, its words are one of the expressions of the
-- notation, the delay until the next sweep is positive and at most the period of that expression, and
-- it ends on the boundary that the expression names on the local clock.
pub next_fire_ms_good :
    (text : Text) (now r : ℕ)
    → next_fire_ms text now ≡ some r
    → (s : Schedule) × Denotes (words text) s × (0 < r) × (r ≤ period s) × Fires s (now + r)
unfolding next_fire_ms
next_fire_ms_good text now r e = elim (Option-cases (parse text)) [
  | inl refused ↦ absurd (ground arith)
  | inr (s, accepted) ↦
      let good = next_fire_good s now (rw accepted at (parse_valid text)) in
      let r' : next_fire s now - now ≡ r = ground arith in
      let at : next_fire s now ≡ now + r = omega (arith, good.0) in
      (
        s,
        parse-Denotes text s accepted,
        omega (arith, good.0),
        omega (arith, good.0, good.1),
        rw at at good.2,
      )
]
