-- ===== src/TeamAuto/Schedule/Meaning.antt =====
-- What the texts of schedules mean, and that the parser takes them so.
use teamclaw.Prelude.{
  ℕ, ◌+◌, ◌-◌, ◌*◌, ◌≡◌, refl, sym, ap, Bool, true, false, ◌&&◌, words, arith, Option, none, some,
  some_inj, List, [], ◌∷◌, Text, codes, text_eq, text_eq_sound, is_digit, Option-cases, Bool-cases,
  inl, inr, ◌==◌, ==_iff,
}
use teamclaw.TeamAuto.Schedule.{
  Schedule, hourly, daily, weekly, monthly, every_minutes, hourly_at, every_hours, daily_at, parse,
  parse_word, parse_fields, parse_daily, parse_hour_step, parse_hourly, parse_minute_step, is_star,
  first_of_two, step_field, one_or_two_digits, guarded,
}

-- What the notation of cron writes for a number of one or two digits.
abbrev pub Writes : ℕ → Text → Type 0
Writes n [] = ⊥
Writes n (a ∷ []) = (is_digit a ≡ true) × (n ≡ a - b'0')
Writes n (a ∷ b ∷ []) =
    (is_digit a ≡ true) × (is_digit b ≡ true) × (n ≡ 10 * (a - b'0') + (b - b'0'))
Writes n (a ∷ b ∷ c ∷ s) = ⊥

abbrev star : Text
star = codes "*"

-- The meaning of the words of an expression: minute, hour, and a star for each of day, month and
-- weekday; or one of the names.
abbrev pub Denotes : List Text → Schedule → Type 0
Denotes ws hourly = ws ≡ codes "@hourly" ∷ []
Denotes ws daily = ws ≡ codes "@daily" ∷ []
Denotes ws weekly = ws ≡ codes "@weekly" ∷ []
Denotes ws monthly = ws ≡ codes "@monthly" ∷ []
Denotes ws (every_minutes n) =
    (d : Text) × Writes n d × (ws ≡ (b'*' ∷ b'/' ∷ d) ∷ star ∷ star ∷ star ∷ star ∷ [])
Denotes ws (hourly_at m) = (d : Text) × Writes m d × (ws ≡ d ∷ star ∷ star ∷ star ∷ star ∷ [])
Denotes ws (every_hours n) =
    (d : Text) × Writes n d × (ws ≡ codes "0" ∷ (b'*' ∷ b'/' ∷ d) ∷ star ∷ star ∷ star ∷ [])
Denotes ws (daily_at m h) =
    (d : Text) × (e : Text) × Writes m d × Writes h e × (ws ≡ d ∷ e ∷ star ∷ star ∷ star ∷ [])

abbrev Means : List Text → Option Schedule → Type 0
Means ws none = Unit
Means ws (some s) = Denotes ws s

number_lem : (d : Text) (n : ℕ) → one_or_two_digits d ≡ some n → Writes n d
unfolding one_or_two_digits
number_lem [] n e = ground arith
number_lem (a ∷ []) n e = elim (Bool-cases (is_digit a)) [
  | inl digit ↦ (digit, sym (some_inj (rw digit at e)))
  | inr other ↦ absurd (ground (arith, rw other at e))
]
number_lem (a ∷ b ∷ []) n e = elim (Bool-cases (is_digit a && is_digit b)) [
  | inl digits ↦ (ground arith, ground arith, sym (some_inj (rw digits at e)))
  | inr other ↦ absurd (ground (arith, rw other at e))
]
number_lem (a ∷ b ∷ c ∷ s) n e = ground arith

step_lem :
    (f : Text) (n : ℕ) → step_field f ≡ some n → (d : Text) × Writes n d × (f ≡ b'*' ∷ b'/' ∷ d)
unfolding step_field
step_lem [] n e = absurd (ground arith)
step_lem (a ∷ []) n e = absurd (ground arith)
step_lem (a ∷ b ∷ s) n e = elim (Bool-cases (a == b'*' && b == b'/')) [
  | inl marked ↦ (
    s,
    number_lem s n (rw marked at e),
    rw ((==_iff a b'*').0 (ground arith), (==_iff b b'/').0 (ground arith)) refl,
  )
  | inr other ↦ absurd (ground (arith, rw other at e))
]

guarded-Means : (ws : List Text) (b : Bool) (s : Schedule) → Denotes ws s → Means ws (guarded b s)
guarded-Means ws true s h = h
guarded-Means ws false s h = tt

word-Means : (ws : List Text) → Means ws (parse_word ws)
word-Means [] = tt
word-Means (s ∷ []) = elim (Bool-cases (text_eq s (codes "@hourly"))) [
  | inl a ↦ rw (a, parse_word) (ap (λ x. x ∷ []) (text_eq_sound s (codes "@hourly") a))
  | inr a' ↦ elim (Bool-cases (text_eq s (codes "@daily"))) [
    | inl b ↦ rw (a', b, parse_word) (ap (λ x. x ∷ []) (text_eq_sound s (codes "@daily") b))
    | inr b' ↦ elim (Bool-cases (text_eq s (codes "@weekly"))) [
      | inl c ↦ rw (a', b', c, parse_word) (ap (λ x. x ∷ []) (text_eq_sound s (codes "@weekly") c))
      | inr c' ↦ elim (Bool-cases (text_eq s (codes "@monthly"))) [
        | inl d ↦
            rw (a', b', c', d, parse_word) (ap (λ x. x ∷ []) (text_eq_sound s (codes "@monthly") d))
        | inr d' ↦ rw (a', b', c', d', parse_word) tt
      ]
    ]
  ]
]
word-Means (s ∷ r ∷ ws) = tt

-- The five words of which the last three are stars.
abbrev five : Text → Text → List Text
five minute hour = minute ∷ hour ∷ star ∷ star ∷ star ∷ []

daily-Means :
    (m h : Text) → Means (five m h) (parse_daily (one_or_two_digits m) (one_or_two_digits h))
daily-Means m h = elim (Option-cases (one_or_two_digits m)) [
  | inl no_m ↦ rw no_m tt
  | inr x ↦ elim (Option-cases (one_or_two_digits h)) [
    | inl no_h ↦ rw (x.1, no_h) tt
    | inr y ↦
        rw (x.1, y.1)
          (guarded-Means (five m h) _ (daily_at x.0 y.0)
            (m, h, number_lem m x.0 x.1, number_lem h y.0 y.1, refl))
  ]
]

hour_step-Means :
    (m h : Text) (o : Option Schedule)
    → Means (five m h) o
    → Means (five m h) (parse_hour_step m (step_field h) o)
hour_step-Means m h o other = elim (Option-cases (step_field h)) [
  | inl bare ↦ rw bare other
  | inr x ↦ elim (Bool-cases (text_eq m (codes "0"))) [
    | inr not_zero ↦ rw (x.1, not_zero) other
    | inl at_zero ↦
        let d = step_lem h x.0 x.1 in
        rw (x.1, at_zero)
          (guarded-Means (five m h) _ (every_hours x.0)
            (d.0, d.1, rw (text_eq_sound m (codes "0") at_zero, d.2) refl))
  ]
]

hourly-Means :
    (m h : Text) (o : Option Schedule)
    → Means (five m h) o
    → Means (five m h) (parse_hourly h (one_or_two_digits m) o)
hourly-Means m h o other = elim (Option-cases (one_or_two_digits m)) [
  | inl bare ↦ rw bare other
  | inr x ↦ elim (Bool-cases (is_star h)) [
    | inr hour ↦ rw (x.1, hour) other
    | inl starred ↦
        rw (x.1, starred)
          (guarded-Means (five m h) _ (hourly_at x.0)
            (m, number_lem m x.0 x.1, rw (text_eq_sound h star starred) refl))
  ]
]

minute_step-Means :
    (m h : Text) (o : Option Schedule)
    → Means (five m h) o
    → Means (five m h) (parse_minute_step h (step_field m) o)
minute_step-Means m h o other = elim (Option-cases (step_field m)) [
  | inl bare ↦ rw bare other
  | inr x ↦ elim (Bool-cases (is_star h)) [
    | inr hour ↦ rw (x.1, hour) other
    | inl starred ↦
        let d = step_lem m x.0 x.1 in
        rw (x.1, starred)
          (guarded-Means (five m h) _ (every_minutes x.0)
            (d.0, d.1, rw (text_eq_sound h star starred, d.2) refl))
  ]
]

fields-Means : (ws : List Text) → Means ws (parse_fields ws)
unfolding parse_fields
fields-Means [] = tt
fields-Means (a ∷ []) = tt
fields-Means (a ∷ b ∷ []) = tt
fields-Means (a ∷ b ∷ c ∷ []) = tt
fields-Means (a ∷ b ∷ c ∷ d ∷ []) = tt
fields-Means (a ∷ b ∷ c ∷ d ∷ e ∷ []) = elim (Bool-cases (is_star c && is_star d && is_star e)) [
  | inr dated ↦ rw (dated, parse_fields) tt
  | inl stars ↦
      let c' : c ≡ star = text_eq_sound c star (ground arith) in
      let d' : d ≡ star = text_eq_sound d star (ground arith) in
      let e' : e ≡ star = text_eq_sound e star (ground arith) in
      rw (stars, parse_fields)
        (rw (c', d', e')
          (minute_step-Means a b _ (hourly-Means a b _ (hour_step-Means a b _ (daily-Means a b)))))
]
fields-Means (a ∷ b ∷ c ∷ d ∷ e ∷ f ∷ ws) = tt

first-Means :
    (ws : List Text) (a b : Option Schedule) → Means ws a → Means ws b → Means ws (first_of_two a b)
first-Means ws none b h k = k
first-Means ws (some s) b h k = h

pub parse-Denotes : (text : Text) (s : Schedule) → parse text ≡ some s → Denotes (words text) s
unfolding parse
parse-Denotes text s e = rw e at (
    first-Means (words text) (parse_word (words text)) (parse_fields (words text))
      (word-Means (words text)) (fields-Means (words text)))
