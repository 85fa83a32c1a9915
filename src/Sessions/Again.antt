-- ===== src/Sessions/Again.antt =====
-- A key that was normalised already is normalised again wherever sessions are compared.
use teamclaw.Prelude.{
  ℕ, ◌≡◌, ◌≤◌, ◌+◌, refl, ap, ◌∙◌, inl, inr, Bool, Bool-cases, true, false, ◌&&◌, not, none, some,
  [], ◌∷◌, ◌++◌, leb, if◌then◌else◌, length, length-append, all, Text, codes, text_eq, lower,
  is_space, starts_with, trim, skip_spaces, trim_end, arith,
}
use teamclaw.Sessions.{
  session_key, session_prefix, default_session, is_session_code, is_session_text, after_colon,
  runtime_key, agent_key, agent_session_key, key_of, text_or, unless_blank,
}

session_code-not-space : (c : ℕ) → is_session_code c ≡ true → is_space c ≡ false
unfolding is_space
session_code-not-space c h = ground arith

trim_end-same : (s : Text) → all is_session_code s ≡ true → trim_end s ≡ s
unfolding trim_end
trim_end-same [] h = refl
trim_end-same (c ∷ s) h =
    rw (session_code-not-space c (ground arith)) (ap (λ r. c ∷ r) (trim_end-same s (ground arith)))

trim-same : (s : Text) → all is_session_code s ≡ true → trim s ≡ s
unfolding trim skip_spaces
trim-same [] h = unfold trim_end in refl
trim-same (c ∷ s) h = rw (session_code-not-space c (ground arith)) (trim_end-same (c ∷ s) h)

lower-session : (s : Text) → all is_session_code s ≡ true → all is_session_code (lower s) ≡ true
lower-session [] h = refl
lower-session (c ∷ s) h = ground (arith, lower-session s)

abbrev fold_case : ℕ → ℕ
fold_case c = if leb b'A' c && leb c b'Z' then c + 32 else c

lower_code_again : (c : ℕ) → fold_case (fold_case c) ≡ fold_case c
lower_code_again c = ground arith

lower_again : (s : Text) → lower (lower s) ≡ lower s
lower_again [] = refl
lower_again (c ∷ s) = rw (lower_again s) (ap (λ d. d ∷ lower s) (lower_code_again c))

length-lower : (s : Text) → length (lower s) ≡ length s
length-lower [] = refl
length-lower (c ∷ s) = omega (arith, length-lower s)

-- A key as a client of the controller may choose it.
pub record IsChosen (k : Text) : Type 0 where
  pub characters : all is_session_code k ≡ true
  pub not_empty : 1 ≤ length k
  pub not_long : length k ≤ 120
  pub not_agent : starts_with k (codes "agent:") ≡ false
  pub not_prefixed : starts_with k session_prefix ≡ false

abbrev agent_prefix : Text
agent_prefix = codes "agent:teamclaw:"

agent_session_key-prefixed :
    (k : Text)
    → all is_session_code k ≡ true
    → agent_session_key true (session_prefix ++ k) ≡ agent_prefix ++ (session_prefix ++ lower k)
unfolding agent_session_key agent_key starts_with
agent_session_key-prefixed k h =
    let x = session_prefix ++ k in
    let same = trim-same x h in
    let main = codes "main" in
    ap (λ (t : Text). agent_prefix ++ unless_blank (lower (trim (text_or (agent_key t) t))) main)
      same
    ∙ ap (λ (t : Text). agent_prefix ++ unless_blank (lower t) main) same

text_eq-not_empty : (k : Text) → 1 ≤ length k → text_eq k [] ≡ false
unfolding text_eq
text_eq-not_empty [] h = absurd (omega arith)
text_eq-not_empty (c ∷ k) h = refl

is_session_text_lem :
    (k : Text)
    → all is_session_code k ≡ true
    → 1 ≤ length k
    → is_session_text k ≡ leb (length k) 120
unfolding is_session_text
is_session_text_lem k h some_length = ground arith

the_short : (n : ℕ) → n ≤ 120 → leb n 120 ≡ true
the_short n h = ground arith

runtime_key-none : (k : Text) → starts_with k (codes "agent:") ≡ false → runtime_key k ≡ none
unfolding runtime_key
runtime_key-none k h = rw h refl

key_of-chosen :
    (k : Text) → IsChosen k → key_of true k none ≡ agent_prefix ++ (session_prefix ++ lower k)
unfolding key_of
key_of-chosen k h =
    rw
      (
        text_eq-not_empty k h.not_empty,
        h.not_agent,
        is_session_text_lem k h.characters h.not_empty,
        the_short (length k) h.not_long,
        h.not_prefixed,
      )
      (agent_session_key-prefixed k h.characters)

key_of-trimmed :
    (x : Text) → all is_session_code x ≡ true → session_key true x ≡ key_of true x (runtime_key x)
unfolding session_key
key_of-trimmed x h = ap (λ (t : Text). key_of true t (runtime_key t)) (trim-same x h)

session_key-chosen :
    (k : Text) → IsChosen k → session_key true k ≡ agent_prefix ++ (session_prefix ++ lower k)
session_key-chosen k h =
    key_of-trimmed k h.characters
    ∙ ap (λ r. key_of true k r) (runtime_key-none k h.not_agent)
    ∙ key_of-chosen k h

runtime_key-chosen :
    (l : Text)
    → all is_session_code l ≡ true
    → 1 ≤ length l
    → length l ≤ 120
    → runtime_key (agent_prefix ++ (session_prefix ++ l)) ≡ some (session_prefix ++ l)
unfolding runtime_key starts_with after_colon
runtime_key-chosen l h some_length short =
    rw (is_session_text_lem l h some_length, the_short (length l) short) refl

key_of-agent :
    (l : Text)
    → all is_session_code l ≡ true
    → 1 ≤ length l
    → key_of true (agent_prefix ++ (session_prefix ++ l)) (some (session_prefix ++ l))
      ≡ (if leb (length l) 96 then agent_prefix ++ (session_prefix ++ lower l) else default_session)
unfolding key_of starts_with text_eq
key_of-agent l h some_length =
    let x = session_prefix ++ l in
    let count = length-append session_prefix l in
    let is_text = is_session_text_lem x h (omega (arith, count)) in
    let key : Bool → Text = λ b. if not b then default_session else agent_session_key true x in
    elim (Bool-cases (leb (length l) 96)) [
      | inl fits ↦
          let fits_too : leb (length x) 120 ≡ true = ground (arith, count) in
          rw fits (ap key (is_text ∙ fits_too) ∙ agent_session_key-prefixed l h)
      | inr long ↦
          let long_too : leb (length x) 120 ≡ false = ground (arith, count) in
          rw long (ap key (is_text ∙ long_too))
    ]

session_key-agent :
    (l : Text)
    → all is_session_code l ≡ true
    → 1 ≤ length l
    → length l ≤ 120
    → session_key true (agent_prefix ++ (session_prefix ++ l))
      ≡ (if leb (length l) 96 then agent_prefix ++ (session_prefix ++ lower l) else default_session)
session_key-agent l h some_length short =
    let x = agent_prefix ++ (session_prefix ++ l) in
    key_of-trimmed x h
    ∙ ap (λ r. key_of true x r) (runtime_key-chosen l h some_length short)
    ∙ key_of-agent l h some_length

-- For an isolated agent, and a key that a client chooses of 1 to 120 of the allowed characters, not
-- itself an agent's key or one with the controller's prefix: if it has at most 96 characters, then to
-- normalise its normal form changes nothing; if it has more, then the normal form of its normal form
-- is the text of the default session, whatever the key.
pub session_key_again :
    (k : Text)
    → IsChosen k
    → session_key true (session_key true k)
      ≡ (if leb (length k) 96 then session_key true k else default_session)
session_key_again k h = rw (session_key-chosen k h) (
    session_key-agent (lower k) (lower-session k h.characters) (rw (length-lower k) h.not_empty)
      (rw (length-lower k) h.not_long)
    ∙ rw (length-lower k, lower_again k) refl)
