-- ===== src/Manifest/Key.antt =====
-- The key of a project: `deriveStableProjectKey` of src/src/openclaw-workspace.ts. It names a directory.
use Prim.Native.Char
use Prim.Native.Char.{code}
use teamclaw.Prelude.{
  ℕ, zero, suc, String, ◌≡◌, ◌≤◌, ◌-◌, inl, inr, refl, ap, Bool, true, false, ◌&&◌, ◌||◌, not, leb,
  ◌==◌, if◌then◌else◌, str_truthy, str_take, str_trim, str_trim_end, str_skip_spaces, is_space,
  Bool-cases, arith,
}
use text.Mathlib.TextEquality.{Char-path}
use teamclaw.Contracts.Backfill.{str_length}

-- [a-z0-9]
abbrev is_key_code : ℕ → Bool
is_key_code c = leb b'0' c && leb c b'9' || leb b'a' c && leb c b'z'

abbrev dash : Char.Char
dash = Char.char b'-' tt

abbrev char_at : ℕ → String → Char.Char
char_at n String.[] = Char.nul
char_at zero (String.◌∷◌ c s) = c
char_at (suc n) (String.◌∷◌ c s) = char_at n s

-- c.toLowerCase(), for the letters of ASCII.
lower_char : Char.Char → Char.Char
lower_char c =
    if leb b'A' (code c) && leb (code c) b'Z'
    then char_at (code c - b'A') "abcdefghijklmnopqrstuvwxyz"
    else c

-- s.toLowerCase().replace(/[^a-z0-9]+/g, "-"), after a replaced character or not.
dashed : Bool → String → String
unfolding lower_char
dashed after String.[] = ""
dashed after (String.◌∷◌ c s) =
    let l = lower_char c in
    let rest = dashed (not (is_key_code (code l))) s in
    if is_key_code (code l) then String.◌∷◌ l rest else if after then rest else String.◌∷◌ dash rest

-- s.replace(/^-+/, "") and s.replace(/-+$/, "")
skip_dashes : String → String
skip_dashes String.[] = ""
skip_dashes (String.◌∷◌ c s) =
    let rest = skip_dashes s in if code c == b'-' then rest else String.◌∷◌ c s

unfoldable pub drop_dashes_end : String → String
drop_dashes_end String.[] = ""
drop_dashes_end (String.◌∷◌ c s) =
    let rest = drop_dashes_end s in
    if code c == b'-' && not (str_truthy rest) then "" else String.◌∷◌ c rest

-- `deriveStableProjectKey`
unfoldable pub project_key : String → String
unfolding dashed skip_dashes drop_dashes_end
project_key s = drop_dashes_end (str_take 50 (drop_dashes_end (skip_dashes (dashed false s))))

-- Only [a-z0-9] and single dashes, after a dash or not.
abbrev pub key_from : Bool → String → Bool
key_from after String.[] = true
key_from after (String.◌∷◌ c s) =
    (if code c == b'-' then not after else is_key_code (code c)) && key_from (code c == b'-') s

dashed-key_from : (after : Bool) (s : String) → key_from after (dashed after s) ≡ true
unfolding dashed
dashed-key_from after String.[] = refl
dashed-key_from after (String.◌∷◌ c s) = elim (Bool-cases (is_key_code (code (lower_char c)))) [
  | inl key ↦ ground (arith, dashed-key_from false s)
  | inr other ↦ ground (arith, dashed-key_from true s)
]

skip_dashes-key_from :
    (after : Bool) (s : String) → key_from after s ≡ true → key_from true (skip_dashes s) ≡ true
unfolding skip_dashes
skip_dashes-key_from after String.[] h = refl
skip_dashes-key_from after (String.◌∷◌ c s) h = ground (arith, skip_dashes-key_from true s)

take-key_from :
    (n : ℕ) (after : Bool) (s : String)
    → key_from after s ≡ true
    → key_from after (str_take n s) ≡ true
take-key_from zero after s h = refl
take-key_from (suc n) after String.[] h = refl
take-key_from (suc n) after (String.◌∷◌ c s) h = ground (arith, take-key_from n (code c == b'-') s)

end-key_from :
    (after : Bool) (s : String)
    → key_from after s ≡ true
    → key_from after (drop_dashes_end s) ≡ true
unfolding drop_dashes_end
end-key_from after String.[] h = refl
end-key_from after (String.◌∷◌ c s) h =
    elim (Bool-cases (code c == b'-' && not (str_truthy (drop_dashes_end s)))) [
      | inl blank ↦ rw blank refl
      | inr kept ↦ rw kept (ground (arith, end-key_from (code c == b'-') s))
    ]

not_space : (n : ℕ) → is_key_code n || n == b'-' ≡ true → is_space n ≡ false
unfolding is_space
not_space n h = ground arith

is_key_char :
    (after : Bool) (n : ℕ)
    → (if n == b'-' then not after else is_key_code n) ≡ true
    → is_key_code n || n == b'-' ≡ true
is_key_char after n h = ground arith

lower_char-same : (c : Char.Char) → is_key_code (code c) || code c == b'-' ≡ true → lower_char c ≡ c
unfolding lower_char
lower_char-same c h =
    let small : leb b'A' (code c) && leb (code c) b'Z' ≡ false = ground arith in rw small refl

hyphen_lem : (n : ℕ) → (n == b'-') ≡ true → is_key_code n ≡ false
hyphen_lem n h = ground arith

not_after :
    (n : ℕ) (after rest : Bool)
    → (n == b'-') ≡ true
    → (if n == b'-' then not after else is_key_code n) && rest ≡ true
    → after ≡ false
not_after n after rest d h = ground arith

key_lem :
    (n : ℕ) (after rest : Bool)
    → (n == b'-') ≡ false
    → (if n == b'-' then not after else is_key_code n) && rest ≡ true
    → is_key_code n ≡ true
key_lem n after rest d h = ground arith

dashed-same : (after : Bool) (s : String) → key_from after s ≡ true → dashed after s ≡ s
unfolding dashed
dashed-same after String.[] h = refl
dashed-same after (String.◌∷◌ c s) h = elim (Bool-cases (code c == b'-')) [
  | inl hyphen ↦
      rw
        (
          lower_char-same c (ground (arith, is_key_char after (code c))),
          hyphen_lem (code c) hyphen,
          not_after (code c) after (key_from (code c == b'-') s) hyphen h,
          dashed-same true s (ground arith),
        )
        (ap (λ d. String.◌∷◌ d s) (Char-path dash c (ground arith)))
  | inr other ↦
      rw
        (
          lower_char-same c (ground (arith, is_key_char after (code c))),
          key_lem (code c) after (key_from (code c == b'-') s) other h,
          dashed-same false s (ground arith),
        )
        refl
]

skip_dashes-same : (s : String) → key_from true s ≡ true → skip_dashes s ≡ s
unfolding skip_dashes
skip_dashes-same String.[] h = refl
skip_dashes-same (String.◌∷◌ c s) h = ground arith

weaken-key_from : (s : String) → key_from true s ≡ true → key_from false s ≡ true
weaken-key_from String.[] h = refl
weaken-key_from (String.◌∷◌ c s) h = ground arith

end_again : (s : String) → drop_dashes_end (drop_dashes_end s) ≡ drop_dashes_end s
unfolding drop_dashes_end
end_again String.[] = refl
end_again (String.◌∷◌ c s) =
    elim (Bool-cases (code c == b'-' && not (str_truthy (drop_dashes_end s)))) [
      | inl blank ↦ rw blank refl
      | inr kept ↦ rw kept (rw (end_again s) (rw kept refl))
    ]

length-end : (s : String) → str_length (drop_dashes_end s) ≤ str_length s
unfolding drop_dashes_end str_length
length-end String.[] = omega arith
length-end (String.◌∷◌ c s) = ground (arith, length-end s)

length-str_take : (n : ℕ) (s : String) → str_length (str_take n s) ≤ n
unfolding str_length
length-str_take zero s = omega arith
length-str_take (suc n) String.[] = omega arith
length-str_take (suc n) (String.◌∷◌ c s) = omega (arith, length-str_take n s)

take_all : (n : ℕ) (s : String) → str_length s ≤ n → str_take n s ≡ s
unfolding str_length
take_all zero String.[] h = refl
take_all zero (String.◌∷◌ c s) h = absurd (omega arith)
take_all (suc n) String.[] h = refl
take_all (suc n) (String.◌∷◌ c s) h = ap (λ r. String.◌∷◌ c r) (take_all n s (omega arith))

trim_end-same : (after : Bool) (s : String) → key_from after s ≡ true → str_trim_end s ≡ s
unfolding str_trim_end
trim_end-same after String.[] h = refl
trim_end-same after (String.◌∷◌ c s) h =
    rw (not_space (code c) (ground (arith, is_key_char after (code c))))
      (ap (λ r. String.◌∷◌ c r) (trim_end-same (code c == b'-') s (ground arith)))

skip_spaces-same : (after : Bool) (s : String) → key_from after s ≡ true → str_skip_spaces s ≡ s
unfolding str_skip_spaces
skip_spaces-same after String.[] h = refl
skip_spaces-same after (String.◌∷◌ c s) h =
    rw (not_space (code c) (ground (arith, is_key_char after (code c)))) refl

-- A key: letters, digits and single dashes, no dash at either end, and at most 50 characters.
pub record IsKey (k : String) : Type 0 where
  pub characters : key_from true k ≡ true
  pub last : drop_dashes_end k ≡ k
  pub size : str_length k ≤ 50

project_key-same : (k : String) → IsKey k → project_key k ≡ k
unfolding project_key
project_key-same k h =
    rw
      (
        dashed-same false k (weaken-key_from k h.characters),
        skip_dashes-same k h.characters,
        h.last,
        take_all 50 k h.size,
        h.last,
      )
      refl

project_key-IsKey : (s : String) → IsKey (project_key s)
unfolding project_key
project_key-IsKey s =
    let start = drop_dashes_end (skip_dashes (dashed false s)) in
    let start_key =
      end-key_from true (skip_dashes (dashed false s))
        (skip_dashes-key_from false (dashed false s) (dashed-key_from false s)) in
    record {
      characters = end-key_from true (str_take 50 start) (take-key_from 50 true start start_key);
      last = end_again (str_take 50 start);
      size = omega (arith, length-end (str_take 50 start), length-str_take 50 start);
    }

-- The key of any text holds only small letters, digits and single dashes, has no dash at either end
-- and at most 50 characters, and it is its own key. It may be empty.
pub project_key_lem :
    (s : String) → IsKey (project_key s) × (project_key (project_key s) ≡ project_key s)
project_key_lem s = (project_key-IsKey s, project_key-same (project_key s) (project_key-IsKey s))

pub project_key-trim : (s : String) → str_trim (project_key s) ≡ project_key s
unfolding str_trim
project_key-trim s =
    let key = (project_key-IsKey s).characters in
    rw (skip_spaces-same true (project_key s) key) (trim_end-same true (project_key s) key)
