-- ===== src/Prelude/Strings.antt =====
-- Text that the program walks, as a list of code points.
use Prim.Native.Char.{code}
use Prim.Native.String.{String}
use Prim.Native.Nat.{ℕ, zero, suc, ◌+◌, ◌/◌, ◌%◌}
use mathlib.Core.Path.{◌≡◌, refl, ap}
use mathlib.Core.Bool.{Bool, true, false, ◌&&◌, ◌||◌, not}
use mathlib.Core.List.{List, [], ◌∷◌, ◌++◌, map, append_assoc}
use text.Mathlib.TextLemmas.{nil-append, cons-append}
use native.Mathlib.Omega.{arith}
use teamclaw.Prelude.Tests.{leb, ltb, ◌==◌, if◌then◌else◌, ◌<>◌, str_truthy}

abbrev pub Text : Type 0
Text = List ℕ

abbrev pub codes : String → Text
codes String.[] = []
codes (String.◌∷◌ c s) = code c ∷ codes s

-- a === b
unfoldable pub text_eq : Text → Text → Bool
text_eq [] [] = true
text_eq [] (y ∷ b) = false
text_eq (x ∷ a) [] = false
text_eq (x ∷ a) (y ∷ b) = x == y && text_eq a b

pub text_eq_sound : (a b : Text) → text_eq a b ≡ true → a ≡ b
unfolding text_eq
text_eq_sound [] [] h = refl
text_eq_sound [] (y ∷ b) h = ground arith
text_eq_sound (x ∷ a) [] h = ground arith
text_eq_sound (x ∷ a) (y ∷ b) h = ground (arith, text_eq_sound a b)

pub text_eq_refl : (a : Text) → text_eq a a ≡ true
unfolding text_eq
text_eq_refl [] = refl
text_eq_refl (x ∷ a) = ground (arith, text_eq_refl a)

-- s.startsWith(p), s.includes(p)
unfoldable pub starts_with : Text → Text → Bool
starts_with s [] = true
starts_with [] (y ∷ p) = false
starts_with (x ∷ s) (y ∷ p) = x == y && starts_with s p

unfoldable pub includes : Text → Text → Bool
includes [] p = starts_with [] p
includes (x ∷ s) p = starts_with (x ∷ s) p || includes s p

pub starts_with-append : (p s : Text) → starts_with (p ++ s) p ≡ true
unfolding starts_with
starts_with-append [] s = refl
starts_with-append (x ∷ p) s = ground (arith, starts_with-append p s)

pub includes-append : (r p s : Text) → includes (r ++ (p ++ s)) p ≡ true
unfolding includes
includes-append [] [] [] = unfold starts_with in refl
includes-append [] [] (x ∷ s) = ground (arith, starts_with-append [] (x ∷ s))
includes-append [] (y ∷ p) s = ground (arith, starts_with-append (y ∷ p) s)
includes-append (x ∷ r) p s = ground (arith, includes-append r p s)

-- s.toLowerCase(), for the letters of ASCII only.
abbrev lower_code : ℕ → ℕ
lower_code c = if leb b'A' c && leb c b'Z' then c + 32 else c

abbrev pub lower : Text → Text
lower s = map lower_code s

-- \w
unfoldable pub is_word : ℕ → Bool
is_word c =
    leb b'0' c && leb c b'9' || leb b'a' (lower_code c) && leb (lower_code c) b'z' || c == b'_'

-- String(n)
abbrev digit : ℕ → String
digit n =
    if n == 0
    then "0"
    else if n == 1
    then "1"
    else if n == 2
    then "2"
    else if n == 3
    then "3"
    else if n == 4
    then "4"
    else if n == 5
    then "5"
    else if n == 6
    then "6"
    else if n == 7
    then "7"
    else if n == 8
    then "8"
    else "9"

decimal_from : ℕ → ℕ → String
decimal_from zero n = ""
decimal_from (suc fuel) n =
    let rest = decimal_from fuel (n / 10) in if ltb n 10 then digit n else rest <> digit (n % 10)

unfoldable pub decimal : ℕ → String
unfolding decimal_from
decimal n = decimal_from (n + 1) n

-- lines.join(sep)
unfoldable pub join : String → List String → String
join sep [] = ""
join sep (s ∷ []) = s
join sep (s ∷ t ∷ rest) = s <> (sep <> join sep (t ∷ rest))

-- s.split(sep)[0], for sep that is not empty: the text before the first `sep`.
unfoldable pub before : Text → Text → Text
before [] sep = []
before (x ∷ s) sep = let rest = before s sep in if starts_with (x ∷ s) sep then [] else x ∷ rest

-- The white space that `\s` and `trim` know.
abbrev between : ℕ → ℕ → ℕ → Bool
between lo hi c = leb lo c && leb c hi

unfoldable pub is_space : ℕ → Bool
is_space c =
    between 9 13 c
    || c == 32
    || c == 160
    || c == 0x1680
    || between 0x2000 0x200a c
    || c == 0x2028
    || c == 0x2029
    || c == 0x202f
    || c == 0x205f
    || c == 0x3000
    || c == 0xfeff

unfoldable pub is_digit : ℕ → Bool
is_digit c = between b'0' b'9' c

-- s.trim()
unfoldable pub skip_spaces : Text → Text
unfolding is_space
skip_spaces [] = []
skip_spaces (c ∷ s) = let rest = skip_spaces s in if is_space c then rest else c ∷ s

unfoldable pub trim_end : Text → Text
unfolding text_eq is_space
trim_end [] = []
trim_end (c ∷ s) = let rest = trim_end s in if is_space c && text_eq rest [] then [] else c ∷ rest

unfoldable pub trim : Text → Text
unfolding skip_spaces trim_end
trim s = trim_end (skip_spaces s)

-- s.split(/\s+/) with no empty pieces: the words of a text.
words_from : Text → Text → List Text
words_from [] cur = if text_eq cur [] then [] else cur ∷ []
words_from (c ∷ s) cur =
    let next = words_from s (if is_space c then [] else cur ++ c ∷ []) in
    if is_space c && not (text_eq cur []) then cur ∷ next else next

unfoldable pub words : Text → List Text
unfolding words_from text_eq is_space
words s = words_from s []

pub codes-append : (a b : String) → codes (a <> b) ≡ codes a ++ codes b
codes-append String.[] b = rw (nil-append b) refl
codes-append (String.◌∷◌ c a) b = rw (cons-append c a b) (ap (λ r. code c ∷ r) (codes-append a b))

-- A text holds its third part.
pub includes_third : (a b p s : String) → includes (codes (a <> (b <> (p <> s)))) (codes p) ≡ true
includes_third a b p s =
    rw
      (
        codes-append a (b <> (p <> s)),
        codes-append b (p <> s),
        codes-append p s,
        ← append_assoc (codes a) (codes b) (codes p ++ codes s),
      )
      (includes-append (codes a ++ codes b) (codes p) (codes s))

starts_with_more : (s p m : Text) → starts_with s p ≡ true → starts_with (s ++ m) p ≡ true
unfolding starts_with
starts_with_more [] [] [] h = refl
starts_with_more [] [] (x ∷ m) h = refl
starts_with_more [] (y ∷ p) m h = absurd (ground arith)
starts_with_more (x ∷ s) [] m h = refl
starts_with_more (x ∷ s) (y ∷ p) m h = ground (arith, starts_with_more s p m)

pub starts_with_prefix :
    (s p m : String)
    → starts_with (codes s) (codes p) ≡ true
    → starts_with (codes (s <> m)) (codes p) ≡ true
starts_with_prefix s p m h =
    rw (codes-append s m) (starts_with_more (codes s) (codes p) (codes m) h)

pub str_truthy_prefix : (s m : String) → str_truthy s ≡ true → str_truthy (s <> m) ≡ true
str_truthy_prefix String.[] m h = absurd (ground arith)
str_truthy_prefix (String.◌∷◌ c s) m h = rw (cons-append c s m) refl
