-- ===== src/Prelude/Trim.antt =====
-- s.trim() on strings, and that to trim twice is to trim once.
use Prim.Native.Char.{code}
use Prim.Native.String.{String}
use mathlib.Core.Path.{◌≡◌, refl, ap, ◌∙◌}
use mathlib.Core.Logic.{inl, inr}
use mathlib.Core.Bool.{not, ◌&&◌}
use teamclaw.Prelude.Tests.{if◌then◌else◌, str_truthy, Bool-cases}
use teamclaw.Prelude.Strings.{is_space}

unfoldable pub str_skip_spaces : String → String
unfolding is_space
str_skip_spaces String.[] = ""
str_skip_spaces (String.◌∷◌ c s) =
    let rest = str_skip_spaces s in if is_space (code c) then rest else String.◌∷◌ c s

-- s.trimEnd()
unfoldable pub str_trim_end : String → String
unfolding is_space
str_trim_end String.[] = ""
str_trim_end (String.◌∷◌ c s) =
    let rest = str_trim_end s in
    if is_space (code c) && not (str_truthy rest) then "" else String.◌∷◌ c rest

-- s.trim()
unfoldable pub str_trim : String → String
unfolding str_skip_spaces str_trim_end
str_trim s = str_trim_end (str_skip_spaces s)

trim_end_again : (s : String) → str_trim_end (str_trim_end s) ≡ str_trim_end s
unfolding str_trim_end
trim_end_again String.[] = refl
trim_end_again (String.◌∷◌ c s) =
    elim (Bool-cases (is_space (code c) && not (str_truthy (str_trim_end s)))) [
      | inl blank ↦ rw blank refl
      | inr kept ↦ rw kept (rw (trim_end_again s) (rw kept refl))
    ]

no_space_first :
    (s : String)
    → str_skip_spaces (str_trim_end (str_skip_spaces s)) ≡ str_trim_end (str_skip_spaces s)
unfolding str_trim_end str_skip_spaces
no_space_first String.[] = refl
no_space_first (String.◌∷◌ c s) = elim (Bool-cases (is_space (code c))) [
  | inl space ↦ rw space (no_space_first s)
  | inr other ↦ rw other (rw other (rw other refl))
]

pub str_trim_again : (s : String) → str_trim (str_trim s) ≡ str_trim s
unfolding str_trim
str_trim_again s = ap (λ t. str_trim_end t) (no_space_first s) ∙ trim_end_again (str_skip_spaces s)
