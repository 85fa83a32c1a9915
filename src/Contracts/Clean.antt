-- ===== src/Contracts/Clean.antt =====
-- Texts that the readers of a contract leave as they are.
use teamclaw.Prelude.{
  String, ◌≡◌, refl, inl, inr, Bool-cases, true, Option, none, some, List, [], ◌∷◌, map, filter,
  All, All-filter_holds, str_truthy, str_trim, str_trim_again, Option-cases, ap,
}
use teamclaw.Value.{
  Value, undefined, null, boolean, number, text, array, object, texts, option_text, list_of,
  items-of_list, of_list,
}
use teamclaw.Contracts.Fields.{
  trimmed, string_list, optional_text, contract_role, version_of, is_role, compact,
}

-- A text that is not empty and has no white space at its ends.
abbrev pub IsClean : String → Type 0
IsClean s = (str_trim s ≡ s) × (str_truthy s ≡ true)

abbrev pub IsCleanOption : Option String → Type 0
IsCleanOption none = Unit
IsCleanOption (some s) = IsClean s

abbrev pub IsRoleOption : Option String → Type 0
IsRoleOption none = Unit
IsRoleOption (some s) = (str_trim s ≡ s) × (is_role s ≡ true)

pub trimmed_again : (v : Value) → str_trim (trimmed v) ≡ trimmed v
unfolding trimmed str_trim
trimmed_again (text s) = str_trim_again s
trimmed_again undefined = refl
trimmed_again null = refl
trimmed_again (boolean b) = refl
trimmed_again (number n) = refl
trimmed_again (array vs) = refl
trimmed_again (object fs) = refl

-- What a reader returns is clean.
pub trimmed-IsClean : (v : Value) → str_truthy (trimmed v) ≡ true → IsClean (trimmed v)
trimmed-IsClean v h = (trimmed_again v, h)

map-trimmed-All : (vs : List Value) → All (λ s. str_trim s ≡ s) (map trimmed vs)
map-trimmed-All [] = tt
map-trimmed-All (v ∷ vs) = (trimmed_again v, map-trimmed-All vs)

pub string_list-IsClean : (v : Value) → All IsClean (string_list v)
unfolding string_list
string_list-IsClean v =
    All-filter_holds (λ s. str_trim s ≡ s) (λ s. str_truthy s) _ (map-trimmed-All (list_of v))

pub optional_text-IsClean : (v : Value) → IsCleanOption (optional_text v)
unfolding optional_text
optional_text-IsClean v = elim (Bool-cases (str_truthy (trimmed v))) [
  | inl full ↦ rw full (trimmed-IsClean v full)
  | inr empty ↦ rw empty tt
]

pub contract_role-IsRole : (v : Value) → IsRoleOption (contract_role v)
unfolding contract_role
contract_role-IsRole v = elim (Bool-cases (is_role (trimmed v))) [
  | inl role ↦ rw role (trimmed_again v, role)
  | inr other ↦ rw other tt
]

pub version_of-IsClean : (v : Value) → IsClean (version_of v)
unfolding version_of str_trim
version_of-IsClean v = elim (Bool-cases (str_truthy (trimmed v))) [
  | inl full ↦ rw full (trimmed-IsClean v full)
  | inr empty ↦ rw empty (refl, refl)
]

-- A clean value is read as it is.
pub trimmed-text : (s : String) → IsClean s → trimmed (text s) ≡ s
unfolding trimmed
trimmed-text s h = h.0

filter_clean :
    (ss : List String)
    → All IsClean ss
    → filter (λ s. str_truthy s) (map trimmed (map (λ s. text s) ss)) ≡ ss
unfolding trimmed
filter_clean [] h = refl
filter_clean (s ∷ ss) h = rw (h.0.0, h.0.1) (ap (λ r. s ∷ r) (filter_clean ss h.1))

pub string_list-texts : (ss : List String) → All IsClean ss → string_list (texts ss) ≡ ss
unfolding string_list
string_list-texts ss h = rw (items-of_list (map (λ s. text s) ss)) (filter_clean ss h)

pub optional_text-option_text :
    (o : Option String) → IsCleanOption o → optional_text (option_text o) ≡ o
unfolding optional_text trimmed
optional_text-option_text none h = refl
optional_text-option_text (some s) h = rw (h.0, h.1) refl

pub contract_role-option_text :
    (o : Option String) → IsRoleOption o → contract_role (option_text o) ≡ o
unfolding contract_role trimmed is_role
contract_role-option_text none h = refl
contract_role-option_text (some s) h = rw h.0 (rw h.1 refl)

-- A list of entries that are read one by one.
module _ {ℓ} {A : Type ℓ} (P : A → Type 0) where
  pub compact-All :
      (read : Value → Option A) (vs : List Value)
      → ((v : Value) (a : A) → read v ≡ some a → P a)
      → All P (compact (map read vs))
  compact-All read [] h = tt
  compact-All read (v ∷ vs) h = elim (Option-cases (read v)) [
    | inl none_read ↦ rw none_read (compact-All read vs h)
    | inr r ↦ rw r.1 (h v r.0 r.1, compact-All read vs h)
  ]

  pub compact_again :
      (read : Value → Option A) (write : A → Value) (xs : List A)
      → ((a : A) → P a → read (write a) ≡ some a)
      → All P xs
      → compact (map read (list_of (array (of_list (map write xs))))) ≡ xs
  compact_again read write [] h all_P = refl
  compact_again read write (x ∷ xs) h all_P =
      rw (h x all_P.0) (ap (λ r. x ∷ r) (compact_again read write xs h all_P.1))

pub version_of-text : (s : String) → IsClean s → version_of (text s) ≡ s
unfolding version_of trimmed
version_of-text s h = rw (h.0, h.1) refl
