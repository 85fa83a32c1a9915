-- ===== src/Manifest/Roles.antt =====
-- The roles of a plan are distinct, and are read again as they are.
use teamclaw.Prelude.{
  String, ◌≡◌, refl, ap, inl, inr, Bool, Bool-cases, true, false, List, [], ◌∷◌, map, filter, any,
  str_eq, str_trim, All, All-filter_holds, arith,
}
use teamclaw.Value.{Value, text, texts, items-of_list, list_of}
use teamclaw.Contracts.Fields.{trimmed, is_role}
use teamclaw.Contracts.Clean.{trimmed_again}
use teamclaw.Contracts.Backfill.{unique_after}
use teamclaw.Manifest.{role_list}

abbrev is_in : List String → String → Bool
is_in seen s = any (λ t. str_eq t s) seen

-- No text stands twice, nor among those seen.
abbrev pub Distinct : List String → List String → Type 0
Distinct seen [] = Unit
Distinct seen (s ∷ ss) = (is_in seen s ≡ false) × Distinct (s ∷ seen) ss

Distinct-fewer :
    (seen fewer ss : List String)
    → ((s : String) → is_in seen s ≡ false → is_in fewer s ≡ false)
    → Distinct seen ss
    → Distinct fewer ss
Distinct-fewer seen fewer [] h d = tt
Distinct-fewer seen fewer (s ∷ ss) h d =
    (h s d.0, Distinct-fewer (s ∷ seen) (s ∷ fewer) ss (λ t new. ground (arith, h t)) d.1)

pub unique_after-Distinct : (seen ss : List String) → Distinct seen (unique_after seen ss)
unique_after-Distinct seen [] = tt
unique_after-Distinct seen (s ∷ ss) = elim (Bool-cases (is_in seen s)) [
  | inl old ↦ rw old (
      Distinct-fewer (s ∷ seen) seen (unique_after (s ∷ seen) ss) (λ t new. ground arith)
        (unique_after-Distinct (s ∷ seen) ss))
  | inr new ↦ rw new (new, unique_after-Distinct (s ∷ seen) ss)
]

unique_after-same : (seen ss : List String) → Distinct seen ss → unique_after seen ss ≡ ss
unique_after-same seen [] d = refl
unique_after-same seen (s ∷ ss) d = rw d.0 (ap (λ r. s ∷ r) (unique_after-same (s ∷ seen) ss d.1))

module _ (P : String → Type 0) where
  pub unique_after-All : (seen ss : List String) → All P ss → All P (unique_after seen ss)
  unique_after-All seen [] h = tt
  unique_after-All seen (s ∷ ss) h = elim (Bool-cases (is_in seen s)) [
    | inl old ↦ rw old (unique_after-All (s ∷ seen) ss h.1)
    | inr new ↦ rw new (h.0, unique_after-All (s ∷ seen) ss h.1)
  ]

abbrev IsRole : String → Type 0
IsRole s = (str_trim s ≡ s) × (is_role s ≡ true)

pub record IsRoleList (rs : List String) : Type 0 where
  pub roles : All IsRole rs
  pub distinct : Distinct [] rs

trimmed-All : (vs : List Value) → All (λ s. str_trim s ≡ s) (map trimmed vs)
trimmed-All [] = tt
trimmed-All (v ∷ vs) = (trimmed_again v, trimmed-All vs)

pub role_list-IsRoleList : (v : Value) → IsRoleList (role_list v)
unfolding role_list
role_list-IsRoleList v =
    let roles = filter is_role (map trimmed (list_of v)) in
    record {
      roles =
          unique_after-All IsRole [] roles
            (All-filter_holds (λ s. str_trim s ≡ s) is_role _ (trimmed-All (list_of v)));
      distinct = unique_after-Distinct [] roles;
    }

filter_roles :
    (rs : List String) → All IsRole rs → filter is_role (map trimmed (map (λ s. text s) rs)) ≡ rs
unfolding trimmed
filter_roles [] h = refl
filter_roles (s ∷ ss) h = rw h.0.0 (rw h.0.1 (ap (λ r. s ∷ r) (filter_roles ss h.1)))

pub role_list-texts : (rs : List String) → IsRoleList rs → role_list (texts rs) ≡ rs
unfolding role_list
role_list-texts rs h =
    rw (items-of_list (map (λ s. text s) rs), filter_roles rs h.roles)
      (unique_after-same [] rs h.distinct)
