-- ===== src/State/Setting.antt =====
-- Fields that are set and removed, as they are read afterwards.
use teamclaw.Prelude.{
  String, Bool-cases, true, ◌≡◌, refl, ap, sym, inl, inr, str_eq, eq_refl, eq_iff, if◌then◌else◌,
  arith,
}
use teamclaw.Value.{Value, Fields, end, with, lookup, truthy, undefined}
use teamclaw.State.{set, unset, assign, is_undefined}

pub lookup-set :
    (fs : Fields) (n m : String) (v : Value)
    → lookup (set fs n v) m ≡ (if str_eq n m then v else lookup fs m)
unfolding set
lookup-set end n m v = refl
lookup-set (with k w fs) n m v = elim (Bool-cases (str_eq k n)) [
  | inl here ↦ rw here (ground (arith, eq_iff k n))
  | inr later ↦ elim (Bool-cases (str_eq k m)) [
    | inl found ↦ rw (later, found) (ground (arith, eq_iff k m, eq_iff k n, eq_iff n m))
    | inr on ↦ rw (later, on) (lookup-set fs n m v)
  ]
]

pub lookup-unset :
    (fs : Fields) (n m : String)
    → lookup (unset fs n) m ≡ (if str_eq n m then undefined else lookup fs m)
unfolding unset
lookup-unset end n m = ground arith
lookup-unset (with k w fs) n m = elim (Bool-cases (str_eq k n)) [
  | inl here ↦ rw here (ground (arith, eq_iff k n, eq_iff k m, eq_iff n m, lookup-unset fs n m))
  | inr later ↦ elim (Bool-cases (str_eq k m)) [
    | inl found ↦ rw (later, found) (ground (arith, eq_iff k m, eq_iff k n, eq_iff n m))
    | inr on ↦ rw (later, on) (lookup-unset fs n m)
  ]
]

-- Setting a field to what it holds changes nothing.
pub set-lookup :
    (fs : Fields) (n : String) (v : Value) → lookup fs n ≡ v → truthy v ≡ true → set fs n v ≡ fs
unfolding set
set-lookup end n v h t = absurd (ground (arith, h, t))
set-lookup (with k w fs) n v h t = elim (Bool-cases (str_eq k n)) [
  | inl here ↦ rw here (ap (λ x. with k x fs) (sym (rw here at h)))
  | inr later ↦ rw later (ap (λ x. with k w x) (set-lookup fs n v (rw later at h) t))
]

pub set_again : (fs : Fields) (n : String) (v : Value) → set (set fs n v) n v ≡ set fs n v
unfolding set
set_again end n v = rw (eq_refl n) refl
set_again (with k w fs) n v = elim (Bool-cases (str_eq k n)) [
  | inl here ↦ rw (here, set, here) refl
  | inr later ↦ rw (later, set, later) (ap (λ x. with k w x) (set_again fs n v))
]

unset_again : (fs : Fields) (n : String) → unset (unset fs n) n ≡ unset fs n
unfolding unset
unset_again end n = refl
unset_again (with k w fs) n = elim (Bool-cases (str_eq k n)) [
  | inl here ↦ rw here (unset_again fs n)
  | inr later ↦ rw (later, unset, later) (ap (λ x. with k w x) (unset_again fs n))
]

undefined_lem : (v : Value) → is_undefined v ≡ true → v ≡ undefined
undefined_lem v h = ground arith

pub assign_again :
    (fs : Fields) (n : String) (v : Value) → assign (assign fs n v) n v ≡ assign fs n v
unfolding assign
assign_again fs n v = elim (Bool-cases (is_undefined v)) [
  | inl gone ↦ rw (gone, assign) (unset_again fs n)
  | inr there ↦ rw (there, assign) (set_again fs n v)
]

pub lookup-assign :
    (fs : Fields) (n m : String) (v : Value)
    → lookup (assign fs n v) m ≡ (if str_eq n m then v else lookup fs m)
unfolding assign
lookup-assign fs n m v = elim (Bool-cases (is_undefined v)) [
  | inl gone ↦ rw (undefined_lem v gone, assign) (lookup-unset fs n m)
  | inr there ↦ rw (there, assign) (lookup-set fs n m v)
]
