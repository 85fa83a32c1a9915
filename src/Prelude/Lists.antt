-- ===== src/Prelude/Lists.antt =====
-- Lists measured by native numbers, the array methods that the program calls, and their laws.
use Prim.Native.Nat.{ℕ, zero, suc, ◌+◌, ◌-◌, ◌≤◌, min}
use mathlib.Core.Path.{◌≡◌, refl, ap}
use mathlib.Core.Logic.{◌⊎◌, inl, inr}
use mathlib.Core.Bool.{Bool, true, false, ◌&&◌, ◌||◌}
use mathlib.Core.List.{List, [], ◌∷◌, ◌++◌}
use mathlib.Core.Option.{Option, none, some}
use native.Mathlib.Omega.{arith}
use teamclaw.Prelude.Tests.{if◌then◌else◌, Bool-cases}

module _ {ℓ} {A : Type ℓ} where
  abbrev pub length : List A → ℕ
  length [] = 0
  length (x ∷ xs) = suc (length xs)

  abbrev pub take : ℕ → List A → List A
  take zero xs = []
  take (suc n) [] = []
  take (suc n) (x ∷ xs) = x ∷ take n xs

  abbrev pub drop : ℕ → List A → List A
  drop zero xs = xs
  drop (suc n) [] = []
  drop (suc n) (x ∷ xs) = drop n xs

  abbrev pub head? : List A → Option A
  head? [] = none
  head? (x ∷ xs) = some x

  abbrev pub last? : List A → Option A
  last? [] = none
  last? (x ∷ []) = some x
  last? (x ∷ y ∷ xs) = last? (y ∷ xs)

  -- xs.filter(p), xs.find(p), xs.some(p), xs.every(p)
  abbrev pub filter : (A → Bool) → List A → List A
  filter p [] = []
  filter p (x ∷ xs) = let rest = filter p xs in if p x then x ∷ rest else rest

  abbrev pub find : (A → Bool) → List A → Option A
  find p [] = none
  find p (x ∷ xs) = let rest = find p xs in if p x then some x else rest

  abbrev pub any : (A → Bool) → List A → Bool
  any p [] = false
  any p (x ∷ xs) = p x || any p xs

  abbrev pub all : (A → Bool) → List A → Bool
  all p [] = true
  all p (x ∷ xs) = p x && all p xs

  -- xs.filter(p).length
  abbrev pub count : (A → Bool) → List A → ℕ
  count p xs = length (filter p xs)

  -- xs.slice(-n), for n > 0
  abbrev pub take_last : ℕ → List A → List A
  take_last n xs = drop (length xs - n) xs

  pub length-append : (xs ys : List A) → length (xs ++ ys) ≡ length xs + length ys
  length-append [] ys = omega arith
  length-append (x ∷ xs) ys = omega (arith, length-append xs ys)

  pub length-drop : (n : ℕ) (xs : List A) → length (drop n xs) ≡ length xs - n
  length-drop zero xs = omega arith
  length-drop (suc n) [] = omega arith
  length-drop (suc n) (x ∷ xs) = omega (arith, length-drop n xs)

  pub length-take : (n : ℕ) (xs : List A) → length (take n xs) ≡ min n (length xs)
  length-take zero xs = omega arith
  length-take (suc n) [] = omega arith
  length-take (suc n) (x ∷ xs) = omega (arith, length-take n xs)

  pub length-take_last : (n : ℕ) (xs : List A) → length (take_last n xs) ≡ min n (length xs)
  length-take_last n xs = omega (arith, length-drop (length xs - n) xs)

  pub take-append-drop : (n : ℕ) (xs : List A) → take n xs ++ drop n xs ≡ xs
  take-append-drop zero xs = refl
  take-append-drop (suc n) [] = refl
  take-append-drop (suc n) (x ∷ xs) = ap (λ r. x ∷ r) (take-append-drop n xs)

  pub length-filter-le : (p : A → Bool) (xs : List A) → length (filter p xs) ≤ length xs
  length-filter-le p [] = omega arith
  length-filter-le p (x ∷ xs) = ground (arith, length-filter-le p xs)

  -- What `slice(-n)` keeps of a list to which an item was pushed.
  pub drop-concat :
      (k : ℕ) (xs : List A) (x : A) → k ≤ length xs → drop k (xs ++ x ∷ []) ≡ drop k xs ++ x ∷ []
  drop-concat zero xs x h = refl
  drop-concat (suc k) [] x h = absurd (omega arith)
  drop-concat (suc k) (y ∷ xs) x h = drop-concat k xs x (omega arith)

  pub last?-concat : (xs : List A) (x : A) → last? (xs ++ x ∷ []) ≡ some x
  last?-concat [] x = refl
  last?-concat (y ∷ []) x = refl
  last?-concat (y ∷ z ∷ xs) x = last?-concat (z ∷ xs) x

module _ {ℓ κ} {A : Type ℓ} (P : A → Type κ) where
  abbrev pub All : List A → Type κ
  All [] = Unit
  All (x ∷ xs) = P x × All xs

  pub All-append : (xs ys : List A) → All xs → All ys → All (xs ++ ys)
  All-append [] ys h k = k
  All-append (x ∷ xs) ys (p, h) k = (p, All-append xs ys h k)

  pub All-drop : (n : ℕ) (xs : List A) → All xs → All (drop n xs)
  All-drop zero xs h = h
  All-drop (suc n) [] h = h
  All-drop (suc n) (x ∷ xs) h = All-drop n xs h.1

  pub All-take : (n : ℕ) (xs : List A) → All xs → All (take n xs)
  All-take zero xs h = tt
  All-take (suc n) [] h = h
  All-take (suc n) (x ∷ xs) h = (h.0, All-take n xs h.1)

  pub All-filter : (p : A → Bool) (xs : List A) → All xs → All (filter p xs)
  All-filter p [] h = h
  All-filter p (x ∷ xs) (q, h) = ground (arith, All-filter p xs h)

  pub filter-All : (p : A → Bool) (xs : List A) → ((x : A) → p x ≡ true → P x) → All (filter p xs)
  filter-All p [] k = tt
  filter-All p (x ∷ xs) k = ground (arith, k x, filter-All p xs k)

  pub All_lem : (xs : List A) → ((x : A) → P x) → All xs
  All_lem [] k = tt
  All_lem (x ∷ xs) k = (k x, All_lem xs k)

pub All-map {ℓ κ μ} :
    {A : Type ℓ} (P : A → Type κ) (Q : A → Type μ) (xs : List A)
    → ((x : A) → P x → Q x)
    → All P xs
    → All Q xs
All-map P Q [] f h = tt
All-map P Q (x ∷ xs) f h = (f x h.0, All-map P Q xs f h.1)

pub All-if {ℓ κ} :
    {A : Type ℓ} (P : A → Type κ) (b : Bool) (xs : List A)
    → (b ≡ true → All P xs)
    → All P (if b then xs else [])
All-if P true xs h = h refl
All-if P false xs h = tt

pub take-append {ℓ} :
    {A : Type ℓ} (n : ℕ) (xs ys : List A) → n ≤ length xs → take n (xs ++ ys) ≡ take n xs
take-append zero xs ys h = refl
take-append (suc n) [] ys h = absurd (omega arith)
take-append (suc n) (x ∷ xs) ys h = ap (λ r. x ∷ r) (take-append n xs ys (omega arith))

pub count-any {ℓ} : {A : Type ℓ} (p : A → Bool) (xs : List A) → any p xs ≡ false → count p xs ≡ 0
count-any p [] h = refl
count-any p (x ∷ xs) h = ground (arith, count-any p xs)

-- What an optional value holds, or `a`.
get_some {ℓ} : {A : Type ℓ} → A → Option A → A
get_some a none = a
get_some a (some b) = b

pub some_inj {ℓ} : {A : Type ℓ} {a b : A} → Path (Option A) (some a) (some b) → a ≡ b
unfolding get_some
some_inj {a = a} e = ap (get_some a) e

pub none-some {ℓ} : {A : Type ℓ} {a : A} → Path (Option A) none (some a) → ⊥
none-some e = cc

module _ {ℓ} {A : Type ℓ} where
  pub data In (x : A) : List A → Type ℓ where
    first : {xs : List A} → In x (x ∷ xs)
    later : {y : A} {xs : List A} → In x xs → In x (y ∷ xs)

  pub find_lem :
      (p : A → Bool) (xs : List A)
      → ((find p xs ≡ none) × (any p xs ≡ false))
        ⊎ ((x : A) × (find p xs ≡ some x) × In x xs × (p x ≡ true))
  find_lem p [] = inl (refl, refl)
  find_lem p (x ∷ xs) = elim (Bool-cases (p x)) [
    | inl hit ↦ inr (x, rw hit refl, first, hit)
    | inr miss ↦ elim (find_lem p xs) [
      | inl h ↦ inl (rw miss h.0, rw miss h.1)
      | inr h ↦ inr (h.0, rw miss h.1, later h.2, h.3)
    ]
  ]

  pub head?-filter : (p : A → Bool) (xs : List A) → head? (filter p xs) ≡ find p xs
  head?-filter p [] = refl
  head?-filter p (x ∷ xs) = elim (Bool-cases (p x)) [
    | inl hit ↦ rw hit refl
    | inr miss ↦ rw miss (head?-filter p xs)
  ]

  pub any-In : (p : A → Bool) (xs : List A) (x : A) → In x xs → p x ≡ true → any p xs ≡ true
  any-In p [] x i h = elim i [ ]
  any-In p (y ∷ xs) _ first h = rw h refl
  any-In p (y ∷ xs) x (later i) h = ground (arith, any-In p xs x i h)

  pub In-append_left : (xs ys : List A) (x : A) → In x xs → In x (xs ++ ys)
  In-append_left [] ys x i = elim i [ ]
  In-append_left (y ∷ xs) ys _ first = first
  In-append_left (y ∷ xs) ys x (later i) = later (In-append_left xs ys x i)

  pub In-append_last : (xs : List A) (x : A) → In x (xs ++ x ∷ [])
  In-append_last [] x = first
  In-append_last (y ∷ xs) x = later (In-append_last xs x)

  pub In-filter : (p : A → Bool) (xs : List A) (x : A) → p x ≡ true → In x xs → In x (filter p xs)
  In-filter p [] x h i = elim i [ ]
  In-filter p (y ∷ xs) _ h first = rw h first
  In-filter p (y ∷ xs) x h (later i) = elim (Bool-cases (p y)) [
    | inl hit ↦ rw hit (later (In-filter p xs x h i))
    | inr miss ↦ rw miss (In-filter p xs x h i)
  ]

  pub any_ext : (p q : A → Bool) (xs : List A) → ((x : A) → p x ≡ q x) → any p xs ≡ any q xs
  any_ext p q [] h = refl
  any_ext p q (x ∷ xs) h = rw (h x, any_ext p q xs h) refl

  pub All-In : (xs : List A) → All (λ x. In x xs) xs
  All-In [] = tt
  All-In (x ∷ xs) =
      (first, All-map (λ y. In y xs) (λ y. In y (x ∷ xs)) xs (λ y i. later i) (All-In xs))

module _ {ℓ κ} {A : Type ℓ} (P : A → Type κ) where
  pub All-head : (xs : List A) (x : A) → All P xs → head? xs ≡ some x → P x
  unfolding get_some
  All-head [] x h e = absurd cc
  All-head (y ∷ xs) x h e = let same : y ≡ x = ap (λ o. get_some y o) e in rw same at h.0

  pub All-lookup : (xs : List A) (x : A) → All P xs → In x xs → P x
  All-lookup [] x h i = elim i [ ]
  All-lookup (_ ∷ xs) x h first = h.0
  All-lookup (y ∷ xs) x h (later i) = All-lookup xs x h.1 i

  pub All-filter_holds :
      (p : A → Bool) (xs : List A) → All P xs → All (λ x. P x × (p x ≡ true)) (filter p xs)
  All-filter_holds p [] h = tt
  All-filter_holds p (x ∷ xs) h = elim (Bool-cases (p x)) [
    | inl hit ↦ rw hit ((h.0, hit), All-filter_holds p xs h.1)
    | inr miss ↦ rw miss (All-filter_holds p xs h.1)
  ]
