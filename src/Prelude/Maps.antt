-- ===== src/Prelude/Maps.antt =====
-- A JavaScript object used as a map from string keys, in the order of insertion.
use Prim.Native.String.{String}
use mathlib.Core.Path.{◌≡◌, refl}
use mathlib.Core.List.{List, [], ◌∷◌}
use mathlib.Core.Bool.{Bool, true}
use Prim.Native.Nat.{◌+◌, ◌≤◌}
use mathlib.Core.Option.{Option, none, some}
use native.Mathlib.Omega.{arith}
use text.Mathlib.Text.{◌==◌ as str_eq}
use text.Mathlib.TextEquality.{eq_iff}
use text.Mathlib.TextPositions.{eq_refl}
use teamclaw.Prelude.Tests.{if◌then◌else◌}
use teamclaw.Prelude.Lists.{length, count, any}

abbrev pub Dict {ℓ} : Type ℓ → Type ℓ
Dict V = List (String × V)

module _ {ℓ} {V : Type ℓ} where
  -- d[k]
  unfoldable pub get : Dict V → String → Option V
  get [] k = none
  get ((j, v) ∷ d) k = if str_eq j k then some v else get d k

  -- d[k] = v: in place for a key that is there, else at the end.
  unfoldable pub put : Dict V → String → V → Dict V
  put [] k v = (k, v) ∷ []
  put ((j, w) ∷ d) k v = if str_eq j k then (j, v) ∷ d else (j, w) ∷ put d k v

  -- delete d[k]
  unfoldable pub remove : Dict V → String → Dict V
  remove [] k = []
  remove ((j, v) ∷ d) k = let rest = remove d k in if str_eq j k then rest else (j, v) ∷ rest

  -- Object.values(d), Object.keys(d)
  abbrev pub values : Dict V → List V
  values [] = []
  values ((k, v) ∷ d) = v ∷ values d

  -- A change of the value at `k`, if there is one.
  unfoldable pub alter : Dict V → String → (V → V) → Dict V
  alter [] k f = []
  alter ((j, v) ∷ d) k f = if str_eq j k then (j, f v) ∷ d else (j, v) ∷ alter d k f

  abbrev pub map_option : (V → V) → Option V → Option V
  map_option f none = none
  map_option f (some v) = some (f v)

  -- A change of every value.
  abbrev pub map_values : (V → V) → Dict V → Dict V
  map_values f [] = []
  map_values f ((k, v) ∷ d) = (k, f v) ∷ map_values f d

  pub get-put :
      (d : Dict V) (k j : String) (v : V)
      → get (put d k v) j ≡ (if str_eq k j then some v else get d j)
  unfolding get put
  get-put [] k j v = refl
  get-put ((i, w) ∷ d) k j v = ground (arith, eq_iff k j, eq_iff i k, eq_iff i j, get-put d k j v)

  pub get-remove :
      (d : Dict V) (k j : String) → get (remove d k) j ≡ (if str_eq k j then none else get d j)
  unfolding get remove
  get-remove [] k j = ground arith
  get-remove ((i, w) ∷ d) k j = ground (arith, eq_iff k j, eq_iff i k, eq_iff i j, get-remove d k j)

  pub get-alter :
      (d : Dict V) (k j : String) (f : V → V)
      → get (alter d k f) j ≡ (if str_eq k j then map_option f (get d j) else get d j)
  unfolding get alter
  get-alter [] k j f = ground arith
  get-alter ((i, w) ∷ d) k j f =
      ground (arith, eq_iff k j, eq_iff i k, eq_iff i j, get-alter d k j f)

  pub get-alter_self :
      (d : Dict V) (k : String) (f : V → V) {v : V}
      → get d k ≡ some v
      → get (alter d k f) k ≡ some (f v)
  get-alter_self d k f h = rw (get-alter d k k f) (rw (eq_refl k) (rw h refl))

  pub get-map_values :
      (d : Dict V) (j : String) (f : V → V) → get (map_values f d) j ≡ map_option f (get d j)
  unfolding get
  get-map_values [] j f = refl
  get-map_values ((i, w) ∷ d) j f = ground (arith, get-map_values d j f)

  pub length-alter : (d : Dict V) (k : String) (f : V → V) → length (alter d k f) ≡ length d
  unfolding alter
  length-alter [] k f = refl
  length-alter ((i, w) ∷ d) k f = ground (arith, length-alter d k f)

pub ruleset dict_laws = (get-put, get-remove, get-alter, get-map_values)

module _ {ℓ} {V : Type ℓ} where
  pub count-put :
      (p : V → Bool) (d : Dict V) (k : String) (v : V)
      → get d k ≡ none
      → count p (values (put d k v)) ≡ count p (values d) + (if p v then 1 else 0)
  unfolding get put
  count-put p [] k v gone = ground arith
  count-put p ((j, w) ∷ d) k v gone = ground (arith, count-put p d k v)

  pub length-put_le : (d : Dict V) (k : String) (v : V) → length (put d k v) ≤ length d + 1
  unfolding put
  length-put_le [] k v = omega arith
  length-put_le ((j, w) ∷ d) k v = ground (arith, length-put_le d k v)

  pub any-put :
      (p : V → Bool) (d : Dict V) (k : String) (v : V)
      → p v ≡ true
      → any p (values (put d k v)) ≡ true
  unfolding put
  any-put p [] k v h = ground arith
  any-put p ((j, w) ∷ d) k v h = ground (arith, any-put p d k v)
