-- ===== src/Cleanup/Purge.antt =====
-- Deleting the entries of a map whose values pass a test, each by the id of its value.
use teamclaw.Prelude.{
  String, ◌≡◌, inl, inr, refl, Bool, Bool-cases, true, false, none, some, List, [], ◌∷◌, map,
  filter, any, Dict, get, remove, values, get-remove, In, first, later, str_eq, eq_iff, eq_refl,
  arith, if◌then◌else◌, some_inj, none-some, ◌∙◌, sym, ap,
}

module _ {ℓ} {V : Type ℓ} where
  unfoldable pub remove_all : List String → Dict V → Dict V
  unfolding remove
  remove_all [] d = d
  remove_all (i ∷ is) d = remove_all is (remove d i)

  -- for (const v of Object.values(d)) if (p(v)) delete d[v.id]
  unfoldable pub purge : (V → String) → (V → Bool) → Dict V → Dict V
  unfolding remove_all
  purge id p d = remove_all (map id (filter p (values d))) d

  get-remove_all :
      (is : List String) (d : Dict V) (j : String)
      → get (remove_all is d) j ≡ (if any (λ i. str_eq i j) is then none else get d j)
  unfolding remove_all
  get-remove_all [] d j = refl
  get-remove_all (i ∷ is) d j = ground (arith, get-remove_all is (remove d i) j, get-remove d i j)

  pub In-get : (d : Dict V) (k : String) (v : V) → get d k ≡ some v → In v (values d)
  unfolding get
  In-get [] k v h = absurd (none-some h)
  In-get ((j, w) ∷ d) k v h = elim (Bool-cases (str_eq j k)) [
    | inl here ↦ rw (some_inj (rw here at h)) first
    | inr there ↦ later (In-get d k v (rw there at h))
  ]

  pub any-ids :
      (id : V → String) (p : V → Bool) (vs : List V) (v : V)
      → In v vs
      → p v ≡ true
      → any (λ i. str_eq i (id v)) (map id (filter p vs)) ≡ true
  any-ids id p [] v i h = elim i [ ]
  any-ids id p (_ ∷ vs) v first h = rw h (rw (eq_refl (id v)) refl)
  any-ids id p (w ∷ vs) v (later i) h = elim (Bool-cases (p w)) [
    | inl hit ↦ rw hit (ground (arith, any-ids id p vs v i h))
    | inr miss ↦ rw miss (any-ids id p vs v i h)
  ]

  pub any-ids_found :
      (id : V → String) (p : V → Bool) (vs : List V) (k : String)
      → any (λ i. str_eq i k) (map id (filter p vs)) ≡ true
      → (v : V) × In v vs × (p v ≡ true) × (id v ≡ k)
  any-ids_found id p [] k h = absurd (ground arith)
  any-ids_found id p (w ∷ vs) k h = elim (Bool-cases (p w)) [
    | inr miss ↦ let r = any-ids_found id p vs k (rw miss at h) in (r.0, later r.1, r.2, r.3)
    | inl hit ↦ elim (Bool-cases (str_eq (id w) k)) [
      | inl here ↦ (w, first, hit, ground (arith, eq_iff (id w) k))
      | inr there ↦
          let tail : any (λ i. str_eq i k) (map id (filter p vs)) ≡ true =
            rw there at (rw hit at h) in
          let r = any-ids_found id p vs k tail in (r.0, later r.1, r.2, r.3)
    ]
  ]

-- Each value stands under its id, and only there.
pub record IsKeyed {ℓ} {V : Type ℓ} (id : V → String) (d : Dict V) : Type ℓ where
  pub id_of : (k : String) (v : V) → get d k ≡ some v → id v ≡ k
  pub found : (v : V) → In v (values d) → get d (id v) ≡ some v

module _ {ℓ} {V : Type ℓ} (id : V → String) (p : V → Bool) (d : Dict V) where
  -- What is found after a purge was there before, and fails the test if it stood under its id.
  pub get-purge_before : (k : String) (v : V) → get (purge id p d) k ≡ some v → get d k ≡ some v
  unfolding purge
  get-purge_before k v h =
      elim (Bool-cases (any (λ i. str_eq i k) (map id (filter p (values d))))) [
        | inl gone ↦
            absurd
              (none-some (rw gone at (rw (get-remove_all (map id (filter p (values d))) d k) at h)))
        | inr kept ↦ rw kept at (rw (get-remove_all (map id (filter p (values d))) d k) at h)
      ]

  pub get-purge_fails :
      ((k : String) (v : V) → get d k ≡ some v → id v ≡ k)
      → (k : String) (v : V) → get (purge id p d) k ≡ some v
      → p v ≡ false
  unfolding purge
  get-purge_fails id_of k v h = elim (Bool-cases (p v)) [
    | inr fails ↦ fails
    | inl passes ↦
        let before = get-purge_before k v h in
        let removed : any (λ i. str_eq i k) (map id (filter p (values d))) ≡ true =
          rw (id_of k v before) at (any-ids id p (values d) v (In-get d k v before) passes) in
        absurd
          (none-some (rw removed at (rw (get-remove_all (map id (filter p (values d))) d k) at h)))
  ]

module _ {ℓ} {V : Type ℓ} (id : V → String) (p : V → Bool) (d : Dict V) (keyed : IsKeyed id d) where
  -- A value that passes the test is gone; each other one stays.
  pub get-purge_gone :
      (k : String) (v : V) → get d k ≡ some v → p v ≡ true → get (purge id p d) k ≡ none
  unfolding purge
  get-purge_gone k v h passes =
      let same = keyed.id_of k v h in
      rw (get-remove_all (map id (filter p (values d))) d k)
        (rw (rw same at (any-ids id p (values d) v (In-get d k v h) passes)) refl)

  pub get-purge_kept :
      (k : String) (v : V) → get d k ≡ some v → p v ≡ false → get (purge id p d) k ≡ some v
  unfolding purge
  get-purge_kept k v h fails =
      rw (get-remove_all (map id (filter p (values d))) d k)
        (elim (Bool-cases (any (λ i. str_eq i k) (map id (filter p (values d))))) [
          | inr kept ↦ rw kept h
          | inl gone ↦
              let r = any-ids_found id p (values d) k gone in
              let same : r.0 ≡ v = some_inj (sym (rw r.3 at (keyed.found r.0 r.1)) ∙ h) in
              absurd (let clash : true ≡ false = sym r.2 ∙ ap p same ∙ fails in cc)
        ])

found_one {ℓ} :
    {V : Type ℓ} (id : V → String) (v w : V) → In w (v ∷ []) → get ((id v, v) ∷ []) (id w) ≡ some w
unfolding get
found_one id v _ first = rw (eq_refl (id v)) refl
found_one id v w (later i) = elim i [ ]

pub IsKeyed-one {ℓ} : {V : Type ℓ} (id : V → String) (v : V) → IsKeyed id ((id v, v) ∷ [])
unfolding get
IsKeyed-one id v = record {
  id_of = (λ k w h. elim (Bool-cases (str_eq (id v) k)) [
    | inl here ↦
        let same : v ≡ w = some_inj (rw here at h) in
        let key : id v ≡ k = ground (arith, eq_iff (id v) k) in sym (ap id same) ∙ key
    | inr there ↦ absurd (none-some (rw there at h))
  ]);
  found = (λ w i. found_one id v w i);
}
