-- ===== src/Provisioning/Records.antt =====
-- Records of managed workers that are closed, and what keeps them so.
use teamclaw.Prelude.{
  ℕ, String, ◌≡◌, ◌≢◌, inl, inr, ◌∙◌, sym, true, Option, none, some, [], ◌∷◌, arith, Bool-cases,
  Dict, get, put, alter, str_eq, eq_iff, none-some,
}
use teamclaw.Team.{WorkerInfo, ProvisionRecord}
use teamclaw.Provisioning.{is_closed, refresh_records, refreshed, is_expired}

-- Every record stands once.
abbrev pub IsUnique : Dict ProvisionRecord → Type 0
IsUnique [] = Unit
IsUnique ((k, r) ∷ d) = (get d k ≡ none) × IsUnique d

-- Every record of the worker is closed.
abbrev pub IsClosed : String → Dict ProvisionRecord → Type 0
IsClosed id [] = Unit
IsClosed id ((k, r) ∷ d) = (k ≡ id → is_closed r.status ≡ true) × IsClosed id d

none-IsClosed : (id : String) (d : Dict ProvisionRecord) → get d id ≡ none → IsClosed id d
unfolding get
none-IsClosed id [] h = tt
none-IsClosed id ((k, r) ∷ d) h = elim (Bool-cases (str_eq k id)) [
  | inl hit ↦ absurd (none-some (sym (rw hit at h)))
  | inr miss ↦
      ((λ e. absurd (ground (arith, eq_iff k id, miss, e))), none-IsClosed id d (rw miss at h))
]

pub alter-IsClosed :
    (id k : String) (d : Dict ProvisionRecord) (f : ProvisionRecord → ProvisionRecord)
    → ((r : ProvisionRecord) → k ≡ id → is_closed r.status ≡ true → is_closed (f r).status ≡ true)
    → IsClosed id d
    → IsClosed id (alter d k f)
unfolding alter
alter-IsClosed id k [] f keep h = tt
alter-IsClosed id k ((j, r) ∷ d) f keep h = elim (Bool-cases (str_eq j k)) [
  | inl hit ↦ rw hit ((λ e. keep r (sym ((eq_iff j k).0 hit) ∙ e) (h.0 e)), h.1)
  | inr miss ↦ rw miss (h.0, alter-IsClosed id k d f keep h.1)
]

pub termination-IsClosed :
    (id : String) (d : Dict ProvisionRecord) (f : ProvisionRecord → ProvisionRecord)
    → ((r : ProvisionRecord) → is_closed (f r).status ≡ true)
    → IsUnique d
    → IsClosed id (alter d id f)
unfolding alter
termination-IsClosed id [] f shut unique = tt
termination-IsClosed id ((j, r) ∷ d) f shut unique = elim (Bool-cases (str_eq j id)) [
  | inl hit ↦
      let e : j ≡ id = (eq_iff j id).0 hit in
      rw hit ((λ e. shut r), none-IsClosed id d (rw e at unique.0))
  | inr miss ↦ rw miss (
    (λ e. absurd (ground (arith, eq_iff j id, miss, e))),
    termination-IsClosed id d f shut unique.1,
  )
]

pub put-IsClosed :
    (id k : String) (d : Dict ProvisionRecord) (r : ProvisionRecord)
    → k ≢ id
    → IsClosed id d
    → IsClosed id (put d k r)
unfolding put
put-IsClosed id k [] r other h = ((λ e. absurd (other e)), tt)
put-IsClosed id k ((j, q) ∷ d) r other h = elim (Bool-cases (str_eq j k)) [
  | inl hit ↦ rw hit ((λ e. absurd (other (sym ((eq_iff j k).0 hit) ∙ e))), h.1)
  | inr miss ↦ rw miss (h.0, put-IsClosed id k d r other h.1)
]

closed_refreshed :
    (now : ℕ) (w : Option WorkerInfo) (r : ProvisionRecord)
    → is_closed r.status ≡ true
    → is_closed (refreshed now w r).status ≡ true
closed_refreshed now none r h = h
closed_refreshed now (some w) r h = ground (arith, h)

pub refresh-IsClosed :
    (id : String) (now : ℕ) (workers : Dict WorkerInfo) (d : Dict ProvisionRecord)
    → IsClosed id d
    → IsClosed id (refresh_records now workers d)
unfolding refresh_records
refresh-IsClosed id now workers [] h = tt
refresh-IsClosed id now workers ((k, r) ∷ d) h =
    elim (Bool-cases (is_expired now (refreshed now (get workers k) r))) [
      | inl old ↦ rw old (refresh-IsClosed id now workers d h.1)
      | inr kept ↦ rw kept (
        (λ e. closed_refreshed now (get workers k) r (h.0 e)),
        refresh-IsClosed id now workers d h.1,
      )
    ]
