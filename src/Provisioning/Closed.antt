-- ===== src/Provisioning/Closed.antt =====
-- A worker that was terminated does not come back.
use teamclaw.Prelude.{
  ℕ, String, ◌≡◌, ◌≢◌, ◌⊎◌, inl, inr, refl, ◌∙◌, sym, true, ◌&&◌, Option, none, some, [], ◌∷◌,
  arith, Bool-cases, Option-cases, Dict, get, alter, str_eq, eq_iff, text_truthy, some_inj,
}
use teamclaw.Team.{WorkerStatus, TeamState, ProvisionRecord}
use teamclaw.Assignment.{option_eq}
use teamclaw.Provisioning.{
  validate_registration, Registration, unmanaged, managed, wrong_role, wrong_token, closed,
  is_closed, on_worker_registered, on_worker_heartbeat, begin_launch, fail_launch, finish_launch,
  begin_termination, end_termination, refresh, registered_record, beating_record, launched_record,
  terminating_record, ended_record,
}
use teamclaw.Provisioning.Records.{
  IsUnique, IsClosed, alter-IsClosed, termination-IsClosed, put-IsClosed, refresh-IsClosed,
}

-- What may happen once a worker is on its way out: every update of the records of managed workers, a
-- launch of a new identifier included, and any update that leaves these records as they are, such as
-- those of the registry of workers and of the tasks.
pub data Change (id : String) (s : TeamState) : TeamState → Type 0 where
  registers :
      (now : ℕ) (worker_id role : String) (token : Option String)
      → validate_registration worker_id role token s ≡ managed
      → Change id s (on_worker_registered now worker_id s)
  beats :
      (now : ℕ) (worker_id : String) (status : WorkerStatus)
      → Change id s (on_worker_heartbeat now worker_id status s)
  launches :
      (now : ℕ) (worker_id role token : String)
      → worker_id ≢ id
      → Change id s (begin_launch now worker_id role token s)
  fails_launch :
      (now : ℕ) (worker_id message : String) → Change id s (fail_launch now worker_id message s)
  ends_launch : (now : ℕ) (worker_id : String) → Change id s (finish_launch now worker_id s)
  others : (s' : TeamState) → s'.provisioning ≡ s.provisioning → Change id s s'
  begins_end : (now : ℕ) (worker_id : String) → Change id s (begin_termination now worker_id s)
  ends :
      (now : ℕ) (worker_id : String) (error : Option String)
      → Change id s (end_termination now worker_id error s)
  refreshes : (now : ℕ) → Change id s (refresh now s)

pub data Changes (id : String) (s : TeamState) : TeamState → Type 0 where
  done : Changes id s s
  more : {t u : TeamState} → Changes id s t → Change id t u → Changes id s u

IsClosed-validate :
    (id : String) (s : TeamState) (role : String) (token : Option String) (r : ProvisionRecord)
    → is_closed r.status ≡ true
    → get s.provisioning id ≡ some r
    → (validate_registration id role token s ≡ wrong_role)
      ⊎ ((validate_registration id role token s ≡ wrong_token)
          ⊎ (validate_registration id role token s ≡ closed))
unfolding validate_registration
IsClosed-validate id s role token r shut here = elim (Bool-cases (str_eq r.role role)) [
  | inr other ↦ inl (rw (here, other, validate_registration) refl)
  | inl same ↦ elim (Bool-cases (text_truthy token && option_eq token r.launch_token)) [
    | inr bad ↦ inr (inl (rw (here, same, bad, validate_registration) refl))
    | inl good ↦ inr (inr (rw (here, same, good, shut, validate_registration) refl))
  ]
]

IsClosed-get :
    (id : String) (d : Dict ProvisionRecord) (r : ProvisionRecord)
    → IsClosed id d
    → get d id ≡ some r
    → is_closed r.status ≡ true
unfolding get
IsClosed-get id [] r h e = absurd cc
IsClosed-get id ((k, q) ∷ d) r h e = elim (Bool-cases (str_eq k id)) [
  | inl hit ↦ let same : q ≡ r = some_inj (rw hit at e) in rw same at (h.0 ((eq_iff k id).0 hit))
  | inr miss ↦ IsClosed-get id d r h.1 (rw miss at e)
]

unmanaged_managed : unmanaged ≡ managed → ⊥
unmanaged_managed e = cc

refused_managed :
    (x : Registration) → (x ≡ wrong_role) ⊎ ((x ≡ wrong_token) ⊎ (x ≡ closed)) → x ≡ managed → ⊥
refused_managed x (inl a) e = cc
refused_managed x (inr (inl a)) e = cc
refused_managed x (inr (inr a)) e = cc

managed_open :
    (id worker_id role : String) (token : Option String) (s : TeamState)
    → worker_id ≡ id
    → validate_registration worker_id role token s ≡ managed
    → IsClosed id s.provisioning
    → ⊥
unfolding validate_registration
managed_open id worker_id role token s e valid h =
    let valid' : validate_registration id role token s ≡ managed = rw e at valid in
    elim (Option-cases (get s.provisioning id)) [
      | inl gone ↦
          let free : validate_registration id role token s ≡ unmanaged =
            rw (gone, validate_registration) refl in
          absurd (unmanaged_managed (sym free ∙ valid'))
      | inr (r, here) ↦
          elim (IsClosed-validate id s role token r (IsClosed-get id s.provisioning r h here)
            here) [
              | inl a ↦ refused_managed wrong_role (inl refl) (sym a ∙ valid')
              | inr (inl a) ↦ refused_managed wrong_token (inr (inl refl)) (sym a ∙ valid')
              | inr (inr a) ↦ refused_managed closed (inr (inr refl)) (sym a ∙ valid')
            ]
    ]

registered-IsClosed :
    (id : String) (now : ℕ) (worker_id role : String) (token : Option String) (s : TeamState)
    → validate_registration worker_id role token s ≡ managed
    → IsClosed id s.provisioning
    → IsClosed id (alter s.provisioning worker_id (registered_record now))
unfolding validate_registration
registered-IsClosed id now worker_id role token s valid h =
    alter-IsClosed id worker_id s.provisioning (registered_record now)
      (λ r e shut. absurd (managed_open id worker_id role token s e valid h)) h

begin_termination-IsClosed :
    (id : String) (now : ℕ) (worker_id : String) (s : TeamState)
    → IsClosed id s.provisioning
    → IsClosed id (begin_termination now worker_id s).provisioning
unfolding begin_termination
begin_termination-IsClosed id now worker_id s h =
    elim (Option-cases (get s.provisioning worker_id)) [
      | inl gone ↦ rw (gone, begin_termination) h
      | inr (r, here) ↦
          rw (here, begin_termination)
            (alter-IsClosed id worker_id s.provisioning (terminating_record now) (λ r e shut. refl)
              h)
    ]

ended_closed :
    (now : ℕ) (error : Option String) (r : ProvisionRecord)
    → is_closed (ended_record now error r).status ≡ true
ended_closed now none r = refl
ended_closed now (some reason) r = refl

Change-IsClosed :
    (id : String) (s t : TeamState)
    → Change id s t
    → IsClosed id s.provisioning
    → IsClosed id t.provisioning
unfolding on_worker_registered on_worker_heartbeat begin_launch fail_launch finish_launch
    end_termination refresh
Change-IsClosed id s t (registers now worker_id role token valid) h =
    registered-IsClosed id now worker_id role token s valid h
Change-IsClosed id s t (beats now worker_id status) h =
    alter-IsClosed id worker_id s.provisioning (beating_record now status)
      (λ r e shut. ground (arith, shut)) h
Change-IsClosed id s t (launches now worker_id role token other) h =
    put-IsClosed id worker_id s.provisioning (launched_record now worker_id role token) other h
Change-IsClosed id s t (fails_launch now worker_id message) h =
    alter-IsClosed id worker_id s.provisioning _ (λ r e shut. refl) h
Change-IsClosed id s t (ends_launch now worker_id) h =
    alter-IsClosed id worker_id s.provisioning _ (λ r e shut. shut) h
Change-IsClosed id s t (others s' same) h = rw same h
Change-IsClosed id s t (begins_end now worker_id) h =
    begin_termination-IsClosed id now worker_id s h
Change-IsClosed id s t (ends now worker_id error) h =
    alter-IsClosed id worker_id s.provisioning (ended_record now error)
      (λ r e shut. ended_closed now error r) h
Change-IsClosed id s t (refreshes now) h = refresh-IsClosed id now s.workers s.provisioning h

Changes-IsClosed :
    (id : String) (s t : TeamState)
    → Changes id s t
    → IsClosed id s.provisioning
    → IsClosed id t.provisioning
Changes-IsClosed id s _ done h = h
Changes-IsClosed id s u (more {t} run step) h =
    Change-IsClosed id t u step (Changes-IsClosed id s t run h)

-- Once a termination of a managed worker has begun, in a state where records stand once, every later registration under its identifier is
-- refused as long as its record is kept, whatever role and token it shows and whatever steps come
-- between: the end of the termination, heartbeats, registrations and launches of other workers, the
-- refresh of the records, and any change of the registry of workers or of the tasks.
pub terminated_refused :
    (now : ℕ) (id role : String) (token : Option String) (s t : TeamState) (r q : ProvisionRecord)
    → IsUnique s.provisioning
    → get s.provisioning id ≡ some q
    → Changes id (begin_termination now id s) t
    → get t.provisioning id ≡ some r
    → (validate_registration id role token t ≡ wrong_role)
      ⊎ ((validate_registration id role token t ≡ wrong_token)
          ⊎ (validate_registration id role token t ≡ closed))
unfolding begin_termination
terminated_refused now id role token s t r q unique managed_before run here =
    let start : IsClosed id (begin_termination now id s).provisioning =
      rw (managed_before, begin_termination)
        (termination-IsClosed id s.provisioning (terminating_record now) (λ r. refl) unique) in
    IsClosed-validate id t role token r
      (IsClosed-get id t.provisioning r
        (Changes-IsClosed id (begin_termination now id s) t run start) here)
      here
