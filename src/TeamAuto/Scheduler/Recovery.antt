-- ===== src/TeamAuto/Scheduler/Recovery.antt =====
-- A sweep that observes or fails does nothing, and a failure is overcome.
use teamclaw.Prelude.{
  ℕ, ◌+◌, ◌*◌, String, ◌≡◌, ◌⊎◌, inl, inr, refl, true, ◌||◌, none, some, List, Bool-cases, length,
  leb, get_or, starts_with_prefix, str_truthy_prefix, starts_with, ◌<>◌, any, ◌∙◌,
}
use teamclaw.TeamAuto.Store.{Repo, consume_budget}
use teamclaw.TeamAuto.Scanner.{Issue, Pull, Candidate, sweep_repo, advance_cursors}
use teamclaw.TeamAuto.Scheduler.Enqueue.{is_auto_pause, sweep_backoff_minutes, sweep_retry_due_at}
use teamclaw.TeamAuto.Scheduler.Run.{
  Env, Place, Listing, listed, thrown, act, do_work, swept, conclude, complete, fail, run_sweep,
  is_gated, is_dry, capped, ticks, is_full_review,
}

do_work-rests :
    (env : Env) (candidates work : List Candidate) (repo : Repo) (p : Place)
    → is_dry p ≡ true
    → repo.cursors ≡ p.repo.cursors
    → ((do_work env candidates work repo p).team ≡ p.team)
      × ((do_work env candidates work repo p).repo.cursors ≡ p.repo.cursors)
do_work-rests env candidates work repo p dry same = elim (Bool-cases (leb 1 (length work))) [
  | inr idle ↦ rw idle (refl, same)
  | inl busy ↦ rw (busy, dry) (refl, same)
]

complete-rests :
    (env : Env) (issues : List Issue) (pulls : List Pull) (p : Place)
    → is_dry p ≡ true
    → ((complete env issues pulls p).team ≡ p.team)
      × ((complete env issues pulls p).repo.cursors ≡ p.repo.cursors)
unfolding complete
complete-rests env issues pulls p dry =
    let repo = swept env issues pulls p in
    let same : (swept env issues pulls p).cursors ≡ p.repo.cursors = rw dry refl in
    do_work-rests env (sweep_repo p.repo issues pulls env.now)
      (capped (swept env issues pulls p) (sweep_repo p.repo issues pulls env.now))
      (swept env issues pulls p) p dry same

listing-rests :
    (env : Env) (listing : Listing) (message : String) (p : Place)
    → (listing ≡ thrown message) ⊎ (is_dry p ≡ true)
    → ((conclude env listing p).team ≡ p.team)
      × ((conclude env listing p).repo.cursors ≡ p.repo.cursors)
unfolding fail
listing-rests env (listed issues pulls) message p (inl bad) = absurd (cc)
listing-rests env (listed issues pulls) message p (inr dry) = complete-rests env issues pulls p dry
listing-rests env (thrown other) message p h = (refl, refl)

-- A sweep whose requests threw, or that is gated, or that observes as the first of a repository's
-- sweeps, makes no task and leaves the cursors where they were.
pub run_sweep-rests :
    (env : Env) (message : String) (p : Place)
    → (is_gated p.repo ≡ true) ⊎ ((env.listing ≡ thrown message) ⊎ (is_dry p ≡ true))
    → ((run_sweep env p).team ≡ p.team) × ((run_sweep env p).repo.cursors ≡ p.repo.cursors)
unfolding run_sweep
run_sweep-rests env message p (inl off) = rw (off, run_sweep) (refl, refl)
run_sweep-rests env message p (inr h) = elim (Bool-cases (is_gated p.repo || env.sweeping)) [
  | inl off ↦ rw (off, run_sweep) (refl, refl)
  | inr on ↦ rw (on, run_sweep) (listing-rests env env.listing message p h)
]

-- The part of a repository that a sweep's work leaves alone.
abbrev SameSwitch : Repo → Repo → Type 0
SameSwitch r r' = (r'.paused_reason ≡ r.paused_reason) × (r'.enabled ≡ r.enabled)

act-SameSwitch :
    (env : Env) (work : List Candidate) (p : Place) → SameSwitch p.repo (act env work p).repo
unfolding act
act-SameSwitch env work p =
    elim (Bool-cases (consume_budget (length work) env.today p.store.budget).1) [
      | inl given ↦ elim (Bool-cases (any is_full_review work)) [
        | inl full ↦ rw (given, full, act) (refl, refl)
        | inr other ↦ rw (given, other, act) (refl, refl)
      ]
      | inr refused ↦ rw (refused, act) (refl, refl)
    ]

do_work-SameSwitch :
    (env : Env) (candidates work : List Candidate) (repo : Repo) (p : Place)
    → SameSwitch repo (do_work env candidates work repo p).repo
do_work-SameSwitch env candidates work repo p = elim (Bool-cases (leb 1 (length work))) [
  | inr idle ↦ rw idle (refl, refl)
  | inl busy ↦ elim (Bool-cases (is_dry p)) [
    | inl dry ↦ rw (busy, dry) (refl, refl)
    | inr wet ↦ rw (busy, wet) (act-SameSwitch env work (record p { repo = repo }))
  ]
]

swept-SameSwitch :
    (env : Env) (issues : List Issue) (pulls : List Pull) (p : Place)
    → SameSwitch p.repo (swept env issues pulls p)
unfolding advance_cursors
swept-SameSwitch env issues pulls p = elim (Bool-cases (is_dry p)) [
  | inl dry ↦ rw dry (refl, refl)
  | inr wet ↦ rw wet (refl, refl)
]

complete-clears :
    (env : Env) (issues : List Issue) (pulls : List Pull) (p : Place)
    → is_auto_pause p.repo.paused_reason ≡ true
    → ((complete env issues pulls p).repo.paused_reason ≡ none)
      × ((complete env issues pulls p).repo.sweep_failures ≡ some 0)
      × ((complete env issues pulls p).repo.enabled ≡ p.repo.enabled)
unfolding complete
complete-clears env issues pulls p paused =
    let repo = swept env issues pulls p in
    let (reason, on) =
      do_work-SameSwitch env (sweep_repo p.repo issues pulls env.now)
        (capped (swept env issues pulls p) (sweep_repo p.repo issues pulls env.now))
        (swept env issues pulls p) p in
    let (reason', on') = swept-SameSwitch env issues pulls p in
    (rw (reason, reason', paused) refl, refl, on ∙ on')

-- After a failure an enabled repository is swept again when the back-off for its number of failures
-- is over, and not before; and the next sweep whose requests succeed clears the pause and the count.
pub fail-recovers :
    (env again : Env) (later : ℕ) (message : String) (issues : List Issue) (pulls : List Pull)
    (p : Place)
    → p.repo.enabled ≡ true
    → (ticks later (fail env message p).repo
        ≡ leb (env.now + sweep_backoff_minutes (get_or p.repo.sweep_failures 0 + 1) * 60000) later)
      × ((complete again issues pulls (fail env message p)).repo.paused_reason ≡ none)
      × ((complete again issues pulls (fail env message p)).repo.sweep_failures ≡ some 0)
      × (ticks later (complete again issues pulls (fail env message p)).repo ≡ true)
unfolding fail ticks sweep_retry_due_at starts_with
fail-recovers env again later message issues pulls p on =
    let pauses : is_auto_pause (some ("sweep failed: " <> message)) ≡ true =
      rw
        (
          str_truthy_prefix "sweep failed: " message refl,
          starts_with_prefix "sweep failed: " "sweep failed:" message refl,
        )
        refl in
    let (clear, zero_again, still) =
      complete-clears again issues pulls (fail env message p) pauses in
    (rw (on, pauses) refl, clear, zero_again, rw (clear, still ∙ on) refl)
