-- ===== src/TeamAuto/Scheduler/Turns.antt =====
-- What the turns of a pass over the write-backs do to each entry, whatever GitHub answers.
use teamclaw.Prelude.{
  ℕ, ◌≡◌, ◌⊎◌, ◌+◌, refl, length, length-append, In, In-append_left, In-append_last, none, inl, inr,
  Bool-cases, Option-cases, true, false, ◌||◌, not, some, List, [], ◌∷◌, ◌++◌, All, All-append,
  num_truthy, text_truthy, get, arith,
}
use teamclaw.Team.{TaskInfo, TeamState, is_completed, is_failed}
use teamclaw.TeamAuto.Store.{WriteBack, Store}
use teamclaw.TeamAuto.Scheduler.Writeback.{write_back, write_back_all}
use teamclaw.TeamAuto.Scheduler.Reply.{Host, is_done, is_waiting, reply_to}
use teamclaw.TeamAuto.Scheduler.Posting.{is_deliverable, Delivered, IsHeld, Ending, reply_to-Ending}

abbrev pub IsFresh : TeamState → WriteBack → Type 0
IsFresh team e = is_deliverable team e ≡ true → is_waiting e ≡ true

pub idle-deliverable :
    (team : TeamState) (e : WriteBack)
    → IsFresh team e
    → is_waiting e ≡ false
    → is_deliverable team e ≡ false
idle-deliverable team e fresh idle = elim (Bool-cases (is_deliverable team e)) [
  | inl ready ↦ absurd (ground (arith, fresh ready))
  | inr held ↦ held
]

resting :
    (team : TeamState) (e : WriteBack) (t : TaskInfo)
    → get team.tasks e.task_id ≡ some t
    → (not (is_waiting e) || not (is_completed t.status || is_failed t.status)) ≡ true
    → IsFresh team e
    → is_deliverable team e ≡ false
resting team e t found rests fresh = elim (Bool-cases (is_waiting e)) [
  | inl waits ↦ rw found (ground arith)
  | inr idle ↦ idle-deliverable team e fresh idle
]

-- The entry had been posted before, or there is nothing to post: its task is gone, or failed without a
-- result.
abbrev pub IsOver : TeamState → WriteBack → Type 0
IsOver team e =
    (is_done e ≡ true)
    ⊎ ((get team.tasks e.task_id ≡ none)
        ⊎ ((t : TaskInfo) × (get team.tasks e.task_id ≡ some t)
            × (is_failed t.status ≡ true)
            × (text_truthy t.result ≡ false)))

-- The result of its task was posted where the entry asks for it.
abbrev pub IsGiven : Host → TeamState → WriteBack → Type 0
IsGiven host team e = (t : TaskInfo) × (get team.tasks e.task_id ≡ some t) × Delivered host t e

abbrev pub IsLeft : List WriteBack → WriteBack → Type 0
IsLeft rs e = (r : WriteBack) × In r rs × (r.task_id ≡ e.task_id)

abbrev pub Fate : Host → TeamState → List WriteBack → WriteBack → Type 0
Fate host team rs e = IsOver team e ⊎ (IsGiven host team e ⊎ IsLeft rs e)

-- What is posted is marked so, and the rest is held.
abbrev pub Rests : Host → TeamState → WriteBack → Type 0
Rests host team r = (is_done r ≡ true) ⊎ IsHeld host team r

abbrev pub Turned : Host → TeamState → WriteBack → WriteBack → Type 0
Turned host team e r =
    (is_done e ≡ true) ⊎ (IsGiven host team e ⊎ ((is_done r ≡ false) × (r.task_id ≡ e.task_id)))

as_before :
    (host : Host) (team : TeamState) (e : WriteBack)
    → is_deliverable team e ≡ false
    → Turned host team e e × Rests host team e
as_before host team e held = elim (Bool-cases (is_done e)) [
  | inl posted ↦ (inl posted, inl posted)
  | inr waits ↦ (inr (inr (waits, refl)), inr (inl held))
]

by_reply :
    (host : Host) (team : TeamState) (t : TaskInfo) (e r : WriteBack)
    → get team.tasks e.task_id ≡ some t
    → Ending host team t e r
    → Turned host team e r × Rests host team r
by_reply host team t e r found (same, inl (posted, given)) =
    (inr (inl (t, found, given)), inl posted)
by_reply host team t e r found (same, inr (waits, held)) = (inr (inr (waits, same)), inr held)

write_back-Turned :
    (host : Host) (now : ℕ) (team : TeamState) (ws : List WriteBack) (s : Store) (e : WriteBack)
    → num_truthy (some now) ≡ true
    → IsFresh team e
    → let r = (write_back host now team ws s e).1 in Turned host team e r × Rests host team r
unfolding write_back
write_back-Turned host now team ws s e later fresh =
    elim (Option-cases (get team.tasks e.task_id)) [
      | inl gone ↦
          let same : (write_back host now team ws s e).1 ≡ e = rw (gone, write_back) refl in
          rw same (as_before host team e (rw gone (ground arith)))
      | inr (t, found) ↦
          elim (Bool-cases
            (not (is_waiting e) || not (is_completed t.status || is_failed t.status))) [
              | inl rests ↦
                  let same : (write_back host now team ws s e).1 ≡ e =
                    rw (found, write_back, rests) refl in
                  rw same (as_before host team e (resting team e t found rests fresh))
              | inr turn ↦
                  let replied : (write_back host now team ws s e).1 ≡ reply_to host now ws t e =
                    rw (found, write_back, turn) refl in
                  rw replied (
                    by_reply host team t e (reply_to host now ws t e) found
                      (reply_to-Ending host now ws team t e later (ground arith) found))
            ]
    ]

module _ (host : Host) (now : ℕ) (team : TeamState) (later : num_truthy (some now) ≡ true) where
  write_back_all-In :
      (before ws : List WriteBack) (s : Store) (r : WriteBack)
      → In r before
      → In r (write_back_all host now team before ws s).1
  unfolding write_back_all
  write_back_all-In before [] s r i = i
  write_back_all-In before (e ∷ ws) s r i =
      let t = write_back host now team (before ++ e ∷ ws) s e in
      write_back_all-In (before ++ t.1 ∷ []) ws t.0 r (In-append_left before (t.1 ∷ []) r i)

  pub write_back_all-Turned :
      (before ws : List WriteBack) (s : Store)
      → All (IsFresh team) ws
      → let rs = (write_back_all host now team before ws s).1 in
        All (λ e. (r : WriteBack) × In r rs × Turned host team e r) ws
  unfolding write_back_all
  write_back_all-Turned before [] s fresh = tt
  write_back_all-Turned before (e ∷ ws) s fresh =
      let t = write_back host now team (before ++ e ∷ ws) s e in
      let turn = write_back-Turned host now team (before ++ e ∷ ws) s e later fresh.0 in
      (
        (
          t.1,
          write_back_all-In (before ++ t.1 ∷ []) ws t.0 t.1 (In-append_last before t.1),
          turn.0,
        ),
        write_back_all-Turned (before ++ t.1 ∷ []) ws t.0 fresh.1,
      )

  pub write_back_all-Rests :
      (before ws : List WriteBack) (s : Store)
      → All (Rests host team) before
      → All (IsFresh team) ws
      → All (Rests host team) (write_back_all host now team before ws s).1
  unfolding write_back_all
  write_back_all-Rests before [] s h fresh = h
  write_back_all-Rests before (e ∷ ws) s h fresh =
      let t = write_back host now team (before ++ e ∷ ws) s e in
      let turn = write_back-Turned host now team (before ++ e ∷ ws) s e later fresh.0 in
      write_back_all-Rests (before ++ t.1 ∷ []) ws t.0
        (All-append (Rests host team) before (t.1 ∷ []) h (turn.1, tt)) fresh.1

  pub write_back_all-length :
      (before ws : List WriteBack) (s : Store)
      → length (write_back_all host now team before ws s).1 ≡ length before + length ws
  unfolding write_back_all
  write_back_all-length before [] s = omega arith
  write_back_all-length before (e ∷ ws) s =
      let t = write_back host now team (before ++ e ∷ ws) s e in
      omega
        (arith, write_back_all-length (before ++ t.1 ∷ []) ws t.0, length-append before (t.1 ∷ []))
