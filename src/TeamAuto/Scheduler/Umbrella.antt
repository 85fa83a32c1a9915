-- ===== src/TeamAuto/Scheduler/Umbrella.antt =====
-- What a pass over the write-backs keeps of those it posted, and so what later sections of a joint
-- review find: nothing.
use teamclaw.Prelude.{
  ℕ, ◌≡◌, refl, inl, inr, String, Bool-cases, false, not, Option, none, List, [], ◌∷◌, filter, any,
  All, All-filter, All-drop, All-append, filter-All, str_eq, arith,
}
use teamclaw.Team.{TeamState}
use teamclaw.TeamAuto.Store.{Action, WriteBack, Store}
use teamclaw.TeamAuto.Scheduler.Writeback.{write_back_all, reconcile_writebacks}
use teamclaw.TeamAuto.Scheduler.Run.{register_writeback}
use teamclaw.TeamAuto.Scheduler.Reply.{Host, is_done, is_dead, heal, heal_all, is_waiting, umbrella}

abbrev pub IsPending : WriteBack → Type 0
IsPending w = is_done w ≡ false

heal-IsPending : (team : TeamState) (w : WriteBack) → IsPending w → IsPending (heal team w)
unfolding heal
heal-IsPending team w h = ground arith

heal_all-IsPending :
    (team : TeamState) (ws : List WriteBack) → All IsPending ws → All IsPending (heal_all team ws)
unfolding heal_all
heal_all-IsPending team [] h = tt
heal_all-IsPending team (w ∷ ws) h = (heal-IsPending team w h.0, heal_all-IsPending team ws h.1)

umbrella-IsPending : (ws : List WriteBack) (e : WriteBack) → All IsPending ws → umbrella ws e ≡ none
unfolding umbrella
umbrella-IsPending [] e h = refl
umbrella-IsPending (w ∷ ws) e h = ground (arith, h.0, umbrella-IsPending ws e h.1)

-- Registering an entry keeps this: it was not posted yet.
register_writeback-IsPending :
    (task_id : String) (action : Action) (repo_id : String) (target_id : Option ℕ)
    (cycle_key : Option String) (s : Store)
    → All IsPending s.writebacks
    → All IsPending (register_writeback task_id action repo_id target_id cycle_key s).writebacks
unfolding register_writeback
register_writeback-IsPending task_id action repo_id target_id cycle_key s h =
    elim (Bool-cases (any (λ (w : WriteBack). str_eq w.task_id task_id) s.writebacks)) [
      | inl known ↦ rw known h
      | inr fresh ↦ rw fresh (All-append IsPending s.writebacks _ h (refl, tt))
    ]

-- If no entry was posted before, none of those left after a pass was, so that whatever section of a
-- joint review comes next finds no issue of its cycle in the store, even if the pass made one.
pub reconcile_writebacks_forgets :
    (host : Host) (now : ℕ) (team : TeamState) (s : Store) (e : WriteBack)
    → All IsPending s.writebacks
    → let s' = reconcile_writebacks host now team s in
      All IsPending s'.writebacks × (umbrella s'.writebacks e ≡ none)
unfolding reconcile_writebacks
reconcile_writebacks_forgets host now team s e h =
    let live = heal_all team (filter (λ w. not (is_dead team w)) s.writebacks) in
    let r = write_back_all host now team [] live s in
    let kept : All IsPending (reconcile_writebacks host now team s).writebacks =
      elim (Bool-cases (any is_waiting live)) [
        | inl busy ↦ rw busy (
            All-drop IsPending _ _
              (filter-All IsPending (λ w. not (is_done w)) r.1 (λ w p. ground arith)))
        | inr idle ↦ rw idle (heal_all-IsPending team _ (All-filter IsPending _ _ h))
      ] in
    (kept, umbrella-IsPending _ e kept)
