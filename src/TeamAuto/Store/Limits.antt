-- ===== src/TeamAuto/Store/Limits.antt =====
-- The bounds of the store: tasks per day and the activity log.
use teamclaw.Prelude.{
  ℕ, ◌+◌, ◌-◌, ◌≤◌, String, ◌≡◌, refl, List, [], ◌∷◌, ◌++◌, arith, length, drop, length-append,
  length-drop, drop-concat, ltb, eq_iff, Bool-cases, inl, inr, if◌then◌else◌,
}
use teamclaw.TeamAuto.Store.{
  Budget, consume_budget, roll_over, Store, Activity, push_activity, activity_limit,
}

-- The requests of one day, in order: what is granted, and the budget after them.
abbrev pub consume_all : List ℕ → String → Budget → Budget × ℕ
consume_all [] stamp b = (b, 0)
consume_all (n ∷ ns) stamp b =
    let (b', granted) = consume_budget n stamp b in
    let (b'', total) = consume_all ns stamp b' in (b'', if granted then n + total else total)

consume_first :
    (n : ℕ) (stamp : String) (b : Budget)
    → (b.day_stamp ≡ stamp → b.tasks_today ≤ b.max_tasks_per_day)
    → let (b', granted) = consume_budget n stamp b in
      (b'.day_stamp ≡ stamp)
      × (b'.max_tasks_per_day ≡ b.max_tasks_per_day)
      × (b'.tasks_today ≡ (roll_over stamp b).tasks_today + (if granted then n else 0))
      × (b'.tasks_today ≤ b.max_tasks_per_day)
unfolding consume_budget
consume_first n stamp b h = ground (arith, eq_iff b.day_stamp stamp)

roll_over_same : (stamp : String) (b : Budget) → b.day_stamp ≡ stamp → roll_over stamp b ≡ b
roll_over_same stamp b h = ground (arith, eq_iff b.day_stamp stamp)

-- However many requests for tasks come on one day, the number of tasks that are granted, with those
-- counted before on that day, is what the budget records and does not pass the limit per day, when
-- the count did not pass it before on that day; tasks of another day do not count.
pub consume_all_bounded :
    (ns : List ℕ) (stamp : String) (b : Budget)
    → (b.day_stamp ≡ stamp → b.tasks_today ≤ b.max_tasks_per_day)
    → let (b', total) = consume_all ns stamp b in
      ((roll_over stamp b').tasks_today ≡ (roll_over stamp b).tasks_today + total)
      × ((roll_over stamp b').tasks_today ≤ b.max_tasks_per_day)
consume_all_bounded [] stamp b h = ground (arith, eq_iff b.day_stamp stamp)
consume_all_bounded (n ∷ ns) stamp b h =
    let (day, limit, count, fits) = consume_first n stamp b h in
    let rest =
      consume_all_bounded ns stamp (consume_budget n stamp b).0 (λ e. omega (arith, limit, fits)) in
    let same = roll_over_same stamp (consume_budget n stamp b).0 day in
    let here : (roll_over stamp (consume_budget n stamp b).0).tasks_today
        ≡ (consume_budget n stamp b).0.tasks_today =
      rw same refl in
    ground (arith, rest, limit, count, here)

-- The activity log holds at most 100 entries, the new one is its last, and only oldest ones are
-- lost.
pub push_activity_lem :
    (entry : Activity) (s : Store)
    → (length (push_activity entry s).activity ≤ activity_limit)
      × ((push_activity entry s).activity
          ≡ drop (length s.activity + 1 - activity_limit) s.activity ++ entry ∷ [])
unfolding push_activity
push_activity_lem entry s = elim (Bool-cases (ltb 100 (length (s.activity ++ entry ∷ [])))) [
  | inl more ↦ rw more (
    ground
        (arith, length-drop (length (s.activity ++ entry ∷ []) - 100) (s.activity ++ entry ∷ [])),
    rw (length-append s.activity (entry ∷ [])) (
        drop-concat (length s.activity + 1 - 100) s.activity entry
          (ground (arith, length-append s.activity (entry ∷ [])))),
  )
  | inr fits ↦ rw fits (
      let none_lost : length s.activity + 1 - 100 ≡ 0 =
        ground (arith, length-append s.activity (entry ∷ [])) in
      (ground arith, rw none_lost refl))
]
