-- ===== src/Dispatch/Exclusion.antt =====
-- Tasks at work and the checkouts that they may write to: src/src/controller/http-server.ts, the rule
-- of one writer per checkout.
use teamclaw.Prelude.{
  some_inj, ◌⊎◌, ℕ, String, ◌≡◌, refl, ◌∙◌, sym, true, false, ◌&&◌, Option, none, some, [], ◌∷◌,
  arith, Bool-cases, Option-cases, Dict, get, alter, values, get-alter, get-alter_self, any, any-In,
  In, first, later, str_eq, eq_iff, eq_refl, text_eq_sound, text_eq_refl, inl, inr, Text,
}
use teamclaw.Team.{TaskInfo, EventInput}
use teamclaw.Execution.{append_event, starts_run}
use teamclaw.Assignment.{reverted_task}
use teamclaw.Dispatch.{task_write_root, same_root, is_at_work}

-- Every task stands once, under its identifier.
abbrev pub IsKeyed : Dict TaskInfo → Type 0
IsKeyed [] = Unit
IsKeyed ((k, t) ∷ d) = (t.id ≡ k) × (get d k ≡ none) × IsKeyed d

-- Two tasks at work that may write to one checkout are one task.
pub record OneWriter (d : Dict TaskInfo) : Type 0 where
  pub same :
      (i j : String) (a b : TaskInfo)
      → get d i ≡ some a
      → get d j ≡ some b
      → is_at_work a ≡ true
      → is_at_work b ≡ true
      → same_root (task_write_root a) (task_write_root b) ≡ true
      → i ≡ j

pub get_listed :
    (d : Dict TaskInfo) (t : TaskInfo) → IsKeyed d → In t (values d) → get d t.id ≡ some t
unfolding get
get_listed [] t keyed i = elim i [ ]
get_listed ((k, _) ∷ d) t keyed first = rw (keyed.0, eq_refl k) refl
get_listed ((k, u) ∷ d) t keyed (later i) =
    let rest = get_listed d t keyed.2 i in ground (arith, rest, keyed.1, eq_iff k t.id)

In-get : (d : Dict TaskInfo) (k : String) (t : TaskInfo) → get d k ≡ some t → In t (values d)
unfolding get
In-get [] k t h = absurd cc
In-get ((j, u) ∷ d) k t h = elim (Bool-cases (str_eq j k)) [
  | inl hit ↦ let e : u ≡ t = some_inj (rw hit at h) in rw e first
  | inr miss ↦ later (In-get d k t (rw miss at h))
]

pub alter-IsKeyed :
    (d : Dict TaskInfo) (k : String) (f : TaskInfo → TaskInfo)
    → ((t : TaskInfo) → (f t).id ≡ t.id)
    → IsKeyed d
    → IsKeyed (alter d k f)
unfolding alter
alter-IsKeyed [] k f h keyed = tt
alter-IsKeyed ((j, t) ∷ d) k f h keyed = elim (Bool-cases (str_eq j k)) [
  | inl hit ↦ rw hit (h t ∙ keyed.0, keyed.1, keyed.2)
  | inr miss ↦
      let gone : get (alter d k f) j ≡ none = ground (arith, get-alter d k j f, keyed.1) in
      rw miss (keyed.0, gone, alter-IsKeyed d k f h keyed.2)
]

-- A change of a task that neither sets it to work nor moves its checkout.
abbrev pub IsQuiet : (TaskInfo → TaskInfo) → Type 0
IsQuiet f =
    (t : TaskInfo)
    → (is_at_work (f t) ≡ true → is_at_work t ≡ true) × (task_write_root (f t) ≡ task_write_root t)

-- What stands in the map before a quiet change.
before_quiet :
    (d : Dict TaskInfo) (k i : String) (f : TaskInfo → TaskInfo) (a : TaskInfo)
    → IsQuiet f
    → get (alter d k f) i ≡ some a
    → (b : TaskInfo) × (get d i ≡ some b)
      × (is_at_work a ≡ true → is_at_work b ≡ true)
      × (task_write_root a ≡ task_write_root b)
before_quiet d k i f a quiet h = elim (Bool-cases (str_eq k i)) [
  | inl hit ↦ elim (Option-cases (get d i)) [
    | inl gone ↦ absurd (ground (arith, get-alter d k i f))
    | inr (b, here) ↦
        let e : f b ≡ a = ground (arith, get-alter d k i f) in
        (b, here, rw e at (quiet b).0, rw e at (quiet b).1)
  ]
  | inr miss ↦ (a, ground (arith, get-alter d k i f), (λ w. w), refl)
]

pub alter-OneWriter :
    (d : Dict TaskInfo) (k : String) (f : TaskInfo → TaskInfo)
    → IsQuiet f
    → OneWriter d
    → OneWriter (alter d k f)
alter-OneWriter d k f quiet one = record {
  same = λ i j a b ha hb wa wb r.
      let (a', ga, la, ra) = before_quiet d k i f a quiet ha in
      let (b', gb, lb, rb) = before_quiet d k j f b quiet hb in
      one.same i j a' b' ga gb (la wa) (lb wb) (rw (ra, rb) at r);
}

pub reverted_task-id :
    (event_id : String) (now : ℕ) (worker_id : String) (t : TaskInfo)
    → (reverted_task event_id now worker_id t).id ≡ t.id
unfolding append_event
reverted_task-id event_id now worker_id t = ground arith

pub reverted-IsQuiet :
    (event_id : String) (now : ℕ) (worker_id : String)
    → IsQuiet (reverted_task event_id now worker_id)
unfolding append_event
reverted-IsQuiet event_id now worker_id t = (ground arith, ground arith)

pub event-IsQuiet :
    (event_id : String) (now : ℕ) (i : EventInput)
    → starts_run i ≡ false
    → IsQuiet (λ t. (append_event event_id now t i).0)
unfolding append_event
event-IsQuiet event_id now i calm t = (ground (arith, calm), refl)

same_root-sym : (a b : Option Text) → same_root a b ≡ true → same_root b a ≡ true
same_root-sym none b h = absurd cc
same_root-sym (some a) none h = absurd cc
same_root-sym (some a) (some b) h = rw (text_eq_sound a b h) (text_eq_refl b)

no_rival :
    (d : Dict TaskInfo) (j : String) (u t : TaskInfo)
    → any
        (λ (u : TaskInfo). is_at_work u && same_root (task_write_root u) (task_write_root t))
        (values d)
      ≡ false
    → get d j ≡ some u
    → is_at_work u ≡ true
    → same_root (task_write_root u) (task_write_root t) ≡ true
    → ⊥
no_rival d j u t idle here works same =
    let seen =
      any-In (λ (u : TaskInfo). is_at_work u && same_root (task_write_root u) (task_write_root t))
        (values d) u (In-get d j u here) (rw (works, same) refl) in
    ground (arith, seen, idle)

-- What stands in the map after a change at `k`: the changed task there, or an old one elsewhere.
altered :
    (d : Dict TaskInfo) (k i : String) (f : TaskInfo → TaskInfo) (t a : TaskInfo)
    → get d k ≡ some t
    → get (alter d k f) i ≡ some a
    → ((k ≡ i) × (f t ≡ a)) ⊎ (get d i ≡ some a)
altered d k i f t a here h = elim (Bool-cases (str_eq k i)) [
  | inl hit ↦
      let e : k ≡ i = (eq_iff k i).0 hit in
      let h' : get (alter d k f) k ≡ some a = rw (← e) at h in
      inl (e, some_inj (sym (get-alter_self d k f here) ∙ h'))
  | inr miss ↦ inr (ground (arith, get-alter d k i f, h, miss))
]

-- Where the checkout of the task is free, setting it to work keeps one writer.
pub assigned_one :
    (d : Dict TaskInfo) (k : String) (f : TaskInfo → TaskInfo) (t : TaskInfo)
    → get d k ≡ some t
    → task_write_root (f t) ≡ task_write_root t
    → any
        (λ (u : TaskInfo). is_at_work u && same_root (task_write_root u) (task_write_root t))
        (values d)
      ≡ false
    → OneWriter d
    → OneWriter (alter d k f)
assigned_one d k f t here root idle one = record {
  same = λ i j a b ha hb wa wb r. elim (altered d k i f t a here ha) [
    | inl (ki, fa) ↦ elim (altered d k j f t b here hb) [
      | inl (kj, fb) ↦ sym ki ∙ kj
      | inr old ↦ absurd (
          no_rival d j b t idle old wb
            (same_root-sym (task_write_root t) (task_write_root b) (rw (← root) (rw fa r))))
    ]
    | inr old ↦ elim (altered d k j f t b here hb) [
      | inl (kj, fb) ↦ absurd (no_rival d i a t idle old wa (rw (← root) (rw fb r)))
      | inr older ↦ one.same i j a b old older wa wb r
    ]
  ];
}
