-- ===== src/State/Again.antt =====
-- A state that was brought to the current version is not changed again.
use teamclaw.Prelude.{
  String, Bool-cases, true, false, ◌≡◌, refl, ap, ◌∙◌, sym, inl, inr, str_eq, arith,
}
use teamclaw.Value.{
  Value, Fields, object, array, text, number, undefined, null, boolean, lookup, field, truthy,
  is_object, natural,
}
use teamclaw.State.{
  set, is_state, is_array, with_messages, without_bad_repo, with_parts, provisioning_state,
  saved_version, is_newer, Migrated, migrated, migrate_state, state_version,
}
use teamclaw.State.Setting.{set-lookup, set_again}
use teamclaw.State.Readiness.{provisioning_state_again, with_object_same}
use teamclaw.State.Complete.{
  is_managed, IsComplete, lookup-set_other, lookup-set_own, lookup-with_parts,
  with_parts-IsComplete, is_bad, is_kept,
}

with_messages_same : (fs : Fields) → is_array (lookup fs "messages") ≡ true → with_messages fs ≡ fs
unfolding with_messages
with_messages_same fs h = rw (h, with_messages) refl

without_bad_repo_same : (fs : Fields) → is_bad (lookup fs "repo") ≡ false → without_bad_repo fs ≡ fs
unfolding without_bad_repo
without_bad_repo_same fs h = rw (h, without_bad_repo) refl

managed-truthy : (v : Value) → is_managed v ≡ true → truthy v ≡ true
managed-truthy v h = ground arith

with_parts_same :
    (fs : Fields)
    → IsComplete fs
    → provisioning_state (lookup fs "provisioning") ≡ lookup fs "provisioning"
    → with_parts fs ≡ fs
unfolding with_parts
with_parts_same fs h same =
    rw
      (
        with_object_same "controllerRuns" fs h.0,
        with_object_same "projects" fs h.1.0,
        with_messages_same fs h.1.1.0,
        with_object_same "clarifications" fs h.1.1.1.0,
        without_bad_repo_same fs h.1.1.1.1.0,
        same,
      )
      (set-lookup fs "provisioning" (lookup fs "provisioning") refl
        (managed-truthy (lookup fs "provisioning") h.1.1.1.1.1))

with_parts-provisioning :
    (fs : Fields)
    → provisioning_state (lookup (with_parts fs) "provisioning")
      ≡ lookup (with_parts fs) "provisioning"
unfolding with_parts
with_parts-provisioning fs = rw (lookup-set_own _ "provisioning" _) (provisioning_state_again _)

abbrev with_version : Fields → Fields
with_version fs = set fs "version" (number (natural state_version))

with_version-IsComplete : (fs : Fields) → IsComplete fs → IsComplete (with_version fs)
with_version-IsComplete fs h =
    let v = number (natural state_version) in
    (
      ap is_object (lookup-set_other fs "version" "controllerRuns" v refl) ∙ h.0,
      (
        ap is_object (lookup-set_other fs "version" "projects" v refl) ∙ h.1.0,
        (
          ap is_array (lookup-set_other fs "version" "messages" v refl) ∙ h.1.1.0,
          (
            ap is_object (lookup-set_other fs "version" "clarifications" v refl) ∙ h.1.1.1.0,
            (
              ap is_bad (lookup-set_other fs "version" "repo" v refl) ∙ h.1.1.1.1.0,
              ap is_managed (lookup-set_other fs "version" "provisioning" v refl) ∙ h.1.1.1.1.1,
            ),
          ),
        ),
      ),
    )

-- The state that a migration makes of the fields.
abbrev current : Fields → Fields
current fs = with_version (with_parts fs)

lookup-current :
    (fs : Fields) (m : String)
    → is_kept m ≡ true
    → str_eq "version" m ≡ false
    → lookup (current fs) m ≡ lookup fs m
lookup-current fs m h e =
    lookup-set_other (with_parts fs) "version" m _ e ∙ lookup-with_parts fs m h

current-is_state : (fs : Fields) → is_state (current fs) ≡ is_state fs
current-is_state fs =
    rw
      (
        lookup-current fs "teamName" refl refl,
        lookup-current fs "createdAt" refl refl,
        lookup-current fs "updatedAt" refl refl,
        lookup-current fs "workers" refl refl,
        lookup-current fs "tasks" refl refl,
      )
      refl

current-is_newer : (fs : Fields) → is_newer (saved_version (current fs)) ≡ false
current-is_newer fs =
    rw (lookup-set_own (with_parts fs) "version" (number (natural state_version)), saved_version)
      refl

current_again : (fs : Fields) → current (current fs) ≡ current fs
current_again fs =
    let same : with_parts (current fs) ≡ current fs =
      with_parts_same (current fs)
        (with_version-IsComplete (with_parts fs) (with_parts-IsComplete fs))
        (rw
          (lookup-set_other (with_parts fs) "version" "provisioning"
            (number (natural state_version)) refl)
          (with_parts-provisioning fs)) in
    rw same (set_again (with_parts fs) "version" (number (natural state_version)))

-- A complete state of the current version, with the guarded fields of the state it was made of.
abbrev pub IsCurrent : Value → Value → Type 0
IsCurrent raw (object fs) =
    IsComplete fs
    × ((lookup fs "version" ≡ number (natural state_version))
        × ((lookup fs "workers" ≡ field raw "workers") × (lookup fs "tasks" ≡ field raw "tasks")))
IsCurrent raw _ = ⊥

result_of : Migrated → Value
result_of (migrated v) = v
result_of _ = undefined

migrate_object :
    (fs : Fields) (v : Value)
    → migrate_state (object fs) ≡ migrated v
    → (is_state fs ≡ true) × (v ≡ object (current fs))
unfolding migrate_state result_of
migrate_object fs v h = elim (Bool-cases (is_state fs)) [
  | inr odd ↦ absurd (ground (arith, rw (odd, migrate_state) at h))
  | inl fit ↦ elim (Bool-cases (is_newer (saved_version fs))) [
    | inl newer ↦ absurd (ground (arith, rw (fit, newer, migrate_state) at h))
    | inr known ↦ (fit, sym (ap result_of (rw (fit, known, migrate_state) at h)))
  ]
]

-- What the migration makes of a saved state has the objects of runs, projects and clarifications, the
-- list of messages and the object on provisioning with one of its workers, whatever stood there before,
-- and a record of the repository only if it is an object; its version is the current one, the workers
-- and the tasks are as they were saved, and to migrate it again changes nothing.
pub migrate_state_again :
    (raw v : Value)
    → migrate_state raw ≡ migrated v
    → IsCurrent raw v × (migrate_state v ≡ migrated v)
unfolding migrate_state
migrate_state_again (object fs) v h =
    let m = migrate_object fs v h in
    let own = lookup-set_own (with_parts fs) "version" (number (natural state_version)) in
    let fit = current-is_state fs ∙ m.0 in
    rw m.1 (
      (
        with_version-IsComplete (with_parts fs) (with_parts-IsComplete fs),
        (own, (lookup-current fs "workers" refl refl, lookup-current fs "tasks" refl refl)),
      ),
      rw (fit, current-is_newer fs, migrate_state)
          (ap (λ x. migrated (object x)) (current_again fs)),
    )
migrate_state_again undefined v h = absurd (ground (arith, h))
migrate_state_again null v h = absurd (ground (arith, h))
migrate_state_again (boolean b) v h = absurd (ground (arith, h))
migrate_state_again (number n) v h = absurd (ground (arith, h))
migrate_state_again (text s) v h = absurd (ground (arith, h))
migrate_state_again (array vs) v h = absurd (ground (arith, h))
