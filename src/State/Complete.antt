-- ===== src/State/Complete.antt =====
-- What a state that was brought to the current version holds.
use teamclaw.Prelude.{
  String, Bool, Bool-cases, true, false, ◌≡◌, refl, ap, ◌∙◌, inl, inr, str_eq, eq_refl, ◌&&◌, ◌||◌,
  not, arith, [],
}
use teamclaw.Value.{
  field, Value, Fields, end, object, array, text, number, undefined, null, boolean, lookup, truthy,
  is_object, texts,
}
use teamclaw.State.{
  set, is_array, with_object, with_messages, without_bad_repo, with_parts, provisioning_state,
  with_readiness, indexed,
}
use teamclaw.State.Setting.{lookup-assign, lookup-set, lookup-unset}

-- The part on provisioning: an object, with an object of workers.
abbrev pub is_managed : Value → Bool
is_managed v = is_object v && is_object (field v "workers")

-- What the program relies on in a loaded state.
abbrev pub IsComplete : Fields → Type 0
IsComplete fs =
    (is_object (lookup fs "controllerRuns") ≡ true)
    × ((is_object (lookup fs "projects") ≡ true)
        × ((is_array (lookup fs "messages") ≡ true)
            × ((is_object (lookup fs "clarifications") ≡ true)
                × (((truthy (lookup fs "repo") && not (is_object (lookup fs "repo"))) ≡ false)
                    × (is_managed (lookup fs "provisioning") ≡ true)))))

pub lookup-set_other :
    (fs : Fields) (n m : String) (v : Value)
    → str_eq n m ≡ false
    → lookup (set fs n v) m ≡ lookup fs m
lookup-set_other fs n m v e = lookup-set fs n m v ∙ rw e refl

pub lookup-set_own : (fs : Fields) (n : String) (v : Value) → lookup (set fs n v) n ≡ v
lookup-set_own fs n v = lookup-set fs n n v ∙ rw (eq_refl n) refl

lookup-with_object :
    (name : String) (fs : Fields) (m : String)
    → str_eq name m ≡ false
    → lookup (with_object name fs) m ≡ lookup fs m
unfolding with_object
lookup-with_object name fs m e = elim (Bool-cases (is_object (lookup fs name))) [
  | inl good ↦ rw (good, with_object) refl
  | inr bad ↦ rw (bad, with_object) (lookup-set_other fs name m (object end) e)
]

pub with_object-object :
    (name : String) (fs : Fields) → is_object (lookup (with_object name fs) name) ≡ true
unfolding with_object
with_object-object name fs = elim (Bool-cases (is_object (lookup fs name))) [
  | inl good ↦ rw (good, with_object) good
  | inr bad ↦ rw (bad, with_object) (rw (lookup-set_own fs name (object end)) refl)
]

lookup-with_messages :
    (fs : Fields) (m : String)
    → str_eq "messages" m ≡ false
    → lookup (with_messages fs) m ≡ lookup fs m
unfolding with_messages
lookup-with_messages fs m e = elim (Bool-cases (is_array (lookup fs "messages"))) [
  | inl good ↦ rw (good, with_messages) refl
  | inr bad ↦ rw (bad, with_messages) (lookup-set_other fs "messages" m (texts []) e)
]

with_messages-array : (fs : Fields) → is_array (lookup (with_messages fs) "messages") ≡ true
unfolding with_messages
with_messages-array fs = elim (Bool-cases (is_array (lookup fs "messages"))) [
  | inl good ↦ rw (good, with_messages) good
  | inr bad ↦ rw (bad, with_messages) (rw (lookup-set_own fs "messages" (texts [])) refl)
]

-- The record of the repository, if there is one, is an object.
abbrev pub is_bad : Value → Bool
is_bad v = truthy v && not (is_object v)

lookup-without_bad_repo :
    (fs : Fields) (m : String)
    → str_eq "repo" m ≡ false
    → lookup (without_bad_repo fs) m ≡ lookup fs m
unfolding without_bad_repo
lookup-without_bad_repo fs m e = elim (Bool-cases (is_bad (lookup fs "repo"))) [
  | inl bad ↦ rw (bad, without_bad_repo) (lookup-unset fs "repo" m ∙ rw e refl)
  | inr good ↦ rw (good, without_bad_repo) refl
]

without_bad_repo-good : (fs : Fields) → is_bad (lookup (without_bad_repo fs) "repo") ≡ false
unfolding without_bad_repo
without_bad_repo-good fs = elim (Bool-cases (is_bad (lookup fs "repo"))) [
  | inl bad ↦ rw (bad, without_bad_repo) (rw (lookup-unset fs "repo" "repo") refl)
  | inr good ↦ rw (good, without_bad_repo) good
]

with_readiness-workers : (fs : Fields) → is_object (lookup (with_readiness fs) "workers") ≡ true
unfolding with_readiness
with_readiness-workers fs =
    ap is_object (lookup-assign (with_object "workers" fs) "startupReadiness" "workers" _)
    ∙ with_object-object "workers" fs

provisioning_state-managed : (v : Value) → is_managed (provisioning_state v) ≡ true
unfolding provisioning_state
provisioning_state-managed (object fs) = with_readiness-workers fs
provisioning_state-managed (array vs) = with_readiness-workers (indexed 0 vs)
provisioning_state-managed undefined = refl
provisioning_state-managed null = refl
provisioning_state-managed (boolean b) = refl
provisioning_state-managed (number n) = refl
provisioning_state-managed (text s) = refl

-- The five fields of the guard and the version are as they were.
abbrev pub is_kept : String → Bool
is_kept m = not (
    str_eq "controllerRuns" m
    || str_eq "projects" m
    || str_eq "messages" m
    || str_eq "clarifications" m
    || str_eq "repo" m
    || str_eq "provisioning" m)

pub lookup-with_parts :
    (fs : Fields) (m : String) → is_kept m ≡ true → lookup (with_parts fs) m ≡ lookup fs m
unfolding with_parts
lookup-with_parts fs m h =
    lookup-set_other _ "provisioning" m _ (ground arith)
    ∙ lookup-without_bad_repo _ m (ground arith)
    ∙ lookup-with_object "clarifications" _ m (ground arith)
    ∙ lookup-with_messages _ m (ground arith)
    ∙ lookup-with_object "projects" _ m (ground arith)
    ∙ lookup-with_object "controllerRuns" _ m (ground arith)

pub with_parts-IsComplete : (fs : Fields) → IsComplete (with_parts fs)
unfolding with_parts
with_parts-IsComplete fs =
    let a = with_object "controllerRuns" fs in
    let b = with_object "projects" a in
    let c = with_messages b in
    let d = with_object "clarifications" c in
    let e = without_bad_repo d in
    let p = provisioning_state (lookup e "provisioning") in
    let runs : lookup (with_parts fs) "controllerRuns" ≡ lookup a "controllerRuns" =
      lookup-set_other e "provisioning" "controllerRuns" p refl
      ∙ lookup-without_bad_repo d "controllerRuns" refl
      ∙ lookup-with_object "clarifications" c "controllerRuns" refl
      ∙ lookup-with_messages b "controllerRuns" refl
      ∙ lookup-with_object "projects" a "controllerRuns" refl in
    let projects : lookup (with_parts fs) "projects" ≡ lookup b "projects" =
      lookup-set_other e "provisioning" "projects" p refl
      ∙ lookup-without_bad_repo d "projects" refl
      ∙ lookup-with_object "clarifications" c "projects" refl
      ∙ lookup-with_messages b "projects" refl in
    let messages : lookup (with_parts fs) "messages" ≡ lookup c "messages" =
      lookup-set_other e "provisioning" "messages" p refl
      ∙ lookup-without_bad_repo d "messages" refl
      ∙ lookup-with_object "clarifications" c "messages" refl in
    let questions : lookup (with_parts fs) "clarifications" ≡ lookup d "clarifications" =
      lookup-set_other e "provisioning" "clarifications" p refl
      ∙ lookup-without_bad_repo d "clarifications" refl in
    (
      ap is_object runs ∙ with_object-object "controllerRuns" fs,
      (
        ap is_object projects ∙ with_object-object "projects" a,
        (
          ap is_array messages ∙ with_messages-array b,
          (
            ap is_object questions ∙ with_object-object "clarifications" c,
            (
              ap is_bad (lookup-set_other e "provisioning" "repo" p refl) ∙ without_bad_repo-good d,
              ap is_managed (lookup-set_own e "provisioning" p)
                  ∙ provisioning_state-managed (lookup e "provisioning"),
            ),
          ),
        ),
      ),
    )
