-- ===== src/StateExamples.antt =====
-- The migration of a saved state of the first version, in which parts are missing or damaged.
use teamclaw.Prelude.{◌≡◌, refl, true, [], str_trim}
use teamclaw.Value.{
  Value, Fields, end, with, undefined, object, text, number, boolean, natural, texts,
}
use teamclaw.State.{migrated, migrate_state, readiness_of}
use teamclaw.State.Again.{IsCurrent, migrate_state_again}

abbrev common : Fields → Fields
common rest = with "teamName" (text "alpha") (
    with "createdAt" (number (natural 1)) (
      with "updatedAt" (number (natural 2))
        (with "workers" (object end) (with "tasks" (object end) rest))))

abbrev readiness : Value
readiness =
    readiness_of (text "ready") (number (natural 3)) (number (natural 4)) 1 [] [] (text "  ")

abbrev saved : Value
saved = object (
    common (
      with "repo" (boolean true)
        (with "provisioning" (object (with "startupReadiness" readiness end)) end)))

abbrev loaded : Value
loaded = object (
    common (
      with "provisioning"
        (object (
          with "startupReadiness"
            (readiness_of (text "ready") (number (natural 3)) (number (natural 4)) 1 [] []
              undefined)
            (with "workers" (object end) end)))
        (with "controllerRuns" (object end) (
          with "projects" (object end) (
            with "messages" (texts [])
              (with "clarifications" (object end) (with "version" (number (natural 2)) end)))))))

saved_before : migrate_state saved ≡ migrated loaded
unfolding migrate_state str_trim
saved_before = refl

migrate_state_example : IsCurrent saved loaded × (migrate_state loaded ≡ migrated loaded)
migrate_state_example = migrate_state_again saved loaded saved_before
