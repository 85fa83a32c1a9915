-- ===== src/State/Readiness.antt =====
-- The readiness of a start and the part on provisioning are not changed when they are checked again.
use teamclaw.Prelude.{
  ℕ, String, Bool, Bool-cases, true, ◌≡◌, refl, ap, ◌∙◌, inl, inr, ◌&&◌, arith, List, [], ◌∷◌, map,
  str_truthy, str_trim,
}
use teamclaw.Value.{
  Value, Fields, object, array, text, number, undefined, null, boolean, lookup, field, is_object,
  natural, list_of, texts, items-of_list, at_least,
}
use teamclaw.State.{
  assign, is_number, with_object, provisioning_state, with_readiness, indexed, startup_readiness,
  only_texts, message_of, known_status, readiness_of,
}
use teamclaw.State.Setting.{assign_again, lookup-assign}
use teamclaw.State.Complete.{with_object-object}

pub with_object_same :
    (name : String) (fs : Fields) → is_object (lookup fs name) ≡ true → with_object name fs ≡ fs
unfolding with_object
with_object_same name fs h = rw (h, with_object) refl

only_texts-texts : (ss : List String) → only_texts (map (λ s. text s) ss) ≡ ss
unfolding only_texts
only_texts-texts [] = refl
only_texts-texts (s ∷ ss) = ap (λ r. s ∷ r) (only_texts-texts ss)

only_texts_again : (ss : List String) → only_texts (list_of (texts ss)) ≡ ss
only_texts_again ss = ap only_texts (items-of_list (map (λ s. text s) ss)) ∙ only_texts-texts ss

message_of_again : (v : Value) → message_of (message_of v) ≡ message_of v
message_of_again undefined = refl
message_of_again null = refl
message_of_again (boolean b) = refl
message_of_again (number n) = refl
message_of_again (text s) = elim (Bool-cases (str_truthy (str_trim s))) [
  | inl said ↦ rw (said, message_of) (rw said refl)
  | inr blank ↦ rw (blank, message_of) refl
]
message_of_again (array vs) = refl
message_of_again (object fs) = refl

is_stamped : Value → Value → Value → Bool
is_stamped status started_at checked_at =
    known_status status && is_number started_at && is_number checked_at

at_least_zero : (n : ℕ) → at_least 0 (natural n) ≡ true
at_least_zero n = ground arith

startup_readiness-readiness_of :
    (st sa ca : Value) (n : ℕ) (rs ids : List String) (m : Value)
    → is_stamped st sa ca ≡ true
    → startup_readiness (readiness_of st sa ca n rs ids m)
      ≡ readiness_of st sa ca n rs ids (message_of m)
unfolding startup_readiness is_stamped
startup_readiness-readiness_of st sa ca n rs ids m h =
    rw (h, only_texts_again rs, only_texts_again ids, at_least_zero n) refl

startup_readiness_again :
    (v : Value) → startup_readiness (startup_readiness v) ≡ startup_readiness v
unfolding startup_readiness is_stamped
startup_readiness_again v =
    let st = field v "status" in
    let sa = field v "startedAt" in
    let ca = field v "checkedAt" in
    elim (Bool-cases (is_stamped st sa ca)) [
      | inl good ↦
          rw (good, startup_readiness)
            (startup_readiness-readiness_of st sa ca _ _ _ _ good
              ∙ ap (readiness_of st sa ca _ _ _) (message_of_again (field v "message")))
      | inr bad ↦ rw (bad, startup_readiness) refl
    ]

with_readiness_again : (fs : Fields) → with_readiness (with_readiness fs) ≡ with_readiness fs
unfolding with_readiness
with_readiness_again fs =
    let f = with_object "workers" fs in
    let r = startup_readiness (lookup fs "startupReadiness") in
    let g = assign f "startupReadiness" r in
    let still : with_object "workers" g ≡ g = with_object_same "workers" g (
      ap is_object (lookup-assign f "startupReadiness" "workers" r)
      ∙ with_object-object "workers" fs) in
    let same : startup_readiness (lookup g "startupReadiness") ≡ r =
      ap startup_readiness (lookup-assign f "startupReadiness" "startupReadiness" r)
      ∙ startup_readiness_again (lookup fs "startupReadiness") in
    rw (still, same) (assign_again f "startupReadiness" r)

pub provisioning_state_again :
    (v : Value) → provisioning_state (provisioning_state v) ≡ provisioning_state v
unfolding provisioning_state
provisioning_state_again (object fs) = ap object (with_readiness_again fs)
provisioning_state_again (array vs) = ap object (with_readiness_again (indexed 0 vs))
provisioning_state_again undefined = refl
provisioning_state_again null = refl
provisioning_state_again (boolean b) = refl
provisioning_state_again (number n) = refl
provisioning_state_again (text s) = refl
