-- ===== src/MessagesExamples.antt =====
-- Tests of the messages, and their theorems at concrete inputs.
use teamclaw.Prelude.{
  ◌≡◌, ◌⊎◌, refl, true, false, ◌&&◌, not, none, some, [], ◌∷◌, map, filter, any, In, All, take_last,
  values, text_truthy, str_eq, String, List,
}
use teamclaw.Team.{WorkerStatus, WorkerInfo, TeamMessage, MessageType, is_offline}
use teamclaw.Assignment.{option_eq}
use teamclaw.Messages.{
  new_queue, max_messages, push, drain, peek, clear, has_messages, copies, route_direct_message,
  route_broadcast, takes_direct,
}
use teamclaw.Messages.Queue.{push_all, push_all-drain}
use teamclaw.Messages.Router.{route_direct_message_lem, route_broadcast_lem, IsCopy}
use teamclaw.Fixtures.{dev}

abbrev hello : TeamMessage
hello = record {
  id = "m1";
  from = "w1";
  from_role = some "developer";
  to = none;
  to_role = some "qa";
  type = MessageType.direct;
  content = "Please test the build.";
  contract = none;
  task_id = some "t1";
  created_at = 0;
}

abbrev tester : WorkerInfo
tester = record dev { id = "w2"; role = "qa" }

abbrev asleep : WorkerInfo
asleep = record dev { id = "w3"; role = "qa"; status = WorkerStatus.offline }

abbrev crew : List (String × WorkerInfo)
crew = ("w1", dev) ∷ ("w3", asleep) ∷ ("w2", tester) ∷ []

abbrev two : List TeamMessage
two = hello ∷ record hello { id = "m2" } ∷ []

finds_tester :
    route_direct_message "new" 7 hello crew
    ≡ some (tester, record hello { to = some "w2"; created_at = 7 })
unfolding route_direct_message
finds_tester = refl

tells_others :
    map (λ (r : WorkerInfo × TeamMessage). r.0) (route_broadcast (λ n. "new") 7 hello crew)
    ≡ tester ∷ []
unfolding route_broadcast copies
tells_others = refl

reads_without_taking : peek (push_all new_queue two) ≡ two
unfolding peek push
reads_without_taking = refl

forgets : has_messages (clear (push_all new_queue two)) ≡ false
unfolding clear has_messages
forgets = refl

push_all-drain_example :
    ((drain (push_all new_queue two)).0 ≡ take_last max_messages two)
    × (has_messages (drain (push_all new_queue two)).1 ≡ false)
push_all-drain_example = push_all-drain two

route_direct_message_example :
    ((route_direct_message "new" 7 hello crew ≡ none)
      × (text_truthy (some "qa") && any (takes_direct (some "qa")) (values crew) ≡ false))
    ⊎ ((w : WorkerInfo) × (copy : TeamMessage) × (route_direct_message "new" 7 hello crew
          ≡ some (w, copy))
        × In w (values crew)
        × (option_eq (some "qa") w.role && not (is_offline w.status) ≡ true)
        × (copy.to ≡ some w.id)
        × (copy.content ≡ "Please test the build.")
        × (copy.from ≡ "w1")
        × (copy.to_role ≡ some "qa"))
route_direct_message_example = route_direct_message_lem "new" 7 hello crew

route_broadcast_example :
    (map (λ (r : WorkerInfo × TeamMessage). r.0) (route_broadcast (λ n. "new") 7 hello crew)
      ≡ filter (λ w. not (is_offline w.status) && not (str_eq w.id "w1")) (values crew))
    × All (IsCopy hello) (route_broadcast (λ n. "new") 7 hello crew)
route_broadcast_example = route_broadcast_lem (λ n. "new") 7 hello crew
