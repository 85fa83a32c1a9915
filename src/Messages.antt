-- ===== src/Messages.antt =====
-- Messages between the members of a team: src/src/controller/message-router.ts, which finds the
-- receivers, and src/src/worker/message-queue.ts, which keeps what a worker has not read yet.
pub mod Queue
pub mod Router
use teamclaw.Prelude.{
  ℕ, zero, suc, String, Bool, true, false, ◌&&◌, not, Option, none, some, List, [], ◌∷◌, ◌++◌, ltb,
  if◌then◌else◌, length, take_last, filter, find, Dict, values, text_truthy, str_truthy, str_eq,
}
use teamclaw.Team.{WorkerInfo, TeamMessage, is_offline}
use teamclaw.Assignment.{option_eq}

-- A number as a condition, with the value for 0.
abbrev or_number : ℕ → ℕ → ℕ
or_number zero b = b
or_number (suc a) b = suc a

abbrev pub or_text : String → String → String
or_text a b = if str_truthy a then a else b

-- The message as it goes to a worker.
abbrev pub addressed : String → ℕ → TeamMessage → WorkerInfo → TeamMessage
addressed id now m w = record m { id = id; to = some w.id; created_at = or_number m.created_at now }

abbrev pub takes_direct : Option String → WorkerInfo → Bool
takes_direct role w = option_eq role w.role && not (is_offline w.status)

-- `routeDirectMessage` and `routeReviewRequest`, with the id that `generateId` would give.
unfoldable pub route_direct_message :
    String → ℕ → TeamMessage → Dict WorkerInfo → Option (WorkerInfo × TeamMessage)
route_direct_message id now m workers =
    if not (text_truthy m.to_role)
    then none
    else elim (find (takes_direct m.to_role) (values workers)) [
      | none ↦ none
      | some w ↦ some (w, addressed (or_text m.id id) now m w)
    ]

abbrev pub takes_broadcast : String → WorkerInfo → Bool
takes_broadcast from w = not (is_offline w.status) && not (str_eq w.id from)

-- One copy to each receiver; `ids n` is what the call of `generateId` for the `n`-th one gives.
unfoldable pub copies :
    (ℕ → String) → ℕ → TeamMessage → ℕ → List WorkerInfo → List (WorkerInfo × TeamMessage)
copies ids now m n [] = []
copies ids now m n (w ∷ ws) = (w, addressed (ids n) now m w) ∷ copies ids now m (suc n) ws

-- `routeBroadcast`
unfoldable pub route_broadcast :
    (ℕ → String) → ℕ → TeamMessage → Dict WorkerInfo → List (WorkerInfo × TeamMessage)
route_broadcast ids now m workers =
    copies ids now m 0 (filter (takes_broadcast m.from) (values workers))

-- The state of a `MessageQueue`.
pub record MessageQueue : Type 0 where
  pub messages : List TeamMessage

abbrev pub max_messages : ℕ
max_messages = 100

abbrev pub new_queue : MessageQueue
new_queue = record { messages = [] }

unfoldable pub push : MessageQueue → TeamMessage → MessageQueue
push q m =
    let all = q.messages ++ m ∷ [] in
    record { messages = if ltb max_messages (length all) then take_last max_messages all else all }

-- `drain`, with the queue that it leaves.
unfoldable pub drain : MessageQueue → List TeamMessage × MessageQueue
drain q = (q.messages, record { messages = [] })

unfoldable pub peek : MessageQueue → List TeamMessage
peek q = q.messages

unfoldable pub has_messages : MessageQueue → Bool
has_messages q = ltb 0 (length q.messages)

unfoldable pub clear : MessageQueue → MessageQueue
clear q = record { messages = [] }
