-- ===== src/Messages/Queue.antt =====
-- What a worker reads of the messages that were pushed to its queue.
use teamclaw.Prelude.{
  ℕ, zero, suc, ◌+◌, ◌-◌, ◌≤◌, ◌≡◌, refl, sym, ◌∙◌, ap, false, inl, inr, List, [], ◌∷◌, ◌++◌, arith,
  length, drop, take_last, length-append, length-drop, length-take_last, ltb, Bool-cases,
}
use teamclaw.Team.{TeamMessage}
use teamclaw.Messages.{MessageQueue, max_messages, push, drain, has_messages, new_queue}

append-append {ℓ} : {A : Type ℓ} (xs ys zs : List A) → (xs ++ ys) ++ zs ≡ xs ++ (ys ++ zs)
append-append [] ys zs = refl
append-append (x ∷ xs) ys zs = ap (λ r. x ∷ r) (append-append xs ys zs)

append_nil {ℓ} : {A : Type ℓ} (xs : List A) → xs ++ [] ≡ xs
append_nil [] = refl
append_nil (x ∷ xs) = ap (λ r. x ∷ r) (append_nil xs)

drop_front {ℓ} :
    {A : Type ℓ} (k : ℕ) (xs ys : List A) → k ≤ length xs → drop k xs ++ ys ≡ drop k (xs ++ ys)
drop_front zero xs ys h = refl
drop_front (suc k) [] ys h = absurd (omega arith)
drop_front (suc k) (x ∷ xs) ys h = drop_front k xs ys (omega arith)

drop_nil {ℓ} : {A : Type ℓ} (k : ℕ) → Path (List A) (drop k []) []
drop_nil zero = refl
drop_nil (suc k) = refl

drop-drop {ℓ} : {A : Type ℓ} (j k : ℕ) (xs : List A) → drop k (drop j xs) ≡ drop (j + k) xs
drop-drop zero k xs = let same : 0 + k ≡ k = omega arith in rw same refl
drop-drop (suc j) k [] = let same : suc j + k ≡ suc (j + k) = omega arith in rw same (drop_nil k)
drop-drop (suc j) k (x ∷ xs) =
    let same : suc j + k ≡ suc (j + k) = omega arith in rw same (drop-drop j k xs)

-- To cut a list to its last items before more are added changes nothing of the last items.
take_last-append {ℓ} :
    {A : Type ℓ} (n : ℕ) (xs ys : List A)
    → take_last n (take_last n xs ++ ys) ≡ take_last n (xs ++ ys)
take_last-append n xs ys =
    let j = length xs - n in
    let same : j + (length (drop j xs ++ ys) - n) ≡ length (xs ++ ys) - n =
      omega (arith, length-append (drop j xs) ys, length-append xs ys, length-drop j xs) in
    ap (λ l. drop (length (drop j xs ++ ys) - n) l) (drop_front j xs ys (omega arith))
    ∙ drop-drop j (length (drop j xs ++ ys) - n) (xs ++ ys)
    ∙ ap (λ k. drop k (xs ++ ys)) same

take_last_all {ℓ} : {A : Type ℓ} (n : ℕ) (xs : List A) → length xs ≤ n → take_last n xs ≡ xs
take_last_all n xs h = let none_lost : length xs - n ≡ 0 = omega arith in rw none_lost refl

messages-push :
    (q : MessageQueue) (m : TeamMessage)
    → (push q m).messages ≡ take_last max_messages (q.messages ++ m ∷ [])
unfolding push
messages-push q m = elim (Bool-cases (ltb 100 (length (q.messages ++ m ∷ [])))) [
  | inl more ↦ rw more refl
  | inr fits ↦ rw fits (sym (take_last_all 100 (q.messages ++ m ∷ []) (ground arith)))
]

length-messages-push :
    (q : MessageQueue) (m : TeamMessage) → length (push q m).messages ≤ max_messages
length-messages-push q m =
    rw (messages-push q m) (omega (arith, length-take_last 100 (q.messages ++ m ∷ [])))

abbrev pub push_all : MessageQueue → List TeamMessage → MessageQueue
push_all q [] = q
push_all q (m ∷ ms) = push_all (push q m) ms

messages-push_all :
    (q : MessageQueue) (ms : List TeamMessage)
    → length q.messages ≤ max_messages
    → (push_all q ms).messages ≡ take_last max_messages (q.messages ++ ms)
messages-push_all q [] h =
    sym (append_nil q.messages)
    ∙ sym (take_last_all 100 (q.messages ++ []) (omega (arith, length-append q.messages [])))
messages-push_all q (m ∷ ms) h =
    messages-push_all (push q m) ms (length-messages-push q m)
    ∙ ap (λ l. take_last 100 (l ++ ms)) (messages-push q m)
    ∙ take_last-append 100 (q.messages ++ m ∷ []) ms
    ∙ ap (λ l. take_last 100 l) (append-append q.messages (m ∷ []) ms)

-- Whatever messages are pushed to a new queue, a drain returns the last 100 of them in the order in
-- which they came, and leaves a queue without messages.
pub push_all-drain :
    (ms : List TeamMessage)
    → ((drain (push_all new_queue ms)).0 ≡ take_last max_messages ms)
      × (has_messages (drain (push_all new_queue ms)).1 ≡ false)
unfolding drain has_messages
push_all-drain ms = (messages-push_all new_queue ms (omega arith), refl)
