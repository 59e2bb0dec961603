-- ===== src/Sqs/Storage/Invariant.antt =====
-- Every queue has a message list and every message list a queue, whatever the operations were, so
-- that an accepted message is never lost.
use ruststack.Prelude.{
  ℕ, ◌≡◌, refl, String, some, List, [], ◌∷◌, ◌++◌, arith, ◌==◌, string_eq, eq_iff, if◌then◌else◌,
  Option-cases, inl, inr,
}
use ruststack.Prelude.Int.{ℤ}
use ruststack.Dict.{get, put, contains_key, get-put, get-remove}
use ruststack.Result.{Result, ok, state, reply}
use ruststack.Reach.{Reach, Reach_induction}
use ruststack.Sqs.Storage.Delete.{delete_message-state}
use ruststack.Sqs.Storage.{
  Queue, Message, SqsStorage, SqsError, new, new_queue, create_queue, delete_queue, send_message,
  send_to, new_message, receive_message, receive_existing, delete_message,
}

-- The two maps have the same keys, and each queue stands at its name.
pub record IsValid (s : SqsStorage) : Type 0 where
  pub paired : (k : String) → contains_key k s.messages ≡ contains_key k s.queues
  pub named : (k : String) (q : Queue) → get k s.queues ≡ some q → q.name ≡ k

pub data Step (s : SqsStorage) : SqsStorage → Type 0 where
  creates : (now : ℕ) (name : String) → Step s (state (create_queue now name s))
  deletes : (name : String) → Step s (state (delete_queue name s))
  sends :
      (message_id receipt_handle : String) (now : ℕ) (name body : String)
      → Step s (state (send_message message_id receipt_handle now name body s))
  receives :
      (handle : ℕ → String) (clock : ℕ → ℕ) (name : String) (z : ℤ)
      → Step s (state (receive_message handle clock name z s))
  removes : (name receipt_handle : String) → Step s (state (delete_message name receipt_handle s))

module _ (s : SqsStorage) (v : IsValid s) where
  -- A change of the messages of one queue that has some.
  put_messages-IsValid :
      (name : String) (old ms : List Message)
      → get name s.messages ≡ some old
      → IsValid (record s { messages = put name ms s.messages })
  unfolding contains_key
  put_messages-IsValid name old ms e = record {
    paired = λ k. ground (arith, get-put name k ms s.messages, v.paired k, eq_iff name k);
    named = v.named;
  }

  create-IsValid : (now : ℕ) (name : String) → IsValid (state (create_queue now name s))
  unfolding create_queue contains_key
  create-IsValid now name = record {
    paired = λ k. ground (
      arith,
      get-put name k [] s.messages,
      get-put name k (new_queue now name) s.queues,
      v.paired k,
    );
    named = λ k q e.
        ground (arith, get-put name k (new_queue now name) s.queues, eq_iff name k, v.named k q);
  }

  delete-IsValid : (name : String) → IsValid (state (delete_queue name s))
  unfolding delete_queue contains_key
  delete-IsValid name = record {
    paired =
        λ k. ground (arith, get-remove name k s.messages, get-remove name k s.queues, v.paired k);
    named = λ k q e. ground (arith, get-remove name k s.queues, v.named k q);
  }

  send_to-IsValid :
      (name : String) (m : Message) (r : Result SqsError Queue)
      → IsValid (state (send_to name m s r))
  unfolding send_to
  send_to-IsValid name m (Result.err e) = v
  send_to-IsValid name m (ok q) = elim (Option-cases (get name s.messages)) [
    | inl e ↦ rw e v
    | inr (ms, e) ↦ rw e (put_messages-IsValid name ms (ms ++ m ∷ []) e)
  ]

  receive_existing-IsValid :
      (handle : ℕ → String) (clock : ℕ → ℕ) (name : String) (z : ℤ) (r : Result SqsError Queue)
      → IsValid (state (receive_existing handle clock name z s r))
  unfolding receive_existing
  receive_existing-IsValid handle clock name z (Result.err e) = v
  receive_existing-IsValid handle clock name z (ok q) = elim (Option-cases (get name s.messages)) [
    | inl e ↦ rw e v
    | inr (ms, e) ↦ rw e (put_messages-IsValid name ms _ e)
  ]

  delete_message-IsValid : (name h : String) → IsValid (state (delete_message name h s))
  delete_message-IsValid name h = elim (Option-cases (get name s.messages)) [
    | inl e ↦ unfold delete_message in rw e v
    | inr (ms, e) ↦ rw (delete_message-state s name h ms e) (put_messages-IsValid name ms _ e)
  ]

  receive_message-IsValid :
      (handle : ℕ → String) (clock : ℕ → ℕ) (name : String) (z : ℤ)
      → IsValid (state (receive_message handle clock name z s))
  unfolding receive_message
  receive_message-IsValid handle clock name z = receive_existing-IsValid handle clock name z _

  send_message-IsValid :
      (message_id receipt_handle : String) (now : ℕ) (name body : String)
      → IsValid (state (send_message message_id receipt_handle now name body s))
  unfolding send_message
  send_message-IsValid message_id receipt_handle now name body = send_to-IsValid name _ _

  Step-IsValid : (t : SqsStorage) → Step s t → IsValid t
  Step-IsValid t (creates now name) = create-IsValid now name
  Step-IsValid t (deletes name) = delete-IsValid name
  Step-IsValid t (sends message_id receipt_handle now name body) =
      send_message-IsValid message_id receipt_handle now name body
  Step-IsValid t (receives handle clock name z) = receive_message-IsValid handle clock name z
  Step-IsValid t (removes name h) = delete_message-IsValid name h

new-IsValid : IsValid new
unfolding contains_key
new-IsValid = record { paired = λ k. refl; named = λ k q e. cc }

-- After any sequence of operations on a new store, a name has a message list exactly when it has a
-- queue, and each queue stands at its own name.
pub reached_sqs-IsValid : (s : SqsStorage) → Reach Step new s → IsValid s
reached_sqs-IsValid s r =
    Reach_induction Step IsValid (λ t u st v. Step-IsValid t v u st) new s new-IsValid r

-- the queue to which an accepted message goes
paired_queue :
    (s : SqsStorage) (v : IsValid s) (name : String) (q : Queue)
    → get name s.queues ≡ some q
    → (ms : List Message) × (get name s.messages ≡ some ms)
unfolding contains_key
paired_queue s v name q e = elim (Option-cases (get name s.messages)) [
  | inl n ↦ absurd (ground (arith, v.paired name))
  | inr found ↦ found
]

-- In every store that a sequence of operations reaches, a message sent to a queue that exists is
-- accepted, stands at the end of that queue's messages, behind those that were there, and no other
-- queue changes.
pub send_message-appends :
    (s : SqsStorage) (message_id receipt_handle : String) (now : ℕ) (name body : String) (q : Queue)
    → Reach Step new s
    → get name s.queues ≡ some q
    → let m : Message = new_message message_id receipt_handle now body in
      let sent : Result SqsError Message × SqsStorage =
        send_message message_id receipt_handle now name body s in
      (old : List Message) × (get name s.messages ≡ some old)
      × (reply sent ≡ ok m)
      × ((k : String)
          → get k (state sent).messages
            ≡ (if name == k then some (old ++ m ∷ []) else get k s.messages))
unfolding send_message
send_message-appends s message_id receipt_handle now name body q r e =
    let (old, found) = paired_queue s (reached_sqs-IsValid s r) name q e in
    let m : Message = new_message message_id receipt_handle now body in
    (old, found, ground arith, λ k. ground (arith, get-put name k (old ++ m ∷ []) s.messages))
