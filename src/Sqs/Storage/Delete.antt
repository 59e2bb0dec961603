-- ===== src/Sqs/Storage/Delete.antt =====
-- Deleting by receipt handle.
use ruststack.Prelude.{
  ℕ, ◌≡◌, ◌↔◌, refl, ap, sym, ◌∙◌, length-append, ◌<◌, ◌⊎◌, String, some, List, [], ◌∷◌, ◌++◌,
  arith, ◌==◌, string_eq, nat_eq, eq_iff, length, keep_if, length-keep_if-le, Any, if◌then◌else◌,
  eq_refl, beq_refl, keep_if-append, inl, inr,
}
use ruststack.Prelude.Int.{pos}
use ruststack.Dict.{get, put, get-put}
use ruststack.Result.{ok, err, state, reply}
use ruststack.Sqs.Storage.{
  Queue, Message, SqsStorage, deliver, receive_message, delete_from, delete_message, keeps,
  message_not_found,
}
use ruststack.Sqs.Storage.Receive.{receive_one}
use mathlib.Core.List.{append-nil}

abbrev pub Carries : String → Message → Type 0
Carries h m = m.receipt_handle ≡ h

-- Either some message carries the handle and the queue gets shorter, or none does and it stays.
drop-cases :
    (h : String) (ms : List Message)
    → (Any (Carries h) ms × (length (keep_if (keeps h) ms) < length ms))
      ⊎ ((¬ Any (Carries h) ms) × (keep_if (keeps h) ms ≡ ms))
drop-cases h [] = inr (λ x. x, refl)
drop-cases h (m ∷ ms) =
    ground (arith, drop-cases h ms, length-keep_if-le (keeps h) ms, eq_iff m.receipt_handle h)

-- Deleting by a receipt handle succeeds exactly when some message of the queue carries the handle.
pub delete_message-ok_iff :
    (s : SqsStorage) (name h : String) (ms : List Message)
    → get name s.messages ≡ some ms
    → (reply (delete_message name h s) ≡ ok tt) ↔ Any (Carries h) ms
unfolding delete_message
delete_message-ok_iff s name h ms e = rw (e, delete_from) (ground (arith, drop-cases h ms))

-- Deleting by a handle that no message of the queue carries reports that, and changes no queue.
delete_message_missing :
    (s : SqsStorage) (name h : String) (ms : List Message)
    → get name s.messages ≡ some ms
    → (¬ Any (Carries h) ms)
    → (reply (delete_message name h s) ≡ err (message_not_found h))
      × ((k : String) → get k (state (delete_message name h s)).messages ≡ get k s.messages)
unfolding delete_message
delete_message_missing s name h ms e n = elim (drop-cases h ms) [
  | inl (a, _) ↦ absurd (n a)
  | inr (_, same) ↦
      rw (e, delete_from, same, beq_refl (length ms))
        (refl, λ k. ground (arith, get-put name k ms s.messages, eq_iff name k))
]

-- the queue after a delete
pub delete_message-state :
    (s : SqsStorage) (name h : String) (ms : List Message)
    → get name s.messages ≡ some ms
    → state (delete_message name h s)
      ≡ record s { messages = put name (keep_if (keeps h) ms) s.messages }
unfolding delete_message
delete_message-state s name h ms e = rw e (ground arith)

keep_if_self : (h : String) (ms : List Message) → (¬ Any (Carries h) ms) → keep_if (keeps h) ms ≡ ms
keep_if_self h ms n = elim (drop-cases h ms) [ inl (a, _) ↦ absurd (n a) | inr (_, same) ↦ same ]

keep_if-delivered :
    (h : String) (ms : List Message) (m : Message)
    → m.receipt_handle ≡ h
    → (¬ Any (Carries h) ms)
    → keep_if (keeps h) (ms ++ m ∷ []) ≡ ms
keep_if-delivered h ms m e n =
    rw (keep_if-append (keeps h) ms (m ∷ []), keep_if_self h ms n)
      (ground (arith, eq_iff m.receipt_handle h, append-nil ms))

-- A message that is received alone and then deleted by the handle that came with it is gone, and
-- the queue keeps the others in their order, if no other message carries that handle.
pub delete-receive :
    (handle : ℕ → String) (clock : ℕ → ℕ) (s : SqsStorage) (name : String) (q : Queue) (m : Message)
    (ms : List Message)
    → get name s.queues ≡ some q
    → get name s.messages ≡ some (m ∷ ms)
    → (¬ Any (Carries (handle 0)) ms)
    → let t : SqsStorage = state (receive_message handle clock name (pos 1) s) in
      (reply (receive_message handle clock name (pos 1) s) ≡ ok (deliver handle clock 0 m ∷ []))
      × (reply (delete_message name (handle 0) t) ≡ ok tt)
      × ((k : String)
          → get k (state (delete_message name (handle 0) t)).messages
            ≡ (if name == k then some ms else get k s.messages))
delete-receive handle clock s name q m ms hq hm fresh =
    let back : List Message = ms ++ deliver handle clock 0 m ∷ [] in
    let t : SqsStorage = record s { messages = put name back s.messages } in
    let kept : keep_if (keeps (handle 0)) back ≡ ms =
      keep_if-delivered (handle 0) ms (deliver handle clock 0 m) refl fresh in
    let there : get name t.messages ≡ some back =
      ground (arith, get-put name name back s.messages, eq_refl name) in
    rw (receive_one handle clock s name q m ms hq hm) (
      refl,
      (delete_message-ok_iff t name (handle 0) back there).1 (elim (drop-cases (handle 0) back) [
        | inl (a, _) ↦ a
        | inr (_, same) ↦ absurd (
            omega (
              arith,
              ap length (sym kept ∙ same),
              length-append ms (deliver handle clock 0 m ∷ []),
            ))
      ]),
      λ k.
          rw (delete_message-state t name (handle 0) back there, kept)
            (ground (arith, get-put name k ms t.messages, get-put name k back s.messages)),
    )
