-- ===== src/Sqs/Storage/Receive.antt =====
-- Receiving: which messages come back, and what the queue is afterwards.
use Prim.Native.Nat.{min}
use ruststack.Prelude.{
  ℕ, zero, suc, ◌+◌, ◌≤◌, ◌≡◌, refl, ap, ◌∙◌, String, some, List, [], ◌∷◌, ◌++◌, arith, ◌==◌,
  string_eq, length, take, drop, length-take, if◌then◌else◌,
}
use ruststack.Prelude.Int.{ℤ, pos, clamp_index}
use ruststack.Dict.{get, put, get-put}
use ruststack.Result.{ok, state, reply}
use ruststack.Sqs.Storage.{Queue, Message, SqsStorage, deliver, receive_loop, receive_message}

-- What identifies a message to its sender.
abbrev pub content : Message → String × String
content m = (m.message_id, m.body)

pub contents : List Message → List (String × String)
contents [] = []
contents (m ∷ ms) = content m ∷ contents ms

contents-append : (xs ys : List Message) → contents (xs ++ ys) ≡ contents xs ++ contents ys
unfolding contents
contents-append [] ys = refl
contents-append (x ∷ xs) ys = ap (λ r. content x ∷ r) (contents-append xs ys)

-- The number of messages that a receive asks for.
abbrev pub asked : ℤ → ℕ
asked max_messages = clamp_index 1 10 max_messages

asked_bounds : (z : ℤ) → (1 ≤ asked z) × (asked z ≤ 10)
unfolding clamp_index
asked_bounds z = ground arith

module _ (handle : ℕ → String) (clock : ℕ → ℕ) where
  -- The messages delivered from number `i` on.
  pub delivered : ℕ → List Message → List Message
  delivered i [] = []
  delivered i (m ∷ ms) = deliver handle clock i m ∷ delivered (i + 1) ms

  receive_loop_lem :
      (n i : ℕ) (ms : List Message)
      → receive_loop handle clock n i ms ≡ (delivered i (take n ms), drop n ms)
  unfolding receive_loop delivered
  receive_loop_lem zero i ms = refl
  receive_loop_lem (suc zero) i [] = refl
  receive_loop_lem (suc (suc n)) i [] = receive_loop_lem (suc n) i []
  receive_loop_lem (suc n) i (m ∷ ms) = rw (receive_loop_lem n (i + 1) ms)

  contents-delivered : (i : ℕ) (ms : List Message) → contents (delivered i ms) ≡ contents ms
  unfolding contents delivered
  contents-delivered i [] = refl
  contents-delivered i (m ∷ ms) = ap (λ r. content m ∷ r) (contents-delivered (i + 1) ms)

  length-delivered : (i : ℕ) (ms : List Message) → length (delivered i ms) ≡ length ms
  unfolding delivered
  length-delivered i [] = refl
  length-delivered i (m ∷ ms) = ap suc (length-delivered (i + 1) ms)

  pub receive_message_lem :
      (s : SqsStorage) (name : String) (q : Queue) (ms : List Message) (z : ℤ)
      → get name s.queues ≡ some q
      → get name s.messages ≡ some ms
      → receive_message handle clock name z s ≡ (
        ok (delivered 0 (take (asked z) ms)),
        record s {
          messages = put name (drop (asked z) ms ++ delivered 0 (take (asked z) ms)) s.messages;
        },
      )
  unfolding receive_message
  receive_message_lem s name q ms z hq hm = rw (hq, hm, receive_loop_lem (asked z) 0 ms)

-- What a receive on an existing queue shows: the reply, and every queue afterwards.
pub record IsReceived (handle : ℕ → String) (clock : ℕ → ℕ) (s : SqsStorage) (name : String)
    (ms : List Message) (z : ℤ) : Type 0 where
  pub result : List Message
  pub replied : reply (receive_message handle clock name z s) ≡ ok result
  pub size : length result ≡ min (asked z) (length ms)
  pub at_most : length result ≤ 10
  pub first : contents result ≡ contents (take (asked z) ms)
  pub queues :
      (k : String)
      → get k (state (receive_message handle clock name z s)).messages
        ≡ (if name == k then some (drop (asked z) ms ++ result) else get k s.messages)

-- A receive on an existing queue returns its first messages in order, as many as are asked for
-- (between 1 and 10) or fewer if the queue is shorter; it moves them to the back of the queue in
-- the same order, and it leaves every other queue as it is.
pub receive_message-IsReceived :
    (handle : ℕ → String) (clock : ℕ → ℕ) (s : SqsStorage) (name : String) (q : Queue)
    (ms : List Message) (z : ℤ)
    → get name s.queues ≡ some q
    → get name s.messages ≡ some ms
    → IsReceived handle clock s name ms z
receive_message-IsReceived handle clock s name q ms z hq hm =
    let taken : List Message = take (asked z) ms in
    let result : List Message = delivered handle clock 0 taken in
    let e = receive_message_lem handle clock s name q ms z hq hm in
    let size : length result ≡ min (asked z) (length ms) =
      length-delivered handle clock 0 taken ∙ length-take (asked z) ms in
    record {
      result = result;
      replied = rw e;
      size = size;
      at_most = omega (arith, size, asked_bounds z);
      first = contents-delivered handle clock 0 taken;
      queues = λ k. rw e (get-put name k (drop (asked z) ms ++ result) s.messages);
    }

-- a receive of one message
pub receive_one :
    (handle : ℕ → String) (clock : ℕ → ℕ) (s : SqsStorage) (name : String) (q : Queue) (m : Message)
    (ms : List Message)
    → get name s.queues ≡ some q
    → get name s.messages ≡ some (m ∷ ms)
    → receive_message handle clock name (pos 1) s ≡ (
      ok (deliver handle clock 0 m ∷ []),
      record s { messages = put name (ms ++ deliver handle clock 0 m ∷ []) s.messages },
    )
unfolding clamp_index delivered
receive_one handle clock s name q m ms hq hm =
    receive_message_lem handle clock s name q (m ∷ ms) (pos 1) hq hm
