-- ===== src/Sqs/Tests.antt =====
-- Runs of the queues, and the theorems at concrete inputs.
use ruststack.Prelude.{
  ℕ, ◌+◌, ◌≡◌, ◌↔◌, refl, String, none, some, List, [], ◌∷◌, ◌++◌, arith, ◌==◌, string_eq, eq_iff,
  Any, inr, false, if◌then◌else◌,
}
use ruststack.Prelude.Int.{pos, negsuc}
use ruststack.Dict.{get, put, contains_key}
use ruststack.Text.Utf8.{bytes}
use ruststack.Result.{Result, ok, state, reply}
use ruststack.Reach.{Reach, here, next}
use ruststack.Sqs.Storage.{
  Message, SqsStorage, SqsError, new, new_queue, simple_md5, new_message, create_queue,
  send_message, receive_message, deliver, delete_message,
}
use ruststack.Sqs.Storage.Receive.{IsReceived, receive_message-IsReceived}
use ruststack.Sqs.Storage.Delete.{Carries, delete_message-ok_iff, delete-receive}
use ruststack.Sqs.Storage.Invariant.{
  IsValid, Step, creates, reached_sqs-IsValid, send_message-appends,
}

abbrev message : String → String → Message
message id handle = record {
  message_id = id;
  receipt_handle = handle;
  body = "hello";
  md5_of_body = "0";
  attribute_names = [];
  message_attributes = [];
  sent_timestamp = 5;
  approximate_receive_count = pos 0;
  approximate_first_receive_timestamp = none;
}

abbrev backlog : List Message
backlog = message "b" "h2" ∷ message "c" "h3" ∷ []

abbrev store : SqsStorage
store = record {
  queues = ("jobs", new_queue 1 "jobs") ∷ [];
  messages = ("jobs", message "a" "h1" ∷ backlog) ∷ [];
}

abbrev handle : ℕ → String
handle i = "fresh"

abbrev clock : ℕ → ℕ
clock i = 100 + i

jobs_queue : get "jobs" store.queues ≡ some (new_queue 1 "jobs")
unfolding get
jobs_queue = refl

jobs_messages : get "jobs" store.messages ≡ some (message "a" "h1" ∷ backlog)
unfolding get
jobs_messages = refl

-- The sum of the hash at "a" is 97, rotated by five bits.
md5_run : simple_md5 "a" ≡ 3104
unfolding simple_md5 bytes
md5_run = refl

receive_message-IsReceived_example :
    IsReceived handle clock store "jobs" (message "a" "h1" ∷ backlog) (negsuc 4)
receive_message-IsReceived_example =
    receive_message-IsReceived handle clock store "jobs" (new_queue 1 "jobs")
      (message "a" "h1" ∷ backlog) (negsuc 4) jobs_queue jobs_messages

delete_message-ok_iff_example :
    (reply (delete_message "jobs" "h2" store) ≡ ok tt)
    ↔ Any (Carries "h2") (message "a" "h1" ∷ backlog)
delete_message-ok_iff_example =
    delete_message-ok_iff store "jobs" "h2" (message "a" "h1" ∷ backlog) jobs_messages

not_carried :
    (h : String)
    → (h == "h1") ≡ false
    → (h == "h2") ≡ false
    → (h == "h3") ≡ false
    → ¬ Any (Carries h) (message "a" "h1" ∷ backlog)
not_carried h p q r = ground (arith, eq_iff h "h1", eq_iff h "h2", eq_iff h "h3")

delete-receive_example :
    let t : SqsStorage = state (receive_message handle clock "jobs" (pos 1) store) in
    (reply (receive_message handle clock "jobs" (pos 1) store)
      ≡ ok (deliver handle clock 0 (message "a" "h1") ∷ []))
    × (reply (delete_message "jobs" (handle 0) t) ≡ ok tt)
    × ((k : String)
        → get k (state (delete_message "jobs" (handle 0) t)).messages
          ≡ (if "jobs" == k then some backlog else get k store.messages))
delete-receive_example =
    delete-receive handle clock store "jobs" (new_queue 1 "jobs") (message "a" "h1") backlog
      jobs_queue jobs_messages (λ m. not_carried "fresh" refl refl refl (inr m))

abbrev created : SqsStorage
created = state (create_queue 1 "jobs" new)

created-Reach : Reach Step new created
created-Reach = next here (creates 1 "jobs")

reached_sqs-IsValid_example : IsValid created
reached_sqs-IsValid_example = reached_sqs-IsValid created created-Reach

created_queue : get "jobs" created.queues ≡ some (new_queue 1 "jobs")
unfolding create_queue get contains_key put
created_queue = refl

send_message-appends_example :
    let m : Message = new_message "m1" "h1" 2 "hello" in
    let sent : Result SqsError Message × SqsStorage =
      send_message "m1" "h1" 2 "jobs" "hello" created in
    (old : List Message) × (get "jobs" created.messages ≡ some old)
    × (reply sent ≡ ok m)
    × ((k : String)
        → get k (state sent).messages
          ≡ (if "jobs" == k then some (old ++ m ∷ []) else get k created.messages))
send_message-appends_example =
    send_message-appends created "m1" "h1" 2 "jobs" "hello" (new_queue 1 "jobs") created-Reach
      created_queue
