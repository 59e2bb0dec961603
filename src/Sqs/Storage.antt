-- ===== src/Sqs/Storage.antt =====
-- ruststack-sqs/src/storage.rs. The clock and the random UUIDs are arguments: in a receive, the
-- functions `handle` and `clock` give them for each message in turn. Log lines are left out.
pub mod Receive
pub mod Delete
pub mod Invariant
use Prim.Native.String
use mathlib.Core.Bool.{not}
use ruststack.Prelude.{
  ℕ, zero, suc, ◌+◌, ◌*◌, ◌/◌, ◌%◌, ◌^◌, String, Bool, true, false, Option, none, some, List, [],
  ◌∷◌, ◌++◌, ◌==◌, string_eq, nat_eq, if◌then◌else◌, length, keep_if, map,
}
use ruststack.Prelude.Int.{ℤ, pos, i32_increment, clamp_index}
use ruststack.Text.{starts_with}
use ruststack.Text.Utf8.{bytes, lower_hex}
use ruststack.Dict.{Dict, get, put, remove, contains_key}
use ruststack.Result.{Result, ok, err, ok_or, ◌>>=◌}

pub data SqsError : Type 0 where
  queue_not_found queue_already_exists invalid_parameter message_not_found : String → SqsError

pub record Queue : Type 0 where
  pub name : String
  pub url : String
  pub arn : String
  pub created_timestamp : ℕ
  pub visibility_timeout : ℕ
  pub receive_message_wait_time_seconds : ℕ
  pub message_retention_period : ℕ
  pub maximum_message_size : ℕ

-- `Queue::new`
abbrev pub new_queue : ℕ → String → Queue
new_queue now name = record {
  name = name;
  url = String.◌++◌ "http://localhost:4566/000000000000/" name;
  arn = String.◌++◌ "arn:aws:sqs:us-east-1:000000000000:" name;
  created_timestamp = now;
  visibility_timeout = 30;
  receive_message_wait_time_seconds = 0;
  message_retention_period = 345600;
  maximum_message_size = 262144;
}

pub record Message : Type 0 where
  pub message_id : String
  pub receipt_handle : String
  pub body : String
  pub md5_of_body : String
  pub attribute_names : List String
  pub message_attributes : Dict String String
  pub sent_timestamp : ℕ
  pub approximate_receive_count : ℤ
  pub approximate_first_receive_timestamp : Option ℕ

-- `u128::rotate_left(5)`
rotate_left_5 : ℕ → ℕ
rotate_left_5 hash = hash * 2 ^ 5 % 2 ^ 128 + hash / 2 ^ 123

-- the loop of `simple_md5`, from the index `i`
unfoldable pub md5_loop : ℕ → ℕ → List ℕ → ℕ
unfolding rotate_left_5
md5_loop hash i [] = hash
md5_loop hash i (byte ∷ rest) =
    md5_loop (rotate_left_5 ((hash + byte * (i + 1) % 2 ^ 128) % 2 ^ 128)) (i + 1) rest

unfoldable pub simple_md5 : String → ℕ
unfolding md5_loop
simple_md5 input = md5_loop 0 0 (bytes input)

-- `Message::new`
unfoldable pub new_message : String → String → ℕ → String → Message
new_message message_id receipt_handle now body = record {
  message_id = message_id;
  receipt_handle = receipt_handle;
  body = body;
  md5_of_body = lower_hex (simple_md5 body);
  attribute_names = [];
  message_attributes = [];
  sent_timestamp = now;
  approximate_receive_count = pos 0;
  approximate_first_receive_timestamp = none;
}

pub record SqsStorage : Type 0 where
  pub queues : Dict String Queue
  pub messages : Dict String (List Message)

abbrev pub new : SqsStorage
new = record { queues = []; messages = [] }

unfoldable pub create_queue : ℕ → String → SqsStorage → Result SqsError Queue × SqsStorage
create_queue now name s =
    if contains_key name s.queues
    then (err (queue_already_exists name), s)
    else (let queue = new_queue now name in
        (ok queue, record { queues = put name queue s.queues; messages = put name [] s.messages }))

unfoldable pub delete_queue : String → SqsStorage → Result SqsError (Unit {0}) × SqsStorage
delete_queue name s =
    if not (contains_key name s.queues)
    then (err (queue_not_found name), s)
    else (ok tt, record { queues = remove name s.queues; messages = remove name s.messages })

unfoldable pub get_queue : String → SqsStorage → Result SqsError Queue
get_queue name s = ok_or (get name s.queues) (queue_not_found name)

abbrev has_prefix : Option String → String → Bool
has_prefix none key = true
has_prefix (some p) key = starts_with key p

unfoldable pub list_queues : Option String → SqsStorage → List String
list_queues prefix s =
    map (λ (entry : String × Queue). entry.1.url)
      (keep_if (λ entry. has_prefix prefix entry.0) s.queues)

-- `if let Some(mut msgs) = self.messages.get_mut(name) { msgs.push_back(message) }`
unfoldable pub push_back :
    String
    → Message
    → Dict String (List Message)
    → Option (List Message)
    → Dict String (List Message)
push_back name message all none = all
push_back name message all (some msgs) = put name (msgs ++ message ∷ []) all

unfoldable pub send_to :
    String → Message → SqsStorage → Result SqsError Queue → Result SqsError Message × SqsStorage
unfolding push_back
send_to name message s (err e) = (err e, s)
send_to name message s (ok _) =
    (ok message, record s { messages = push_back name message s.messages (get name s.messages) })

unfoldable pub send_message :
    String → String → ℕ → String → String → SqsStorage → Result SqsError Message × SqsStorage
unfolding send_to get_queue
send_message message_id receipt_handle now queue_name body s =
    send_to queue_name (new_message message_id receipt_handle now body) s (get_queue queue_name s)

abbrev first_received : ℕ → Option ℕ → Option ℕ
first_received now none = some now
first_received now (some t) = some t

module _ (handle : ℕ → String) (clock : ℕ → ℕ) where
  -- the changes to a message that is received as number `i` of its call
  abbrev pub deliver : ℕ → Message → Message
  deliver i msg = record msg {
    approximate_receive_count = i32_increment msg.approximate_receive_count;
    approximate_first_receive_timestamp =
        first_received (clock i) msg.approximate_first_receive_timestamp;
    receipt_handle = handle i;
  }

  -- `for _ in 0..max`: the messages taken, and those left in the queue
  unfoldable pub receive_loop : ℕ → ℕ → List Message → List Message × List Message
  receive_loop zero i messages = ([], messages)
  receive_loop (suc rounds) i [] = receive_loop rounds i []
  receive_loop (suc rounds) i (msg ∷ messages) =
      let (result, rest) = receive_loop rounds (i + 1) messages in (deliver i msg ∷ result, rest)

  unfoldable pub receive_from :
      String → ℕ → SqsStorage → Option (List Message) → Result SqsError (List Message) × SqsStorage
  receive_from name max s none = (ok [], s)
  receive_from name max s (some messages) =
      let (result, rest) = receive_loop max 0 messages in
      (ok result, record s { messages = put name (rest ++ result) s.messages })

  unfoldable pub receive_existing :
      String → ℤ → SqsStorage → Result SqsError Queue → Result SqsError (List Message) × SqsStorage
  unfolding receive_from
  receive_existing name max_messages s (err e) = (err e, s)
  receive_existing name max_messages s (ok _) =
      receive_from name (clamp_index 1 10 max_messages) s (get name s.messages)

  unfoldable pub receive_message :
      String → ℤ → SqsStorage → Result SqsError (List Message) × SqsStorage
  unfolding receive_existing get_queue
  receive_message name max_messages s = receive_existing name max_messages s (get_queue name s)

abbrev pub keeps : String → Message → Bool
keeps receipt_handle m = not (m.receipt_handle == receipt_handle)

unfoldable pub delete_from :
    String → String → SqsStorage → Option (List Message) → Result SqsError (Unit {0}) × SqsStorage
delete_from name receipt_handle s none = (err (queue_not_found name), s)
delete_from name receipt_handle s (some messages) =
    let kept = keep_if (keeps receipt_handle) messages in
    let t = record s { messages = put name kept s.messages } in
    if length kept == length messages
    then (err (message_not_found receipt_handle), t)
    else (ok tt, t)

unfoldable pub delete_message :
    String → String → SqsStorage → Result SqsError (Unit {0}) × SqsStorage
unfolding delete_from
delete_message name receipt_handle s = delete_from name receipt_handle s (get name s.messages)
