-- ===== src/S3/Listing.antt =====
-- ruststack-s3/src/storage/ephemeral.rs: list_objects. Base64 with the check for UTF-8 behind it is
-- the parameter `Base64`. The set of common prefixes is a list without repetition.
pub mod Sorted
pub mod Returns
pub mod Pages
mod Tests
use Prim.Native.Nat.{Ordering}
use Prim.Native.String
use Prim.Native.String.{compare}
use Prim.Native.Char.{Char}
use ruststack.Prelude.{
  ℕ, String, Bool, true, false, Option, none, some, List, [], ◌∷◌, ◌++◌, if◌then◌else◌, string_eq,
  length, leb, contains, ◌==◌, is_some,
}
use ruststack.Prelude.Int.{ℤ, as_usize}
use ruststack.Dict.{Dict, get, keys}
use ruststack.Result.{Result, ok, err, ok_or, ◌>>=◌}
use ruststack.Text.{strip_prefix}
use ruststack.S3.Types.{StorageError, bucket_not_found, ObjectSummary, ListObjectsResult}
use ruststack.S3.Ephemeral.{InMemoryObject, InMemoryBucket, EphemeralStorage}

-- `BASE64.encode` on the bytes of a text, and `BASE64.decode` followed by `String::from_utf8`.
pub record Base64 : Type 0 where
  pub encode : String → String
  pub decode : String → Option String

pub data ListFailure : Type 0 where
  failed : StorageError → ListFailure
  panicked : ListFailure

-- `a <= b` on texts, which orders them by their bytes
abbrev pub at_most : String → String → Bool
at_most a b = elim (compare a b) [ Ordering.gt ↦ false | _ ↦ true ]

-- `all_keys.sort()`
abbrev pub insert_key : String → List String → List String
insert_key key [] = key ∷ []
insert_key key (other ∷ sorted) =
    let rest = insert_key key sorted in
    if at_most key other then key ∷ other ∷ sorted else other ∷ rest

unfoldable pub sort_keys : List String → List String
sort_keys [] = []
sort_keys (key ∷ all_keys) = insert_key key (sort_keys all_keys)

abbrev pub prepended : Char → Option String → Option String
prepended c none = none
prepended c (some text) = some (String.◌∷◌ c text)

-- The text up to the end of the first delimiter in it. An empty delimiter has no last byte: the
-- slice underflows and panics.
unfoldable pub through_delimiter : String → String → Option String
unfolding strip_prefix
through_delimiter delim String.[] =
    if is_some (strip_prefix String.[] delim) then some String.[] else none
through_delimiter delim (String.◌∷◌ c suffix) =
    let rest = through_delimiter delim suffix in
    if is_some (strip_prefix (String.◌∷◌ c suffix) delim) then some delim else prepended c rest

pub record Listing : Type 0 where
  pub objects : List ObjectSummary
  pub common_prefixes : List String
  pub last_key : Option String
  pub has_more : Bool

abbrev pub summary : String → InMemoryObject → ObjectSummary
summary key entry = record {
  key = key;
  etag = entry.etag;
  size = length entry.content;
  last_modified = entry.last_modified;
  storage_class = "STANDARD";
}

abbrev pub push_summary : String → Option InMemoryObject → List ObjectSummary → List ObjectSummary
push_summary key none objects = objects
push_summary key (some entry) objects = objects ++ summary key entry ∷ []

-- What becomes of a key: it is passed over, it counts for a common prefix, or it is listed.
pub data Turn : Type 0 where
  skipped : Turn
  grouped : String → Turn
  shown : Turn
  broken : Turn

abbrev pub is_skipped : Option String → String → Bool
is_skipped none key = false
is_skipped (some skip) key = at_most key skip

abbrev pub grouping : String → Option String → Turn
grouping prefix none = shown
grouping prefix (some cut) = grouped (String.◌++◌ prefix cut)

abbrev pub by_delimiter : String → Option String → String → Turn
by_delimiter prefix none suffix = shown
by_delimiter prefix (some delim) suffix =
    if delim == "" then broken else grouping prefix (through_delimiter delim suffix)

abbrev pub turn_at : String → Option String → Option String → String → Option String → Turn
turn_at prefix delimiter skip_key key none = skipped
turn_at prefix delimiter skip_key key (some suffix) =
    if is_skipped skip_key key then skipped else by_delimiter prefix delimiter suffix

unfoldable pub turn_of : String → Option String → Option String → String → Turn
unfolding through_delimiter strip_prefix
turn_of prefix delimiter skip_key key =
    turn_at prefix delimiter skip_key key (strip_prefix key prefix)

abbrev pub insert_prefix : String → List String → List String
insert_prefix p prefixes = if contains prefixes p then prefixes else p ∷ prefixes

abbrev pub show : String → Option InMemoryObject → Listing → Listing
show key entry l = record l { last_key = some key; objects = push_summary key entry l.objects }

module _ (b : InMemoryBucket) (prefix : String) (delimiter skip_key : Option String)
    (max_keys : ℕ) where
  -- One key, with the rest of the loop as an argument.
  abbrev pub list_turn : (Listing → Option Listing) → String → Listing → Turn → Option Listing
  list_turn again key l skipped = again l
  list_turn again key l (grouped p) =
      again (record l { common_prefixes = insert_prefix p l.common_prefixes })
  list_turn again key l shown =
      let next = show key (get key b.objects) l in
      let rest = again next in
      if leb max_keys (length next.objects) then some (record next { has_more = true }) else rest
  list_turn again key l broken = none

  unfoldable pub list_loop : List String → Listing → Option Listing
  unfolding turn_of
  list_loop [] l = some l
  list_loop (key ∷ all_keys) l =
      list_turn (list_loop all_keys) key l (turn_of prefix delimiter skip_key key)

-- `objects.sort_by(|a, b| a.key.cmp(&b.key))`, stable
abbrev pub insert_object : ObjectSummary → List ObjectSummary → List ObjectSummary
insert_object object [] = object ∷ []
insert_object object (other ∷ sorted) =
    let rest = insert_object object sorted in
    if at_most object.key other.key then object ∷ other ∷ sorted else other ∷ rest

unfoldable pub sort_objects : List ObjectSummary → List ObjectSummary
sort_objects [] = []
sort_objects (object ∷ objects) = insert_object object (sort_objects objects)

abbrev pub bind_option {ℓ κ} : {A : Type ℓ} {B : Type κ} → Option A → (A → Option B) → Option B
bind_option none f = none
bind_option (some a) f = f a

module _ (base64 : Base64) where
  abbrev pub next_token : Bool → Option String → Option String
  next_token true (some key) = some (base64.encode key)
  next_token true none = none
  next_token false last_key = none

  abbrev pub answer_of : Listing → ListObjectsResult
  answer_of l = record {
    objects = sort_objects l.objects;
    common_prefixes = l.common_prefixes;
    is_truncated = l.has_more;
    next_continuation_token = next_token l.has_more l.last_key;
  }

  abbrev pub listed : Option Listing → Result ListFailure ListObjectsResult
  listed none = err panicked
  listed (some l) = ok (answer_of l)

  abbrev pub empty_listing : Listing
  empty_listing = record { objects = []; common_prefixes = []; last_key = none; has_more = false }

  abbrev pub or_empty : Option String → String
  or_empty none = ""
  or_empty (some text) = text

  unfoldable pub list_objects :
      String
      → Option String
      → Option String
      → Option String
      → ℤ
      → EphemeralStorage
      → Result ListFailure ListObjectsResult
  unfolding list_loop sort_keys sort_objects
  list_objects bucket prefix delimiter continuation_token max_keys s = do
    b ← ok_or (get bucket s.buckets) (failed (bucket_not_found bucket))
    listed (
        list_loop b (or_empty prefix) delimiter (bind_option continuation_token base64.decode)
          (as_usize max_keys) (sort_keys (keys b.objects)) empty_listing)
