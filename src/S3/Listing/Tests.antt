-- ===== src/S3/Listing/Tests.antt =====
-- A listing at a concrete bucket. A stub stands for Base64.
use ruststack.Prelude.{
  ◌≡◌, ◌≢◌, refl, String, Option, none, some, [], ◌∷◌, string_eq, arith, eq_iff,
}
use ruststack.Prelude.Int.{pos}
use ruststack.Dict.{get}
use ruststack.Result.{ok}
use ruststack.S3.Types.{ObjectMetadata, ListObjectsResult}
use ruststack.S3.Ephemeral.{InMemoryObject, InMemoryBucket, EphemeralStorage}
use ruststack.S3.Listing.{Base64, list_objects, bind_option, or_empty}
use ruststack.S3.Listing.Pages.{IsPage, list_objects-IsPage}

abbrev base64 : Base64
base64 = record { encode = λ text. text; decode = λ text. some text }

abbrev metadata : ObjectMetadata
metadata = record {
  content_type = none;
  content_encoding = none;
  content_disposition = none;
  content_language = none;
  cache_control = none;
  user_metadata = [];
  storage_class = none;
}

abbrev object : InMemoryObject
object = record { content = 7 ∷ 8 ∷ []; etag = "\"00\""; last_modified = 1; metadata = metadata }

abbrev bucket : InMemoryBucket
bucket = record {
  objects = ("b/2", object) ∷ ("a/1", object) ∷ ("b/1", object) ∷ ("b/c/3", object) ∷ [];
  multipart_uploads = [];
  created_at = 0;
}

abbrev store : EphemeralStorage
store = record { buckets = ("photos", bucket) ∷ [] }

abbrev slash : Option String
slash = some "/"

photos : get "photos" store.buckets ≡ some bucket
unfolding get
photos = refl

slash_cuts : slash ≢ some ""
slash_cuts = λ p. ground (arith, eq_iff "/" "")

list_objects-IsPage_example :
    (result : ListObjectsResult) × (list_objects base64 "photos"
        (some "b/")
        slash
        (some "b/1")
        (pos 3)
        store
      ≡ ok result)
    × IsPage bucket
        (or_empty base64 (some "b/"))
        slash
        (bind_option (some "b/1") base64.decode)
        2
        result.objects
        result.is_truncated
list_objects-IsPage_example =
    list_objects-IsPage base64 "photos" (some "b/") slash (some "b/1") 2 store bucket photos
      slash_cuts
