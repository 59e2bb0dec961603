-- ===== src/S3/Ephemeral.antt =====
-- ruststack-s3/src/storage/ephemeral.rs: the buckets and their objects. The multipart operations
-- are in S3/Multipart. The clock is an argument; MD5 and the hexadecimal
-- encoding (crates `md5`, `hex`) are the parameter `Digest`.
pub mod Objects
use Prim.Native.String
use ruststack.Prelude.{
  ℕ, String, Bool, true, false, Option, none, some, List, [], if◌then◌else◌, string_eq, length,
}
use ruststack.Prelude.Int.{ℤ}
use ruststack.Dict.{Dict, get, put, remove, contains_key, keys}
use ruststack.Result.{Result, ok, err, ok_or, ◌>>=◌}
use ruststack.S3.Types.{
  StorageError, bucket_not_found, object_not_found, bucket_already_exists, bucket_not_empty,
  ObjectMetadata, StoredObject, PutObjectResult, DeleteResult,
}

pub record Digest : Type 0 where
  pub md5 : List ℕ → List ℕ
  pub hex : List ℕ → String

pub record InMemoryObject : Type 0 where
  pub content : List ℕ
  pub etag : String
  pub last_modified : ℕ
  pub metadata : ObjectMetadata

pub record InMemoryPart : Type 0 where
  pub content : List ℕ
  pub etag : String

pub record MultipartUpload : Type 0 where
  pub key : String
  pub parts : Dict ℤ InMemoryPart
  pub metadata : ObjectMetadata
  pub created_at : ℕ

pub record InMemoryBucket : Type 0 where
  pub objects : Dict String InMemoryObject
  pub multipart_uploads : Dict String MultipartUpload
  pub created_at : ℕ

-- `InMemoryBucket::new`
abbrev pub new_bucket : ℕ → InMemoryBucket
new_bucket now = record { objects = []; multipart_uploads = []; created_at = now }

pub record EphemeralStorage : Type 0 where
  pub buckets : Dict String InMemoryBucket

abbrev pub new : EphemeralStorage
new = record { buckets = [] }

unfoldable pub compute_etag : Digest → List ℕ → String
compute_etag digest content = String.◌++◌ "\"" (String.◌++◌ (digest.hex (digest.md5 content)) "\"")

unfoldable pub create_bucket :
    ℕ → String → EphemeralStorage → Result StorageError (Unit {0}) × EphemeralStorage
create_bucket now bucket s =
    if contains_key bucket s.buckets
    then (err (bucket_already_exists bucket), s)
    else (ok tt, record { buckets = put bucket (new_bucket now) s.buckets })

abbrev pub is_empty : Dict String InMemoryObject → Bool
is_empty [] = true
is_empty _ = false

unfoldable pub delete_found :
    String
    → EphemeralStorage
    → Option InMemoryBucket
    → Result StorageError (Unit {0}) × EphemeralStorage
delete_found bucket s none = (err (bucket_not_found bucket), s)
delete_found bucket s (some b) =
    if is_empty b.objects
    then (ok tt, record { buckets = remove bucket s.buckets })
    else (err (bucket_not_empty bucket), s)

unfoldable pub delete_bucket :
    String → EphemeralStorage → Result StorageError (Unit {0}) × EphemeralStorage
unfolding delete_found
delete_bucket bucket s = delete_found bucket s (get bucket s.buckets)

unfoldable pub bucket_exists : String → EphemeralStorage → Bool
bucket_exists bucket s = contains_key bucket s.buckets

unfoldable pub list_buckets : EphemeralStorage → Result StorageError (List String)
list_buckets s = ok (keys s.buckets)

-- An operation on the bucket of a name: `self.buckets.get(bucket).ok_or_else(…)?`, and then a
-- change of what the shared bucket holds.
unfoldable pub at_bucket {ℓ} :
    {A : Type ℓ}
    → String
    → (InMemoryBucket → Result StorageError A × InMemoryBucket)
    → EphemeralStorage
    → Option InMemoryBucket
    → Result StorageError A × EphemeralStorage
at_bucket bucket f s none = (err (bucket_not_found bucket), s)
at_bucket bucket f s (some b) =
    let (r, b') = f b in (r, record { buckets = put bucket b' s.buckets })

unfoldable pub with_bucket {ℓ} :
    {A : Type ℓ}
    → String
    → (InMemoryBucket → Result StorageError A × InMemoryBucket)
    → EphemeralStorage
    → Result StorageError A × EphemeralStorage
unfolding at_bucket
with_bucket bucket f s = at_bucket bucket f s (get bucket s.buckets)

abbrev pub stored : InMemoryObject → StoredObject
stored obj = record {
  content = obj.content;
  etag = obj.etag;
  size = length obj.content;
  last_modified = obj.last_modified;
  metadata = obj.metadata;
  version_id = none;
}

unfoldable pub get_object : String → String → EphemeralStorage → Result StorageError StoredObject
get_object bucket key s = do
  b ← ok_or (get bucket s.buckets) (bucket_not_found bucket)
  obj ← ok_or (get key b.objects) (object_not_found bucket key)
  ok (stored obj)

module _ (digest : Digest) (now : ℕ) where
  abbrev pub put_in :
      String
      → List ℕ
      → ObjectMetadata
      → InMemoryBucket
      → Result StorageError PutObjectResult × InMemoryBucket
  put_in key content metadata b =
      let etag = compute_etag digest content in
      let obj : InMemoryObject = record {
        content = content;
        etag = etag;
        last_modified = now;
        metadata = metadata;
      } in
      (ok (record { etag = etag; version_id = none }), record b { objects = put key obj b.objects })

  unfoldable pub put_object :
      String
      → String
      → List ℕ
      → ObjectMetadata
      → EphemeralStorage
      → Result StorageError PutObjectResult × EphemeralStorage
  unfolding with_bucket
  put_object bucket key content metadata s = with_bucket bucket (put_in key content metadata) s

  unfoldable pub copy_found :
      String
      → String
      → EphemeralStorage
      → Result StorageError StoredObject
      → Result StorageError PutObjectResult × EphemeralStorage
  copy_found dest_bucket dest_key s (err e) = (err e, s)
  copy_found dest_bucket dest_key s (ok src) =
      put_object dest_bucket dest_key src.content src.metadata s

  unfoldable pub copy_object :
      String
      → String
      → String
      → String
      → EphemeralStorage
      → Result StorageError PutObjectResult × EphemeralStorage
  unfolding copy_found
  copy_object src_bucket src_key dest_bucket dest_key s =
      copy_found dest_bucket dest_key s (get_object src_bucket src_key s)

abbrev pub delete_in : String → InMemoryBucket → Result StorageError DeleteResult × InMemoryBucket
delete_in key b = (
  ok (record { deleted = contains_key key b.objects; version_id = none; delete_marker = false }),
  record b { objects = remove key b.objects },
)

unfoldable pub delete_object :
    String → String → EphemeralStorage → Result StorageError DeleteResult × EphemeralStorage
unfolding with_bucket
delete_object bucket key s = with_bucket bucket (delete_in key) s
