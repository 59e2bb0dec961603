-- ===== src/S3/Ephemeral/Objects.antt =====
-- What clients see of the objects: a read after a write, a delete or a copy.
use ruststack.Prelude.{
  ℕ, ◌≡◌, ◌↔◌, refl, String, true, false, ◌&&◌, none, some, List, [], ◌∷◌, arith, ◌==◌, string_eq,
  eq_iff, if◌then◌else◌, length,
}
use ruststack.Dict.{Dict, get, put, remove, contains_key, get-put, get-remove}
use ruststack.Result.{ok, err, state, reply}
use ruststack.S3.Types.{bucket_not_found, object_not_found, StoredObject, ObjectMetadata}
use ruststack.S3.Ephemeral.{
  Digest, InMemoryObject, InMemoryBucket, EphemeralStorage, compute_etag, get_object, put_object,
  delete_object, copy_object, delete_bucket, delete_found, is_empty,
}

-- the object that a put leaves behind
abbrev pub written : Digest → ℕ → List ℕ → ObjectMetadata → StoredObject
written digest now content metadata = record {
  content = content;
  etag = compute_etag digest content;
  size = length content;
  last_modified = now;
  metadata = metadata;
  version_id = none;
}

-- A put in a bucket that exists succeeds with the ETag of the content; afterwards a read of that
-- object returns the content, the metadata, the size and the same ETag, and a read of any other
-- object or bucket returns what it returned before.
pub get-put_object :
    (digest : Digest) (now : ℕ) (bucket key : String) (content : List ℕ) (metadata : ObjectMetadata)
    (s : EphemeralStorage) (b : InMemoryBucket)
    → get bucket s.buckets ≡ some b
    → (reply (put_object digest now bucket key content metadata s)
        ≡ ok (record { etag = compute_etag digest content; version_id = none }))
      × ((bucket' key' : String)
          → get_object bucket' key' (state (put_object digest now bucket key content metadata s))
            ≡ (if bucket == bucket' && key == key'
                then ok (written digest now content metadata)
                else get_object bucket' key' s))
unfolding put_object get_object
get-put_object digest now bucket key content metadata s b h =
    let obj : InMemoryObject = record {
      content = content;
      etag = compute_etag digest content;
      last_modified = now;
      metadata = metadata;
    } in
    rw h (
      refl,
      λ bucket' key'. ground (
        arith,
        get-put bucket bucket' (record b { objects = put key obj b.objects }) s.buckets,
        get-put key key' obj b.objects,
        eq_iff bucket bucket',
        h,
      ),
    )

-- A delete in a bucket that exists succeeds and says whether the object was there; afterwards a
-- read of that object reports it missing, and a read of any other object or bucket returns what it
-- returned before.
pub get-delete_object :
    (bucket key : String) (s : EphemeralStorage) (b : InMemoryBucket)
    → get bucket s.buckets ≡ some b
    → (reply (delete_object bucket key s)
        ≡ ok (record {
          deleted = contains_key key b.objects;
          version_id = none;
          delete_marker = false;
        }))
      × ((bucket' key' : String)
          → get_object bucket' key' (state (delete_object bucket key s)) ≡ (
              if bucket == bucket' && key == key'
              then err (object_not_found bucket' key')
              else get_object bucket' key' s))
unfolding delete_object get_object
get-delete_object bucket key s b h = rw h (
  refl,
  λ bucket' key'. ground (
    arith,
    get-put bucket bucket' (record b { objects = remove key b.objects }) s.buckets,
    get-remove key key' b.objects,
    eq_iff bucket bucket',
    h,
  ),
)

-- the source of a copy
copy_found-ok :
    (digest : Digest) (now : ℕ) (src_bucket src_key dest_bucket dest_key : String)
    (s : EphemeralStorage) (src : StoredObject)
    → get_object src_bucket src_key s ≡ ok src
    → copy_object digest now src_bucket src_key dest_bucket dest_key s
      ≡ put_object digest now dest_bucket dest_key src.content src.metadata s
unfolding copy_object
copy_found-ok digest now src_bucket src_key dest_bucket dest_key s src h = rw h

-- A copy between objects of existing buckets writes the content and the metadata of the source with
-- an ETag computed anew, and leaves every other object as it was, the source included.
pub get-copy_object :
    (digest : Digest) (now : ℕ) (src_bucket src_key dest_bucket dest_key : String)
    (s : EphemeralStorage) (src : StoredObject) (b : InMemoryBucket)
    → get_object src_bucket src_key s ≡ ok src
    → get dest_bucket s.buckets ≡ some b
    → (bucket' key' : String)
    → get_object bucket' key'
        (state (copy_object digest now src_bucket src_key dest_bucket dest_key s))
      ≡ (if dest_bucket == bucket' && dest_key == key'
          then ok (written digest now src.content src.metadata)
          else get_object bucket' key' s)
get-copy_object digest now src_bucket src_key dest_bucket dest_key s src b h k bucket' key' =
    rw (copy_found-ok digest now src_bucket src_key dest_bucket dest_key s src h) (
      (get-put_object digest now dest_bucket dest_key src.content src.metadata s b k).1 bucket'
        key')

is_empty_iff : (d : Dict String InMemoryObject) → (is_empty d ≡ true) ↔ (d ≡ [])
is_empty_iff [] = (λ _. refl, λ _. refl)
is_empty_iff (x ∷ d) = ground arith

-- A bucket is deleted exactly when it holds no object; then every read in it reports the bucket
-- missing and a read elsewhere returns what it returned before. A refusal changes no read.
pub delete_bucket_lem :
    (bucket : String) (s : EphemeralStorage) (b : InMemoryBucket)
    → get bucket s.buckets ≡ some b
    → ((reply (delete_bucket bucket s) ≡ ok tt) ↔ (b.objects ≡ []))
      × ((bucket' key : String)
          → get_object bucket' key (state (delete_bucket bucket s)) ≡ (
              if bucket == bucket' && is_empty b.objects
              then err (bucket_not_found bucket')
              else get_object bucket' key s))
unfolding delete_bucket get_object
delete_bucket_lem bucket s b h =
    rw (h, delete_found)
      (
        ground (arith, is_empty_iff b.objects),
        λ bucket' key.
            ground (arith, get-remove bucket bucket' s.buckets, eq_iff bucket bucket', h),
      )
