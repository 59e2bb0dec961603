-- ===== src/S3/Tests.antt =====
-- Runs of the object store at concrete inputs, with a toy digest.
use ruststack.Prelude.{
  ℕ, ◌≡◌, ◌↔◌, refl, String, false, ◌&&◌, none, some, List, [], ◌∷◌, ◌==◌, string_eq, if◌then◌else◌,
  length, contains, IsDistinct,
}
use ruststack.Prelude.Int.{ℤ, pos, int_eq}
use ruststack.Dict.{get, contains_key}
use ruststack.Text.Decimal.{decimal_int}
use ruststack.Result.{ok, err, state, reply}
use ruststack.S3.Types.{
  ObjectMetadata, CompletedPart, bucket_not_found, object_not_found, upload_not_found, internal,
}
use ruststack.S3.Ephemeral.{
  Digest, InMemoryObject, InMemoryBucket, EphemeralStorage, stored, is_empty, compute_etag,
  get_object, put_object, delete_object, copy_object, delete_bucket,
}
use ruststack.S3.Ephemeral.Objects.{
  written, get-put_object, get-delete_object, get-copy_object, delete_bucket_lem,
}
use ruststack.S3.Multipart.{create_multipart_upload, complete_multipart_upload, assemble}
use ruststack.S3.Multipart.Assembly.{
  IsUploading, upload_all, numbers, joined, completed_of, create-IsUploading,
}
use ruststack.S3.Multipart.Completion.{multipart_roundtrip, complete_missing_part}

abbrev digest : Digest
digest = record { md5 = λ content. content; hex = λ bytes. "00" }

abbrev metadata : ObjectMetadata
metadata = record {
  content_type = some "text/plain";
  content_encoding = none;
  content_disposition = none;
  content_language = none;
  cache_control = none;
  user_metadata = [];
  storage_class = none;
}

abbrev object : InMemoryObject
object = record { content = 7 ∷ 8 ∷ []; etag = "\"00\""; last_modified = 1; metadata = metadata }

abbrev bucket : InMemoryBucket
bucket = record { objects = ("a.txt", object) ∷ []; multipart_uploads = []; created_at = 0 }

abbrev store : EphemeralStorage
store = record { buckets = ("photos", bucket) ∷ [] }

store_bucket : get "photos" store.buckets ≡ some bucket
unfolding get
store_bucket = refl

get-put_object_example :
    (reply (put_object digest 5 "photos" "b.txt" (1 ∷ []) metadata store)
      ≡ ok (record { etag = compute_etag digest (1 ∷ []); version_id = none }))
    × ((bucket' key' : String)
        → get_object bucket' key'
            (state (put_object digest 5 "photos" "b.txt" (1 ∷ []) metadata store))
          ≡ (if "photos" == bucket' && "b.txt" == key'
              then ok (written digest 5 (1 ∷ []) metadata)
              else get_object bucket' key' store))
get-put_object_example =
    get-put_object digest 5 "photos" "b.txt" (1 ∷ []) metadata store bucket store_bucket

get-delete_object_example :
    (reply (delete_object "photos" "a.txt" store)
      ≡ ok (record {
        deleted = contains_key "a.txt" bucket.objects;
        version_id = none;
        delete_marker = false;
      }))
    × ((bucket' key' : String)
        → get_object bucket' key' (state (delete_object "photos" "a.txt" store)) ≡ (
            if "photos" == bucket' && "a.txt" == key'
            then err (object_not_found bucket' key')
            else get_object bucket' key' store))
get-delete_object_example = get-delete_object "photos" "a.txt" store bucket store_bucket

source : get_object "photos" "a.txt" store ≡ ok (stored object)
unfolding get_object get
source = refl

get-copy_object_example :
    get_object "photos" "c.txt"
      (state (copy_object digest 5 "photos" "a.txt" "photos" "c.txt" store))
    ≡ ok (written digest 5 (7 ∷ 8 ∷ []) metadata)
get-copy_object_example =
    get-copy_object digest 5 "photos" "a.txt" "photos" "c.txt" store (stored object) bucket source
      store_bucket "photos" "c.txt"

delete_bucket_lem_example :
    ((reply (delete_bucket "photos" store) ≡ ok tt) ↔ (bucket.objects ≡ []))
    × ((bucket' key : String)
        → get_object bucket' key (state (delete_bucket "photos" store)) ≡ (
            if "photos" == bucket' && is_empty bucket.objects
            then err (bucket_not_found bucket')
            else get_object bucket' key store))
delete_bucket_lem_example = delete_bucket_lem "photos" store bucket store_bucket

-- Part 2 is uploaded before part 1, and the completion names them in that order.
abbrev parts : List (ℤ × List ℕ)
parts = (pos 2, 9 ∷ []) ∷ (pos 1, 3 ∷ 4 ∷ []) ∷ []

parts-IsDistinct : IsDistinct (numbers parts)
parts-IsDistinct = (unfold contains in (refl, (refl, tt)))

multipart_roundtrip_example :
    let t : EphemeralStorage =
      upload_all digest "photos" "u1" metadata "big" parts
        (state (create_multipart_upload "u1" 5 "photos" "big" metadata store)) in
    let completed : List CompletedPart = completed_of digest parts in
    (etag : String) × (reply (complete_multipart_upload digest 6 "photos" "big" "u1" completed t)
      ≡ ok (record { etag = etag; version_id = none }))
    × (get_object "photos" "big"
          (state (complete_multipart_upload digest 6 "photos" "big" "u1" completed t))
        ≡ ok (record {
          content = joined parts;
          etag = etag;
          size = length (joined parts);
          last_modified = 6;
          metadata = metadata;
          version_id = none;
        }))
multipart_roundtrip_example =
    multipart_roundtrip digest 5 6 "photos" "big" "u1" metadata parts store bucket store_bucket
      parts-IsDistinct

abbrev uploading : EphemeralStorage
uploading = state (create_multipart_upload "u1" 5 "photos" "big" metadata store)

uploading-IsUploading : IsUploading uploading "photos" "u1" [] metadata
uploading-IsUploading =
    create-IsUploading digest "photos" "u1" metadata 5 "big" store bucket store_bucket

abbrev wanted : List CompletedPart
wanted = record { part_number = pos 1; etag = "x" } ∷ []

missing : assemble [] wanted ≡ err (internal "Part 1 not found")
unfolding assemble get decimal_int
missing = refl

complete_missing_part_example :
    (reply (complete_multipart_upload digest 6 "photos" "big" "u1" wanted uploading)
      ≡ err (internal "Part 1 not found"))
    × ((again : List CompletedPart)
        → reply (
            complete_multipart_upload digest 6 "photos" "big" "u1" again
              (state (complete_multipart_upload digest 6 "photos" "big" "u1" wanted uploading)))
          ≡ err (upload_not_found "u1"))
complete_missing_part_example =
    complete_missing_part digest 6 "photos" "big" "u1" wanted uploading [] metadata
      (internal "Part 1 not found") uploading-IsUploading missing
