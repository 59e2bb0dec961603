-- ===== src/S3/Multipart/Completion.antt =====
-- Completing an upload: what is read afterwards, and what a failure leaves.
use ruststack.Prelude.{
  ℕ, ◌≡◌, refl, String, none, some, List, [], arith, string_eq, length, eq_refl, IsDistinct,
}
use ruststack.Prelude.Int.{ℤ, int_eq}
use ruststack.Dict.{Dict, get, put, remove, get-put, get-remove}
use ruststack.Result.{ok, err, state, reply}
use ruststack.S3.Types.{StorageError, upload_not_found, ObjectMetadata, CompletedPart}
use ruststack.S3.Ephemeral.{
  Digest, InMemoryObject, InMemoryPart, InMemoryBucket, EphemeralStorage, get_object,
}
use ruststack.S3.Multipart.{
  create_multipart_upload, assemble, multipart_etag, complete_multipart_upload,
}
use ruststack.S3.Multipart.Assembly.{
  IsUploading, upload_all, collect, upload_all-IsUploading, create-IsUploading, numbers, joined,
  completed_of, assemble-collect,
}

module _ (digest : Digest) (now : ℕ) (bucket key upload_id : String)
    (completed : List CompletedPart) (s : EphemeralStorage) (parts : Dict ℤ InMemoryPart)
    (metadata : ObjectMetadata) where
  complete_ok :
      (combined : List ℕ)
      → IsUploading s bucket upload_id parts metadata
      → assemble parts completed ≡ ok combined
      → (reply (complete_multipart_upload digest now bucket key upload_id completed s)
          ≡ ok (record { etag = multipart_etag digest parts completed; version_id = none }))
        × (get_object bucket key
              (state (complete_multipart_upload digest now bucket key upload_id completed s))
            ≡ ok (record {
              content = combined;
              etag = multipart_etag digest parts completed;
              size = length combined;
              last_modified = now;
              metadata = metadata;
              version_id = none;
            }))
  unfolding complete_multipart_upload get_object
  complete_ok combined h e =
      let obj : InMemoryObject = record {
        content = combined;
        etag = multipart_etag digest parts completed;
        last_modified = now;
        metadata = metadata;
      } in
      let b : InMemoryBucket = record (h.holder) {
        objects = put key obj h.holder.objects;
        multipart_uploads = remove upload_id h.holder.multipart_uploads;
      } in
      rw (h.bucket_found, h.upload_found, h.parts_held, h.metadata_held, e)
        (
          refl,
          ground (
            arith,
            get-put bucket bucket b s.buckets,
            eq_refl bucket,
            get-put key key obj h.holder.objects,
            eq_refl key,
          ),
        )

  -- A completion that names a part which was not uploaded reports it and has removed the upload all
  -- the same: the next completion finds no upload, whatever parts it names.
  pub complete_missing_part :
      (e : StorageError)
      → IsUploading s bucket upload_id parts metadata
      → assemble parts completed ≡ err e
      → (reply (complete_multipart_upload digest now bucket key upload_id completed s) ≡ err e)
        × ((again : List CompletedPart)
            → reply (
                complete_multipart_upload digest now bucket key upload_id again
                  (state (complete_multipart_upload digest now bucket key upload_id completed s)))
              ≡ err (upload_not_found upload_id))
  unfolding complete_multipart_upload
  complete_missing_part e h a =
      let b : InMemoryBucket = record (h.holder) {
        multipart_uploads = remove upload_id h.holder.multipart_uploads;
      } in
      rw (h.bucket_found, h.upload_found, h.parts_held, a)
        (
          refl,
          λ again. ground (
            arith,
            get-put bucket bucket b s.buckets,
            eq_refl bucket,
            get-remove upload_id upload_id h.holder.multipart_uploads,
            eq_refl upload_id,
          ),
        )

-- In a bucket that exists, creating an upload, uploading parts with distinct numbers one after the
-- other and completing with those numbers in that order makes the object whose content is the
-- contents of the parts one after the other, with the metadata of the creation and the ETag that
-- the completion returns.
pub multipart_roundtrip :
    (digest : Digest) (created now : ℕ) (bucket key upload_id : String) (metadata : ObjectMetadata)
    (ps : List (ℤ × List ℕ)) (s : EphemeralStorage) (b : InMemoryBucket)
    → get bucket s.buckets ≡ some b
    → IsDistinct (numbers ps)
    → let t : EphemeralStorage =
        upload_all digest bucket upload_id metadata key ps
          (state (create_multipart_upload upload_id created bucket key metadata s)) in
      let completed : List CompletedPart = completed_of digest ps in
      let combined : List ℕ = joined ps in
      (etag : String) × (reply
          (complete_multipart_upload digest now bucket key upload_id completed t)
        ≡ ok (record { etag = etag; version_id = none }))
      × (get_object bucket key
            (state (complete_multipart_upload digest now bucket key upload_id completed t))
          ≡ ok (record {
            content = combined;
            etag = etag;
            size = length combined;
            last_modified = now;
            metadata = metadata;
            version_id = none;
          }))
multipart_roundtrip digest created now bucket key upload_id metadata ps s b h d =
    let s' : EphemeralStorage =
      state (create_multipart_upload upload_id created bucket key metadata s) in
    let parts : Dict ℤ InMemoryPart = collect digest [] ps in
    let (replied, found) =
      complete_ok digest now bucket key upload_id (completed_of digest ps)
        (upload_all digest bucket upload_id metadata key ps s') parts metadata (joined ps)
        (upload_all-IsUploading digest bucket upload_id metadata key ps s' []
          (create-IsUploading digest bucket upload_id metadata created key s b h))
        (assemble-collect digest ps [] d) in
    (multipart_etag digest parts (completed_of digest ps), replied, found)
