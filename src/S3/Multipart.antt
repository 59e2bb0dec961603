-- ===== src/S3/Multipart.antt =====
-- ruststack-s3/src/storage/ephemeral.rs: multipart uploads. A new upload identifier (a UUID) and
-- the clock are arguments.
pub mod Assembly
pub mod Completion
use Prim.Native.String
use ruststack.Prelude.{
  ℕ, String, Bool, Option, none, some, List, [], ◌∷◌, ◌++◌, map, string_eq, length,
}
use ruststack.Prelude.Int.{ℤ, int_eq}
use ruststack.Text.Decimal.{decimal, decimal_int}
use ruststack.Dict.{Dict, get, put, remove}
use ruststack.Result.{Result, ok, err, ok_or, ◌>>=◌}
use ruststack.S3.Types.{
  StorageError, bucket_not_found, upload_not_found, internal, ObjectMetadata, PartInfo,
  CompletedPart, CompleteResult, MultipartUploadInfo,
}
use ruststack.S3.Ephemeral.{
  Digest, InMemoryObject, InMemoryPart, MultipartUpload, InMemoryBucket, EphemeralStorage,
  compute_etag, with_bucket,
}

abbrev pub new_upload : ℕ → String → ObjectMetadata → MultipartUpload
new_upload now key metadata = record {
  key = key;
  parts = [];
  metadata = metadata;
  created_at = now;
}

unfoldable pub create_multipart_upload :
    String
    → ℕ
    → String
    → String
    → ObjectMetadata
    → EphemeralStorage
    → Result StorageError String × EphemeralStorage
unfolding with_bucket
create_multipart_upload upload_id now bucket key metadata s =
    with_bucket bucket
      (λ b. (
        ok upload_id,
        record b {
          multipart_uploads = put upload_id (new_upload now key metadata) b.multipart_uploads;
        },
      ))
      s

abbrev pub new_part : Digest → List ℕ → InMemoryPart
new_part digest content = record { content = content; etag = compute_etag digest content }

unfoldable pub upload_found :
    Digest
    → String
    → ℤ
    → List ℕ
    → InMemoryBucket
    → Option MultipartUpload
    → Result StorageError PartInfo × InMemoryBucket
upload_found digest upload_id part_number content b none = (err (upload_not_found upload_id), b)
upload_found digest upload_id part_number content b (some upload) =
    let part = new_part digest content in
    (
      ok (record { part_number = part_number; etag = part.etag; size = length content }),
      record b {
        multipart_uploads =
            put upload_id (record upload { parts = put part_number part upload.parts })
              b.multipart_uploads;
      },
    )

-- `_key` is not read.
unfoldable pub upload_part :
    Digest
    → String
    → String
    → String
    → ℤ
    → List ℕ
    → EphemeralStorage
    → Result StorageError PartInfo × EphemeralStorage
unfolding with_bucket upload_found
upload_part digest bucket key upload_id part_number content s =
    with_bucket bucket
      (λ b. upload_found digest upload_id part_number content b (get upload_id b.multipart_uploads))
      s

part_missing : ℤ → StorageError
part_missing n = internal (String.◌++◌ "Part " (String.◌++◌ (decimal_int n) " not found"))

-- the loop that assembles the parts
unfoldable pub assemble : Dict ℤ InMemoryPart → List CompletedPart → Result StorageError (List ℕ)
unfolding part_missing
assemble parts [] = ok []
assemble parts (completed ∷ rest) = do
  part ← ok_or (get completed.part_number parts) (part_missing completed.part_number)
  combined ← assemble parts rest
  ok (part.content ++ combined)

-- the loop that concatenates the digests of the parts; it runs only when no part is missing
unfoldable pub etag_parts : Digest → Dict ℤ InMemoryPart → List CompletedPart → List ℕ
etag_parts digest parts [] = []
etag_parts digest parts (completed ∷ rest) = elim (get completed.part_number parts) [
  | none ↦ etag_parts digest parts rest
  | some part ↦ digest.md5 part.content ++ etag_parts digest parts rest
]

unfoldable pub multipart_etag : Digest → Dict ℤ InMemoryPart → List CompletedPart → String
unfolding etag_parts
multipart_etag digest parts completed = String.◌++◌ "\"" (
    String.◌++◌ (digest.hex (digest.md5 (etag_parts digest parts completed)))
      (String.◌++◌ "-" (String.◌++◌ (decimal (length completed)) "\"")))

unfoldable pub store_assembled :
    Digest
    → ℕ
    → String
    → MultipartUpload
    → List CompletedPart
    → InMemoryBucket
    → Result StorageError (List ℕ)
    → Result StorageError CompleteResult × InMemoryBucket
unfolding multipart_etag
store_assembled digest now key upload completed b (err e) = (err e, b)
store_assembled digest now key upload completed b (ok combined) =
    let etag = multipart_etag digest upload.parts completed in
    let obj : InMemoryObject = record {
      content = combined;
      etag = etag;
      last_modified = now;
      metadata = upload.metadata;
    } in
    (ok (record { etag = etag; version_id = none }), record b { objects = put key obj b.objects })

-- The upload is removed before its parts are looked at.
unfoldable pub complete_found :
    Digest
    → ℕ
    → String
    → String
    → List CompletedPart
    → InMemoryBucket
    → Option MultipartUpload
    → Result StorageError CompleteResult × InMemoryBucket
unfolding store_assembled
complete_found digest now key upload_id completed b none = (err (upload_not_found upload_id), b)
complete_found digest now key upload_id completed b (some upload) =
    store_assembled digest now key upload completed
      (record b { multipart_uploads = remove upload_id b.multipart_uploads })
      (assemble upload.parts completed)

unfoldable pub complete_multipart_upload :
    Digest
    → ℕ
    → String
    → String
    → String
    → List CompletedPart
    → EphemeralStorage
    → Result StorageError CompleteResult × EphemeralStorage
unfolding with_bucket complete_found
complete_multipart_upload digest now bucket key upload_id completed s =
    with_bucket bucket
      (λ b. complete_found digest now key upload_id completed b (get upload_id b.multipart_uploads))
      s

unfoldable pub abort_multipart_upload :
    String → String → String → EphemeralStorage → Result StorageError (Unit {0}) × EphemeralStorage
unfolding with_bucket
abort_multipart_upload bucket key upload_id s =
    with_bucket bucket
      (λ b. (ok tt, record b { multipart_uploads = remove upload_id b.multipart_uploads })) s

unfoldable pub list_multipart_uploads :
    String → EphemeralStorage → Result StorageError (List MultipartUploadInfo)
list_multipart_uploads bucket s = do
  b ← ok_or (get bucket s.buckets) (bucket_not_found bucket)
  ok (
      map
        (λ (entry : String × MultipartUpload). record {
          key = entry.1.key;
          upload_id = entry.0;
          initiated = entry.1.created_at;
        })
        b.multipart_uploads)

unfoldable pub list_parts :
    String → String → String → EphemeralStorage → Result StorageError (List PartInfo)
list_parts bucket key upload_id s = do
  b ← ok_or (get bucket s.buckets) (bucket_not_found bucket)
  upload ← ok_or (get upload_id b.multipart_uploads) (upload_not_found upload_id)
  ok (
      map
        (λ (entry : ℤ × InMemoryPart). record {
          part_number = entry.0;
          etag = entry.1.etag;
          size = length entry.1.content;
        })
        upload.parts)
