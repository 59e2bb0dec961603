-- ===== src/S3/Multipart/Assembly.antt =====
-- A multipart upload from its creation to its completion.
use ruststack.Prelude.{
  ℕ, ◌≡◌, refl, String, false, some, List, [], ◌∷◌, ◌++◌, arith, string_eq, eq_refl, contains,
  IsDistinct, beq_refl,
}
use ruststack.Prelude.Int.{ℤ, int_eq}
use ruststack.Dict.{Dict, get, put, get-put}
use ruststack.Result.{ok, state}
use ruststack.S3.Types.{ObjectMetadata, CompletedPart}
use ruststack.S3.Ephemeral.{
  Digest, InMemoryPart, InMemoryBucket, MultipartUpload, EphemeralStorage, compute_etag,
}
use ruststack.S3.Multipart.{new_part, create_multipart_upload, upload_part, assemble}

-- The bucket holds the upload with these parts and this metadata.
pub record IsUploading (s : EphemeralStorage) (bucket upload_id : String)
    (parts : Dict ℤ InMemoryPart) (metadata : ObjectMetadata) : Type 0 where
  pub holder : InMemoryBucket
  pub upload : MultipartUpload
  pub bucket_found : get bucket s.buckets ≡ some holder
  pub upload_found : get upload_id holder.multipart_uploads ≡ some upload
  pub parts_held : upload.parts ≡ parts
  pub metadata_held : upload.metadata ≡ metadata

abbrev pub numbers : List (ℤ × List ℕ) → List ℤ
numbers [] = []
numbers ((n, content) ∷ ps) = n ∷ numbers ps

-- The contents one after the other.
abbrev pub joined : List (ℤ × List ℕ) → List ℕ
joined [] = []
joined ((n, content) ∷ ps) = content ++ joined ps

module _ (digest : Digest) where
  -- The parts that the upload then holds.
  pub collect : Dict ℤ InMemoryPart → List (ℤ × List ℕ) → Dict ℤ InMemoryPart
  collect parts [] = parts
  collect parts ((n, content) ∷ ps) = collect (put n (new_part digest content) parts) ps

  abbrev pub completed_of : List (ℤ × List ℕ) → List CompletedPart
  completed_of [] = []
  completed_of ((n, content) ∷ ps) =
      record { part_number = n; etag = compute_etag digest content } ∷ completed_of ps

  get-collect :
      (n : ℤ) (ps : List (ℤ × List ℕ)) (parts : Dict ℤ InMemoryPart)
      → contains (numbers ps) n ≡ false
      → get n (collect parts ps) ≡ get n parts
  unfolding collect contains
  get-collect n [] parts h = refl
  get-collect n ((m, content) ∷ ps) parts h = ground (
    arith,
    get-collect n ps (put m (new_part digest content) parts),
    get-put m n (new_part digest content) parts,
  )

  pub assemble-collect :
      (ps : List (ℤ × List ℕ)) (parts : Dict ℤ InMemoryPart)
      → IsDistinct (numbers ps)
      → assemble (collect parts ps) (completed_of ps) ≡ ok (joined ps)
  unfolding collect assemble
  assemble-collect [] parts h = refl
  assemble-collect ((n, content) ∷ ps) parts h = ground (
    arith,
    get-collect n ps (put n (new_part digest content) parts) h.0,
    get-put n n (new_part digest content) parts,
    beq_refl n,
    assemble-collect ps (put n (new_part digest content) parts) h.1,
  )

module _ (digest : Digest) (bucket upload_id : String) (metadata : ObjectMetadata) where
  -- Parts uploaded one after the other, each as its number and its content.
  abbrev pub upload_all : String → List (ℤ × List ℕ) → EphemeralStorage → EphemeralStorage
  upload_all key [] s = s
  upload_all key ((n, content) ∷ ps) s =
      upload_all key ps (state (upload_part digest bucket key upload_id n content s))

  upload_part-IsUploading :
      (s : EphemeralStorage) (parts : Dict ℤ InMemoryPart) (key : String) (n : ℤ) (content : List ℕ)
      → IsUploading s bucket upload_id parts metadata
      → IsUploading
          (state (upload_part digest bucket key upload_id n content s))
          bucket
          upload_id
          (put n (new_part digest content) parts)
          metadata
  unfolding upload_part
  upload_part-IsUploading s parts key n content h =
      let u : MultipartUpload = record (h.upload) {
        parts = put n (new_part digest content) h.upload.parts;
      } in
      let b : InMemoryBucket = record (h.holder) {
        multipart_uploads = put upload_id u h.holder.multipart_uploads;
      } in
      rw (h.bucket_found, h.upload_found)
        (record {
          holder = b;
          upload = u;
          bucket_found = ground (arith, get-put bucket bucket b s.buckets, eq_refl bucket);
          upload_found =
              ground (
                arith,
                get-put upload_id upload_id u h.holder.multipart_uploads,
                eq_refl upload_id,
              );
          parts_held = rw h.parts_held;
          metadata_held = h.metadata_held;
        })

  pub upload_all-IsUploading :
      (key : String) (ps : List (ℤ × List ℕ)) (s : EphemeralStorage) (parts : Dict ℤ InMemoryPart)
      → IsUploading s bucket upload_id parts metadata
      → IsUploading (upload_all key ps s) bucket upload_id (collect digest parts ps) metadata
  unfolding collect
  upload_all-IsUploading key [] s parts h = h
  upload_all-IsUploading key ((n, content) ∷ ps) s parts h =
      upload_all-IsUploading key ps (state (upload_part digest bucket key upload_id n content s))
        (put n (new_part digest content) parts) (upload_part-IsUploading s parts key n content h)

  pub create-IsUploading :
      (now : ℕ) (key : String) (s : EphemeralStorage) (b : InMemoryBucket)
      → get bucket s.buckets ≡ some b
      → IsUploading
          (state (create_multipart_upload upload_id now bucket key metadata s))
          bucket
          upload_id
          []
          metadata
  unfolding create_multipart_upload
  create-IsUploading now key s b h =
      let u : MultipartUpload = record {
        key = key;
        parts = [];
        metadata = metadata;
        created_at = now;
      } in
      let b' : InMemoryBucket = record b {
        multipart_uploads = put upload_id u b.multipart_uploads;
      } in
      rw h (record {
        holder = b';
        upload = u;
        bucket_found = ground (arith, get-put bucket bucket b' s.buckets, eq_refl bucket);
        upload_found =
            ground (arith, get-put upload_id upload_id u b.multipart_uploads, eq_refl upload_id);
        parts_held = refl;
        metadata_held = refl;
      })
