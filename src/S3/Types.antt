-- ===== src/S3/Types.antt =====
-- ruststack-s3/src/storage/traits.rs: the errors and the results of the storage. `data` is a list
-- of bytes, a time is a number, and an I/O error is its text.
use ruststack.Prelude.{ℕ, String, Bool, Option, List}
use ruststack.Prelude.Int.{ℤ}
use ruststack.Dict.{Dict}

pub data StorageError : Type 0 where
  bucket_not_found : String → StorageError
  object_not_found : String → String → StorageError
  bucket_already_exists bucket_not_empty invalid_bucket_name : String → StorageError
  upload_not_found io internal : String → StorageError

pub record ObjectMetadata : Type 0 where
  pub content_type : Option String
  pub content_encoding : Option String
  pub content_disposition : Option String
  pub content_language : Option String
  pub cache_control : Option String
  pub user_metadata : Dict String String
  pub storage_class : Option String

pub record StoredObject : Type 0 where
  pub content : List ℕ
  pub etag : String
  pub size : ℕ
  pub last_modified : ℕ
  pub metadata : ObjectMetadata
  pub version_id : Option String

pub record PutObjectResult : Type 0 where
  pub etag : String
  pub version_id : Option String

pub record DeleteResult : Type 0 where
  pub deleted : Bool
  pub version_id : Option String
  pub delete_marker : Bool

pub record ObjectSummary : Type 0 where
  pub key : String
  pub etag : String
  pub size : ℕ
  pub last_modified : ℕ
  pub storage_class : String

pub record ListObjectsResult : Type 0 where
  pub objects : List ObjectSummary
  pub common_prefixes : List String
  pub is_truncated : Bool
  pub next_continuation_token : Option String

pub record PartInfo : Type 0 where
  pub part_number : ℤ
  pub etag : String
  pub size : ℕ

pub record CompletedPart : Type 0 where
  pub part_number : ℤ
  pub etag : String

pub record CompleteResult : Type 0 where
  pub etag : String
  pub version_id : Option String

pub record MultipartUploadInfo : Type 0 where
  pub key : String
  pub upload_id : String
  pub initiated : ℕ
