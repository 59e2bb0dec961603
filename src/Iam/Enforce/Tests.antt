-- ===== src/Iam/Enforce/Tests.antt =====
-- The enforcement at a concrete request. A stub stands for the parser of documents.
use ruststack.Prelude.{
  ◌≡◌, ◌↔◌, refl, String, true, false, Option, some, none, [], ◌∷◌, ◌==◌, string_eq, if◌then◌else◌,
}
use ruststack.Prelude.Int.{pos}
use ruststack.Iam.Policy.{PolicyDocument}
use ruststack.Iam.Storage.{Role, Policy, IamStorage, list_roles}
use ruststack.Iam.Tests.{readers, secrets}
use ruststack.Iam.Enforce.{Request, forwarded, access_key_of, find_role, enforce_iam}
use ruststack.Iam.Enforce.Verdict.{IsAllowed, enforce_iam-forwarded_iff}

abbrev from_json : String → Option PolicyDocument
from_json text =
    if text == "read" then some readers else if text == "secret" then some secrets else none

abbrev policy : String → String → Policy
policy arn text = record {
  policy_name = text;
  policy_id = text;
  arn = arn;
  path = "/";
  policy_document = text;
  description = none;
  create_date = 1;
  attachment_count = pos 1;
}

abbrev dev : Role
dev = record {
  role_name = "dev";
  role_id = "AROA1";
  arn = "arn:aws:iam::000000000000:role/dev";
  path = "/";
  assume_role_policy_document = "";
  description = none;
  create_date = 1;
  attached_policies = "arn:read" ∷ "arn:gone" ∷ "arn:secret" ∷ [];
}

abbrev store : IamStorage
store = record {
  roles = ("dev", dev) ∷ [];
  policies =
      ("arn:read", policy "arn:read" "read") ∷ ("arn:secret", policy "arn:secret" "secret") ∷ [];
}

abbrev request : Request
request = record {
  method = "GET";
  path = "/a.txt";
  authorization = some "AWS4-HMAC-SHA256 Credential=dev/20240101/us-east-1/s3/aws4_request";
  amz_target = none;
  host = some "bucket.localhost:4566";
}

dev_key : access_key_of request.authorization ≡ some "dev"
unfolding access_key_of
dev_key = refl

abbrev user : String
user = "dev"

enforce_iam-forwarded_iff_example :
    (enforce_iam from_json true false (some store) request ≡ forwarded)
    ↔ IsAllowed from_json store request (find_role user (list_roles store))
enforce_iam-forwarded_iff_example =
    enforce_iam-forwarded_iff from_json store request false user refl dev_key refl
