-- ===== src/SecretsManager/Tests.antt =====
-- Runs of the secrets store at concrete inputs.
use ruststack.Prelude.{◌+◌, ◌≡◌, refl, true, false, none, some, [], ◌∷◌, arith, string_eq}
use ruststack.Dict.{get, put, contains_key}
use ruststack.Result.{err, state, reply}
use ruststack.Reach.{Reach, here, next}
use ruststack.SecretsManager.Storage.{
  Secret, SecretVersion, SecretsManagerStorage, new, new_secret, new_version, resource_not_found,
  create_secret, get_secret_value, put_secret_value, delete_secret, read_version, demote,
}
use ruststack.SecretsManager.Storage.Reached.{Step, creates, IsValid, reached_secrets-IsValid}
use ruststack.SecretsManager.Storage.Rotation.{
  Answers, get-put_secret_value, get_previous-put_secret_value, get_secret_value-delete_secret,
}

abbrev secret : Secret
secret = new_secret "v1" "abc123" 1 "db" none none (some "old") none []

abbrev store : SecretsManagerStorage
store = state (create_secret "v1" "abc123" 1 "db" none none (some "old") none [] new)

store-Reach : Reach Step new store
store-Reach = next here (creates "v1" "abc123" 1 "db" none none (some "old") none [])

store_secret : get "db" store.secrets ≡ some secret
unfolding create_secret get put contains_key
store_secret = refl

secret_version : get "v1" secret.versions ≡ some (new_version "v1" (some "old") none 1)
unfolding get put
secret_version = refl

reached_secrets-IsValid_example : IsValid store
reached_secrets-IsValid_example = reached_secrets-IsValid store store-Reach

get-put_secret_value_example :
    let t : SecretsManagerStorage = state (put_secret_value "v2" 5 "db" (some "new") none store) in
    let v : SecretVersion = new_version "v2" (some "new") none 5 in
    Answers (put_secret_value "v2" 5 "db" (some "new") none store) v
    × Answers (get_secret_value 6 "db" none (some "AWSCURRENT") t) v
    × Answers (get_secret_value 6 "db" (some "v2") none t) v
    × Answers (get_secret_value 6 "db" none none t) v
get-put_secret_value_example =
    get-put_secret_value "v2" 5 "db" (some "new") none store secret 6 store_secret

fresh_v2 : (found : Secret) → get "db" store.secrets ≡ some found → get "v2" found.versions ≡ none
unfolding create_secret get put contains_key
fresh_v2 found e = ground arith

get_previous-put_secret_value_example :
    Answers
      (get_secret_value 6 "db" none
        (some "AWSPREVIOUS")
        (state (put_secret_value "v2" 5 "db" (some "new") none store)))
      (record (new_version "v1" (some "old") none 1) {
        version_stages = demote ("AWSCURRENT" ∷ []);
      })
get_previous-put_secret_value_example =
    get_previous-put_secret_value "v2" 5 "db" (some "new") none store secret 6 "v1"
      (new_version "v1" (some "old") none 1) store_secret store-Reach fresh_v2 refl secret_version

get_secret_value-delete_secret_example :
    (reply (get_secret_value 7 "db" none none (state (delete_secret 5 "db" true store)))
      ≡ err (resource_not_found "db"))
    × (reply (get_secret_value 7 "db" none none (state (delete_secret 5 "db" false store)))
        ≡ read_version
            (record secret { last_accessed_date = some 7; deleted_date = some (5 + 2592000000) })
            none
            none)
get_secret_value-delete_secret_example =
    get_secret_value-delete_secret 5 7 "db" none none store secret store_secret
