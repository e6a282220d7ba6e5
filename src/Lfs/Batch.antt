-- ===== src/Lfs/Batch.antt =====
-- ServeBatchHandler of route/lfs/batch.go. The parsed JSON, the result of ValidateBasicAuth and the
-- storage's Size are arguments, of which the first is the library's.
use gitopia_storage.Prelude.{
  ℕ, Bool, Option, none, some, List, [], ◌∷◌, ◌++◌, Result, ok, err, map, ◌==◌, if◌then◌else◌,
}
use gitopia_storage.Text.{Bytes, codes, bytes_eq}
use gitopia_storage.Events.Paths.{decimal}
use gitopia_storage.Auth.{AuthError, index_panics, decode_basic, parse_repository_id_from_uri}
use gitopia_storage.Lfs.{StorageError, nil_info_panics, valid_oid}
use gitopia_storage.Lfs.Http.{
  BatchActions, BatchError, BatchObject, Reply, empty_body, message_body, error_text, batch_body,
  response, reply_panics, status_ok, status_bad_request, status_unauthorized, status_not_found,
  status_unprocessable,
}

pub record ObjectRequest : Type 0 where
  pub oid : Bytes
  pub size : ℕ

pub record BatchRequest : Type 0 where
  pub operation : Bytes
  pub objects : List ObjectRequest

-- The request: its path, its header, its body if that is JSON of a batch, its host, and whether it
-- came over TLS.
pub record HttpRequest : Type 0 where
  pub path : Bytes
  pub header : Option Bytes
  pub batch : Option BatchRequest
  pub host : Bytes
  pub tls : Bool

abbrev pub no_actions : BatchActions
no_actions = record { download = none; upload = none; verify = none; error = none }

abbrev pub objects_of : Bytes → Bytes
objects_of shown = codes "/" ++ (shown ++ codes ".git/info/lfs/objects/basic")

unfoldable pub object_path : ℕ → Bytes
object_path id = objects_of (decimal id)

unfoldable pub base_href : HttpRequest → ℕ → Bytes
unfolding object_path
base_href r id =
    (if r.tls then codes "https" else codes "http") ++ (codes "://" ++ (r.host ++ object_path id))

abbrev pub invalid_oid_error : BatchError
invalid_oid_error = record { code = status_unprocessable; message = "Object has invalid oid" }

unfoldable pub upload_actions : Bytes → Bytes → BatchActions
unfolding valid_oid
upload_actions base oid =
    if valid_oid oid
    then record {
      download = none;
      upload = some (record {
        href = base ++ (codes "/" ++ oid);
        header = ("Content-Type", "application/octet-stream") ∷ [];
      });
      verify = some (record { href = base ++ codes "/verify"; header = [] });
      error = none;
    }
    else record { download = none; upload = none; verify = none; error = some invalid_oid_error }

-- The map storedSet: the latest entry of an id comes first, and a missing id has the size zero.
unfoldable pub stored_size : List (Bytes × ℕ) → Bytes → ℕ
unfolding bytes_eq
stored_size [] oid = 0
stored_size (entry ∷ entries) oid =
    if bytes_eq entry.0 oid then entry.1 else stored_size entries oid

-- `size, _ := s.Size(oid)`: an error comes with the size zero; `none` is the panic of Size.
abbrev pub size_or_zero : Result StorageError ℕ → Option ℕ
size_or_zero (err nil_info_panics) = none
size_or_zero (err e) = some 0
size_or_zero (ok n) = some n

abbrev pub store_size : Bytes → ℕ → List (Bytes × ℕ) → List (Bytes × ℕ)
store_size oid n stored = if n == 0 then stored else (oid, n) ∷ stored

unfoldable pub stored_set :
    (Bytes → Result StorageError ℕ)
    → List ObjectRequest
    → List (Bytes × ℕ)
    → Option (List (Bytes × ℕ))
stored_set size [] stored = some stored
stored_set size (o ∷ os) stored = elim (size_or_zero (size o.oid)) [
  | none ↦ none
  | some n ↦ stored_set size os (store_size o.oid n stored)
]

unfoldable pub download_actions : Bytes → ObjectRequest → ℕ → BatchActions
download_actions base o n =
    if n == 0
    then record {
      download = none;
      upload = none;
      verify = none;
      error = some (record { code = status_not_found; message = "Object does not exist" });
    }
    else if n == o.size
    then record {
      download = some (record { href = base ++ (codes "/" ++ o.oid); header = [] });
      upload = none;
      verify = none;
      error = none;
    }
    else record {
      download = none;
      upload = none;
      verify = none;
      error = some (record { code = status_unprocessable; message = "Object size mismatch" });
    }

abbrev pub answer : ObjectRequest → BatchActions → BatchObject
answer o actions = record { oid = o.oid; size = o.size; actions = actions }

abbrev pub batch_response : List BatchObject → Reply
batch_response objects = response status_ok (batch_body objects)

abbrev pub reply_objects : Option (List BatchObject) → Reply
reply_objects none = reply_panics
reply_objects (some objects) = batch_response objects

abbrev pub answer_from : Bytes → List (Bytes × ℕ) → ObjectRequest → BatchObject
answer_from base stored o = answer o (download_actions base o (stored_size stored o.oid))

unfoldable pub download_batch : (Bytes → Result StorageError ℕ) → Bytes → List ObjectRequest → Reply
unfolding stored_set stored_size download_actions
download_batch size base os = elim (stored_set size os []) [
  | none ↦ reply_panics
  | some stored ↦ batch_response (map (answer_from base stored) os)
]

unfoldable pub upload_batch : Bytes → List ObjectRequest → Reply
unfolding upload_actions
upload_batch base os = batch_response (map (λ o. answer o (upload_actions base o.oid)) os)

-- The guard of the upload: credentials that are there and valid.
unfoldable pub authorised : Bytes → Result AuthError Bytes → Reply → Reply
authorised [] allow reply = response status_unauthorized (message_body "Credentials needed")
authorised (c ∷ password) (err e) reply = response status_unauthorized empty_body
authorised (c ∷ password) (ok address) reply = reply

unfoldable pub run_batch :
    (Bytes → Bytes → Result AuthError Bytes)
    → (Bytes → Result StorageError ℕ)
    → HttpRequest
    → ℕ
    → BatchRequest
    → Reply
unfolding authorised base_href download_batch upload_batch decode_basic
run_batch validate size r id b =
    let password = (decode_basic r.header).1 in
    let base = base_href r id in
    if bytes_eq b.operation (codes "upload")
    then authorised password (validate r.path password) (upload_batch base b.objects)
    else if bytes_eq b.operation (codes "download")
    then download_batch size base b.objects
    else response status_bad_request (message_body "Operation not recognized")

-- The arguments: ValidateBasicAuth of a path and a password, and Size of an id.
unfoldable pub serve_batch :
    (Bytes → Bytes → Result AuthError Bytes) → (Bytes → Result StorageError ℕ) → HttpRequest → Reply
unfolding run_batch parse_repository_id_from_uri
serve_batch validate size r = elim (parse_repository_id_from_uri r.path) [
  | err index_panics ↦ reply_panics
  | err e ↦ response status_bad_request error_text
  | ok id ↦ elim r.batch [
    | none ↦ response status_bad_request error_text
    | some b ↦ run_batch validate size r id b
  ]
]
