-- ===== src/Lfs/Basic.antt =====
-- ServeDownloadHandler, ServeVerifyHandler, Authenticate and VerifyOID of route/lfs/basic.go. The
-- parsed JSON is an argument; a size is a natural number.
use gitopia_storage.Prelude.{
  ℕ, Option, none, some, List, [], ◌∷◌, Result, ok, err, ◌>>=◌, or_err, length, get_elem?, ◌==◌,
  if◌then◌else◌,
}
use gitopia_storage.Text.{Bytes, split}
use gitopia_storage.Auth.{AuthError, index_panics, decode_basic, parse_repository_id_from_uri}
use gitopia_storage.Lfs.{
  Disk, Faults, LocalStorage, StorageError, nil_info_panics, valid_oid, size, download,
}
use gitopia_storage.Lfs.Http.{
  Reply, empty_body, message_body, error_text, object_body, truncated_body, response, reply_panics,
  status_ok, status_bad_request, status_unauthorized, status_not_found, internal_server_error,
}

abbrev pub bad_oid : Reply
bad_oid = response status_bad_request (message_body "Invalid oid")

abbrev pub seventh : List Bytes → Result Reply Bytes
seventh components =
    if length components == 7 then or_err bad_oid (get_elem? components 6) else err bad_oid

-- `components[6]`, where the path has seven components.
unfoldable pub oid_of_path : Bytes → Result Reply Bytes
unfolding split
oid_of_path path = seventh (split b'/' path)

abbrev pub repository_reply : Result AuthError ℕ → Result Reply ℕ
repository_reply (ok id) = ok id
repository_reply (err index_panics) = err reply_panics
repository_reply (err e) = err (response status_bad_request error_text)

-- The repository and the object of a path, or the handler's answer to a path without them.
unfoldable pub parse_path : Bytes → Result Reply (ℕ × Bytes)
unfolding parse_repository_id_from_uri oid_of_path
parse_path path = repository_reply (parse_repository_id_from_uri path) >>= λ id.
    oid_of_path path >>= λ oid. ok (id, oid)

abbrev pub reply_of : Result Reply Reply → Reply
reply_of (ok reply) = reply
reply_of (err reply) = reply

-- The status is sent before the object is read.
abbrev pub send_object : Result StorageError ℕ → Result StorageError Bytes → Reply
send_object (err nil_info_panics) sent = reply_panics
send_object (err e) sent = internal_server_error
send_object (ok n) (ok content) = response status_ok (object_body content)
send_object (ok n) (err e) = response status_ok truncated_body

unfoldable pub serve_download : LocalStorage → Faults → Bytes → Disk → Reply
unfolding parse_path size download
serve_download s f path d =
    reply_of
      (parse_path path >>= λ (id, oid). ok (send_object (size s f oid d) (download s f oid d)))

pub record VerifyRequest : Type 0 where
  pub oid : Bytes
  pub size : ℕ

abbrev pub verify_size : ℕ → Result StorageError ℕ → Reply
verify_size n (err nil_info_panics) = reply_panics
verify_size n (err e) = response status_not_found (message_body "Object does not exist")
verify_size n (ok stored) =
    if stored == n
    then response status_ok empty_body
    else response status_bad_request (message_body "Object size mismatch")

unfoldable pub serve_verify : LocalStorage → Faults → Option VerifyRequest → Disk → Reply
unfolding valid_oid size
serve_verify s f none d = response status_bad_request error_text
serve_verify s f (some v) d =
    if valid_oid v.oid then verify_size v.size (size s f v.oid d) else bad_oid

abbrev ask_credentials : Reply
ask_credentials = response status_unauthorized (message_body "Credentials needed")

-- With the password and what ValidateBasicAuth says of it. `handler` gets the address in the
-- request's context; the answer for a request that it may not see is the reply alone.
abbrev pub with_address :
    {A : Type 0} → Bytes → Result AuthError Bytes → (Bytes → Result Reply A) → Result Reply A
with_address [] allow handler = err ask_credentials
with_address (c ∷ password) (err e) handler = err (response status_unauthorized empty_body)
with_address (c ∷ password) (ok address) handler = handler address

unfoldable pub authenticate :
    {A : Type 0}
    → (Bytes → Bytes → Result AuthError Bytes)
    → Bytes
    → Option Bytes
    → (Bytes → Result Reply A)
    → Result Reply A
unfolding decode_basic
authenticate validate path header handler =
    let password = (decode_basic header).1 in with_address password (validate path password) handler

unfoldable pub verify_oid : Bytes → Reply → Reply
unfolding oid_of_path valid_oid
verify_oid path handler = elim (oid_of_path path) [
  | err reply ↦ reply
  | ok oid ↦ if valid_oid oid then handler else bad_oid
]
