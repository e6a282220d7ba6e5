-- ===== src/Server.antt =====
-- internal/app/server.go, auth.go and helpers.go: which handler serves a request, and who may push.
-- A request is its method, `URL.Path`, `RequestURI` and `Authorization` header, empty if there is
-- none. The file system is an argument of the server (`repo_exists`, `init_works`).
pub mod Routes
pub mod Authorised
pub mod Query
mod Tests
use gitopia_storage.Prelude.{
  ℕ, ◌-◌, ◌≡◌, refl, Bool, true, false, ◌&&◌, ◌||◌, Option, none, some, List, [], ◌∷◌, Result, ok,
  err, or_err, ◌>>=◌, length, take, ltb, ◌==◌, if◌then◌else◌,
}
use gitopia_storage.Text.{Bytes, codes, bytes_eq, split, cut_prefix, has_suffix, remove_first}
use gitopia_storage.Events.Paths.{join, join_parts}
use gitopia_storage.Auth.{
  AuthError, error_decoding, bad_signature, invalid_signers, decode_basic,
  parse_repository_id_from_uri,
}
use gitopia_storage.Auth.Permission.{Chain, have_push_permission}
use gitopia_storage.Auth.Validate.{Tokens, sole_signer, permitted}

pub data Handler : Type 0 where
  get_info_refs : Handler
  post_rpc : Handler

pub record Service : Type 0 where
  pub method : Bytes
  pub suffix : Bytes
  pub handler : Handler
  pub rpc : Bytes

pub data LfsHandler : Type 0 where
  serve_batch serve_download serve_upload serve_verify : LfsHandler
  serve_create_lock serve_list_locks serve_verify_locks serve_unlock : LfsHandler

-- `authenticated` stands for the wrapper `lfs.Authenticate`.
pub record LfsService : Type 0 where
  pub method : Bytes
  pub suffix : Bytes
  pub authenticated : Bool
  pub handler : LfsHandler

abbrev pub receive_pack : Bytes
receive_pack = codes "git-receive-pack"

abbrev pub service : Bytes → Bytes → Handler → Bytes → Service
service method suffix handler rpc = record {
  method = method;
  suffix = suffix;
  handler = handler;
  rpc = rpc;
}

abbrev pub services : List Service
services =
    service (codes "GET") (codes "/info/refs") get_info_refs []
    ∷ service (codes "POST") (codes "/git-upload-pack") post_rpc (codes "git-upload-pack")
    ∷ service (codes "POST") (b'/' ∷ receive_pack) post_rpc receive_pack
    ∷ []

abbrev lfs_service : Bytes → Bytes → Bool → LfsHandler → LfsService
lfs_service method suffix authenticated handler = record {
  method = method;
  suffix = suffix;
  authenticated = authenticated;
  handler = handler;
}

abbrev pub lfs_services : List LfsService
lfs_services =
    lfs_service (codes "POST") (codes "/objects/batch") false serve_batch
    ∷ lfs_service (codes "GET") (codes "/objects/basic") false serve_download
    ∷ lfs_service (codes "PUT") (codes "/objects/basic") true serve_upload
    ∷ lfs_service (codes "POST") (codes "/objects/basic/verify") false serve_verify
    ∷ lfs_service (codes "POST") (codes "/locks") true serve_create_lock
    ∷ lfs_service (codes "GET") (codes "/locks") false serve_list_locks
    ∷ lfs_service (codes "POST") (codes "/locks/verify") false serve_verify_locks
    ∷ lfs_service (codes "POST") (codes "/locks/*/unlock") true serve_unlock
    ∷ []

pub record Request : Type 0 where
  pub method : Bytes
  pub path : Bytes
  pub request_uri : Bytes
  pub authorization : Bytes

-- The fields that the server adds to a request.
pub record GitRequest : Type 0 where
  pub repo_name : Bytes
  pub repo_path : Bytes
  pub address : Bytes

-- Both are answered with 401; the second asks for credentials.
pub data Refusal : Type 0 where
  unauthorized asks_credentials : Refusal

pub data Answer : Type 0 where
  forbidden bad_request not_found : Answer
  refused : Refusal → Answer
  serve_lfs : LfsService → Answer
  serve_git : Handler → Bytes → GitRequest → Answer

-- `init_works` says whether there is a repository after `git init`.
pub record Server (Tx : Type 0) : Type 0 where
  pub dir : Bytes
  pub auth : Bool
  pub auto_create : Bool
  pub tokens : Tokens Tx
  pub chain : Chain
  pub repo_exists : Bytes → Bool
  pub init_works : Bytes → Bool

abbrev pub is_empty : Bytes → Bool
is_empty [] = true
is_empty (c ∷ s) = false

-- The service with the path in front of its first suffix removed.
unfoldable pub find_service : List Service → Request → Option (Service × Bytes)
unfolding bytes_eq has_suffix remove_first
find_service [] r = none
find_service (svc ∷ svcs) r =
    let rest = find_service svcs r in
    if bytes_eq svc.method r.method && has_suffix svc.suffix r.path
    then some (svc, remove_first svc.suffix r.path)
    else rest

-- A path may end with a slash and an object id of 64 digits.
unfoldable pub lfs_matches : LfsService → Request → Bool
unfolding bytes_eq has_suffix
lfs_matches svc r =
    bytes_eq svc.method r.method
    && (has_suffix svc.suffix r.path
        || (ltb 65 (length r.path) && has_suffix svc.suffix (take (length r.path - 65) r.path)))

unfoldable pub find_lfs_service : List LfsService → Request → Answer
unfolding lfs_matches
find_lfs_service [] r = forbidden
find_lfs_service (svc ∷ svcs) r =
    let rest = find_lfs_service svcs r in if lfs_matches svc r then serve_lfs svc else rest

-- `reSlashDedup.ReplaceAllString(input, "/")`.
abbrev slash_before : ℕ → Bytes → Bytes
slash_before c [] = c ∷ []
slash_before c (d ∷ s) = if c == b'/' && d == b'/' then d ∷ s else c ∷ d ∷ s

unfoldable pub dedup_slashes : Bytes → Bytes
dedup_slashes [] = []
dedup_slashes (c ∷ s) = slash_before c (dedup_slashes s)

abbrev drop_slash : Bytes → Bytes
drop_slash [] = []
drop_slash (c ∷ s) = if c == b'/' then s else c ∷ s

abbrev push_block : Bytes → List Bytes × Bytes → List Bytes × Bytes
push_block block (blocks, last) = (block ∷ blocks, last)

unfoldable pub split_last : List Bytes → List Bytes × Bytes
split_last [] = ([], [])
split_last (block ∷ []) = ([], block)
split_last (block ∷ blocks) = push_block block (split_last blocks)

unfoldable pub get_namespace_and_repo : Bytes → Bytes × Bytes
unfolding bytes_eq split dedup_slashes split_last join_parts
get_namespace_and_repo input =
    if is_empty input || bytes_eq input (codes "/")
    then ([], [])
    else let (blocks, last) = split_last (split b'/' (drop_slash (dedup_slashes input))) in
      (join_parts blocks, last)

abbrev pub or_unauthorized : Result AuthError Bytes → Result Refusal Bytes
or_unauthorized (ok address) = ok address
or_unauthorized (err e) = err unauthorized

abbrev pub either : Result Refusal Answer → Answer
either (ok a) = a
either (err e) = refused e

module _ {Tx : Type 0} where
  unfoldable pub auth_func : Tokens Tx → Chain → Bytes → Bytes → Result AuthError Bytes
  unfolding parse_repository_id_from_uri sole_signer permitted have_push_permission
  auth_func t c token path = parse_repository_id_from_uri path >>= λ id.
      or_err error_decoding (t.decode_tx token) >>= λ tx.
      or_err invalid_signers (sole_signer (t.signers tx)) >>= λ address.
      permitted address (have_push_permission c id address) >>= λ allowed.
      (if t.verify tx then ok address else err bad_signature)

  unfoldable pub check_credentials : Server Tx → Request → Result Refusal Bytes
  unfolding decode_basic auth_func
  check_credentials s r =
      if is_empty r.authorization
      then err asks_credentials
      else let token = (decode_basic (some r.authorization)).1 in
        if is_empty token
        then err unauthorized
        else or_unauthorized (auth_func s.tokens s.chain token r.path)

  -- The address of a push; it stays empty where no credentials are asked for.
  unfoldable pub authorise : Server Tx → Request → Result Refusal Bytes
  unfolding check_credentials has_suffix bytes_eq
  authorise s r =
      if s.auth && (bytes_eq r.method (codes "POST") && has_suffix receive_pack r.request_uri)
      then check_credentials s r
      else ok []

  unfoldable pub serve_repository : Server Tx → Service → Bytes → Bytes → Bytes → Answer
  unfolding join
  serve_repository s svc namespace name address =
      let repo_path = join (s.dir ∷ namespace ∷ name ∷ []) in
      let repo_name = join (namespace ∷ name ∷ []) in
      if s.repo_exists repo_path || (s.auto_create && s.init_works repo_name)
      then serve_git svc.handler svc.rpc
          (record { repo_name = repo_name; repo_path = repo_path; address = address })
      else not_found

  unfoldable pub serve_service : Server Tx → Request → Service → Bytes × Bytes → Answer
  unfolding authorise serve_repository
  serve_service s r svc (namespace, name) =
      if is_empty name
      then bad_request
      else either (authorise s r >>= λ address. ok (serve_repository s svc namespace name address))

  unfoldable pub serve_http : Server Tx → Request → Answer
  unfolding find_service find_lfs_service get_namespace_and_repo serve_service
  serve_http s r = elim (find_service services r) [
    | none ↦ find_lfs_service lfs_services r
    | some (svc, path) ↦ serve_service s r svc (get_namespace_and_repo path)
  ]
