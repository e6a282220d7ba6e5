-- ===== src/Lfs/Refusals.antt =====
-- The early answers of the upload handler of route/lfs/basic.go are not the answer 200.
use gitopia_storage.Prelude.{
  ℕ, ◌≡◌, ◌≢◌, refl, arith, Bool, true, false, Option, none, some, [], ◌∷◌, Result, ok, err, ◌>>=◌,
  or_err, ltb, length, get_elem?, ◌==◌, if◌then◌else◌,
}
use gitopia_storage.Text.{Bytes, split}
use gitopia_storage.Auth.{
  AuthError, index_panics, bad_repository_id, error_decoding, bad_signature, invalid_signers,
  permission_check, no_push_permission, decode_basic, parse_repository_id_from_uri,
}
use gitopia_storage.Cost.{Params, Coin}
use gitopia_storage.Lfs.{
  Disk, Faults, LocalStorage, StorageError, invalid_oid, object_not_exist, create_directories,
  create_file, open_file, copy_file, nil_info_panics,
}
use gitopia_storage.Lfs.Http.{Reply, empty_body, response, status_ok, internal_server_error}
use gitopia_storage.Lfs.Basic.{
  parse_path, authenticate, with_address, oid_of_path, bad_oid, repository_reply,
}
use gitopia_storage.Lfs.Upload.{
  Services, Effects, Put, admit, charge_for, check_balance, check_charge, finish, serve_upload,
  upload_error,
}

abbrev pub done : Reply
done = response status_ok empty_body

pub internal_not_done : internal_server_error ≢ done
internal_not_done e = ground (arith, e)

-- An early answer is not the answer of a finished upload.
abbrev pub Refusal : {A : Type 0} → Result Reply A → Type 0
Refusal (err reply) = reply ≢ done
Refusal (ok a) = Unit

pub bind-Refusal :
    {A B : Type 0} (m : Result Reply A) (f : A → Result Reply B)
    → Refusal m
    → ((a : A) → Refusal (f a))
    → Refusal (m >>= f)
bind-Refusal (ok a) f h k = k a
bind-Refusal (err reply) f h k = h

pub or_err-Refusal : {A : Type 0} (e : Reply) (o : Option A) → e ≢ done → Refusal (or_err e o)
or_err-Refusal e none h = h
or_err-Refusal e (some a) h = tt

pub if-Refusal :
    {A : Type 0} (b : Bool) (m n : Result Reply A)
    → Refusal m
    → Refusal n
    → Refusal (if b then m else n)
if-Refusal true m n h k = h
if-Refusal false m n h k = k

pub check_balance-Refusal : (o : Option ℕ) (charge : Coin) → Refusal (check_balance o charge)
unfolding check_balance
check_balance-Refusal none charge = internal_not_done
check_balance-Refusal (some amount) charge =
    if-Refusal (ltb amount charge.amount) _ (ok tt) (λ e. ground (arith, e)) tt

pub check_charge-Refusal :
    (v : Services) (p : Params) (used : ℕ) (owner : Bytes) (length : Option ℕ)
    → Refusal (check_charge v p used owner length)
unfolding check_charge
check_charge-Refusal v p used owner length =
    let charge = charge_for v p used length in
    if-Refusal (p.storage_price_per_gb.amount == 0) _ _ tt (
      if-Refusal (charge.amount == 0) _ _ tt
        (check_balance-Refusal (v.balance owner charge.denom) charge))

pub repository-Refusal : (r : Result AuthError ℕ) → Refusal (repository_reply r)
repository-Refusal (ok id) = tt
repository-Refusal (err index_panics) = λ e. ground (arith, e)
repository-Refusal (err bad_repository_id) = λ e. ground (arith, e)
repository-Refusal (err error_decoding) = λ e. ground (arith, e)
repository-Refusal (err bad_signature) = λ e. ground (arith, e)
repository-Refusal (err invalid_signers) = λ e. ground (arith, e)
repository-Refusal (err permission_check) = λ e. ground (arith, e)
repository-Refusal (err no_push_permission) = λ e. ground (arith, e)

pub components-Refusal : (path : Bytes) → Refusal (oid_of_path path)
unfolding oid_of_path
components-Refusal path =
    if-Refusal (length (split b'/' path) == 7) _ _
      (or_err-Refusal bad_oid (get_elem? (split b'/' path) 6) (λ e. ground (arith, e)))
      λ e. ground (arith, e)

pub path-Refusal : (path : Bytes) → Refusal (parse_path path)
unfolding parse_path
path-Refusal path =
    bind-Refusal (repository_reply (parse_repository_id_from_uri path)) _
      (repository-Refusal (parse_repository_id_from_uri path))
      λ id. bind-Refusal (oid_of_path path) _ (components-Refusal path) λ oid. tt

pub admit-Refusal : (v : Services) (id : ℕ) (length : Option ℕ) → Refusal (admit v id length)
unfolding admit
admit-Refusal v id length =
    bind-Refusal (or_err internal_server_error (v.owner_of id)) _
      (or_err-Refusal _ _ internal_not_done)
      λ owner.
        bind-Refusal (or_err internal_server_error (v.storage_used owner)) _
          (or_err-Refusal _ _ internal_not_done)
          λ used.
            bind-Refusal (or_err internal_server_error v.storage_params) _
              (or_err-Refusal _ _ internal_not_done) λ p. check_charge-Refusal v p used owner length

pub serve_upload-Refusal :
    (v : Services) (s : LocalStorage) (f : Faults) (r : Put) (d : Disk) (user : Bytes)
    → Refusal (serve_upload v s f r d user)
unfolding serve_upload
serve_upload-Refusal v s f r d user =
    bind-Refusal (parse_path r.path) _ (path-Refusal r.path) λ (id, oid).
      bind-Refusal (admit v id r.content_length) _ (admit-Refusal v id r.content_length) λ _. tt

pub upload_error-not_done : (e : StorageError) → upload_error e ≢ done
upload_error-not_done invalid_oid = λ h. ground (arith, h)
upload_error-not_done object_not_exist = internal_not_done
upload_error-not_done create_directories = internal_not_done
upload_error-not_done create_file = internal_not_done
upload_error-not_done open_file = internal_not_done
upload_error-not_done copy_file = internal_not_done
upload_error-not_done nil_info_panics = internal_not_done

with_address-Refusal :
    {A : Type 0} (password : Bytes) (allow : Result AuthError Bytes)
    (handler : Bytes → Result Reply A)
    → ((address : Bytes) → Refusal (handler address))
    → Refusal (with_address password allow handler)
with_address-Refusal [] allow handler h = λ e. ground (arith, e)
with_address-Refusal (c ∷ password) (err e) handler h = λ k. ground (arith, k)
with_address-Refusal (c ∷ password) (ok address) handler h = h address

pub authenticate-Refusal :
    {A : Type 0} (validate : Bytes → Bytes → Result AuthError Bytes) (path : Bytes)
    (header : Option Bytes) (handler : Bytes → Result Reply A)
    → ((address : Bytes) → Refusal (handler address))
    → Refusal (authenticate validate path header handler)
unfolding authenticate
authenticate-Refusal validate path header handler h =
    let password = (decode_basic header).1 in
    with_address-Refusal password (validate path password) handler h

pub finished :
    (d : Disk) (m : Result Reply (Reply × Effects))
    → Refusal m
    → (finish d m).0 ≡ done
    → (after : Reply × Effects) × (m ≡ ok after) × (after.0 ≡ done)
unfolding finish
finished d (ok after) h k = (after, refl, k)
finished d (err reply) h k = absurd (h k)
