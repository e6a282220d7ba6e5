-- ===== src/Lfs/Stored.antt =====
-- What an answer 200 to a PUT of an object means.
use gitopia_storage.Prelude.{
  ℕ, ◌≡◌, refl, arith, sym, ap, subst, ◌∙◌, true, Option, some, [], ◌∷◌, Result, ok, err, or_err,
  or_err-ok, bind-ok, ok-inj, length,
}
use gitopia_storage.Text.{Bytes}
use gitopia_storage.Auth.{AuthError, decode_basic}
use gitopia_storage.Lfs.{Disk, Faults, LocalStorage, StorageError, valid_oid, storage_path, upload}
use gitopia_storage.Lfs.Http.{Reply, internal_server_error}
use gitopia_storage.Lfs.Basic.{parse_path, authenticate, with_address}
use gitopia_storage.Lfs.Refusals.{
  done, upload_error-not_done, finished, authenticate-Refusal, serve_upload-Refusal,
}
use gitopia_storage.Lfs.Upload.{
  Services, Effects, Put, admit, finish, put_object, serve_upload, store,
}
use gitopia_storage.Lfs.Announced.{
  Admitted, check_charge-CanPay, upload-stored, Pinned, store-stored,
}

with_address-ok :
    {A : Type 0} (password : Bytes) (allow : Result AuthError Bytes)
    (handler : Bytes → Result Reply A) {after : A}
    → with_address password allow handler ≡ ok after
    → (address : Bytes) × (allow ≡ ok address) × (handler address ≡ ok after)
with_address-ok [] allow handler h = ground (arith, h)
with_address-ok (c ∷ password) (err e) handler h = ground (arith, h)
with_address-ok (c ∷ password) (ok address) handler h = (address, refl, h)

admit-Admitted :
    (v : Services) (id : ℕ) (length : Option ℕ) {u : Unit}
    → admit v id length ≡ ok u
    → Admitted v id length
unfolding admit
admit-Admitted v id length h =
    let (owner, e, h1) = bind-ok (or_err internal_server_error (v.owner_of id)) _ h in
    let (used, k, h2) = bind-ok (or_err internal_server_error (v.storage_used owner)) _ h1 in
    let (p, l, h3) = bind-ok (or_err internal_server_error v.storage_params) _ h2 in
    (
      owner,
      used,
      p,
      or_err-ok internal_server_error (v.owner_of id) e,
      or_err-ok internal_server_error (v.storage_used owner) k,
      or_err-ok internal_server_error v.storage_params l,
      check_charge-CanPay v p used owner length h3,
    )

-- The path names a repository and a valid id, the owner can pay for the announced length, and the
-- object's file holds the content, is pinned and announced.
abbrev pub StoredFor : Services → LocalStorage → Put → Bytes → Reply × Effects → Type 0
StoredFor v s r user after =
    (id : ℕ) × (oid : Bytes) × (parse_path r.path ≡ ok (id, oid))
    × (valid_oid oid ≡ true)
    × Admitted v id r.content_length
    × (after.1.disk (storage_path s oid) ≡ some r.content)
    × Pinned v user id oid (v.pin_file (storage_path s oid)) after.1

store-valid :
    (v : Services) (s : LocalStorage) (user : Bytes) (id : ℕ) (oid : Bytes)
    (r : Result StorageError ℕ) (d : Disk)
    → (store v s user id oid r d).0 ≡ done
    → (n : ℕ) × (r ≡ ok n)
unfolding store
store-valid v s user id oid (err e) d h = absurd (upload_error-not_done e h)
store-valid v s user id oid (ok n) d h = (n, refl)

serve_upload-Stored :
    (v : Services) (s : LocalStorage) (f : Faults) (r : Put) (d : Disk) (user : Bytes)
    (after : Reply × Effects)
    → serve_upload v s f r d user ≡ ok after
    → after.0 ≡ done
    → StoredFor v s r user after
unfolding serve_upload
serve_upload-Stored v s f r d user after h k =
    let ((id, oid), e1, h1) = bind-ok (parse_path r.path) _ h in
    let (u, e2, h2) = bind-ok (admit v id r.content_length) _ h1 in
    let uploaded = upload s f oid r.content d in
    let stored : Reply × Effects = store v s user id oid uploaded.0 uploaded.1 in
    let same : stored ≡ after = ok-inj h2 in
    let fine : stored.0 ≡ done = ap (λ a. a.0) same ∙ k in
    let (n, e3) = store-valid v s user id oid uploaded.0 uploaded.1 fine in
    let kept =
      store-stored v s user id oid r.content uploaded
        (λ n e. (upload-stored s f oid r.content d n e).1) fine in
    subst (StoredFor v s r user) same (
      id,
      oid,
      e1,
      (upload-stored s f oid r.content d n e3).0,
      admit-Admitted v id r.content_length e2,
      kept.0,
      kept.1,
    )

-- A PUT that is answered with 200 was validated for an address. Its path names a repository and a
-- valid id; the owner can pay for the announced length; the file of the object holds the content;
-- the file was pinned; and the chain knows the object or has confirmed the proposal of that
-- address for it.
pub put_object-Stored :
    (validate : Bytes → Bytes → Result AuthError Bytes) (v : Services) (s : LocalStorage)
    (f : Faults) (r : Put) (d : Disk)
    → (put_object validate v s f r d).0 ≡ done
    → (user : Bytes) × (validate r.path (decode_basic r.header).1 ≡ ok user)
      × StoredFor v s r user (put_object validate v s f r d)
unfolding put_object authenticate
put_object-Stored validate v s f r d h =
    let (after, e, k) =
      finished d (authenticate validate r.path r.header (serve_upload v s f r d))
        (authenticate-Refusal validate r.path r.header (serve_upload v s f r d)
          (serve_upload-Refusal v s f r d))
        h in
    let same : put_object validate v s f r d ≡ after = ap (finish d) e in
    let password = (decode_basic r.header).1 in
    let (user, e1, e2) =
      with_address-ok password (validate r.path password) (serve_upload v s f r d) e in
    (
      user,
      e1,
      subst (StoredFor v s r user) (sym same) (serve_upload-Stored v s f r d user after e2 k),
    )
