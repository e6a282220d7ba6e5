-- ===== src/Server/Routes.antt =====
-- The tests on the way of a request to its handler.
use gitopia_storage.Prelude.{
  ◌≡◌, refl, arith, subst, ◌⊎◌, inl, inr, Bool, true, false, ◌&&◌, Option, some, List, [], ◌∷◌,
  Result, ok, err, or_err, ◌>>=◌, some-inj, ok-inj, bind-ok, or_err-ok, guard-ok, All, Bool-cases,
  if◌then◌else◌,
}
use gitopia_storage.Text.{Bytes, codes, bytes_eq, has_suffix}
use gitopia_storage.Auth.{
  AuthError, error_decoding, bad_signature, invalid_signers, parse_repository_id_from_uri,
}
use gitopia_storage.Auth.Permission.{Chain, have_push_permission}
use gitopia_storage.Auth.Validate.{
  Tokens, Accepted, sole_signer, sole_signer-some, permitted, permitted-ok,
}
use gitopia_storage.Server.{
  Answer, Refusal, GitRequest, Handler, Request, Service, auth_func, either, find_service,
  LfsService, or_unauthorized, receive_pack, serve_git, serve_lfs, bad_request, not_found, services,
}

pub or_here : (a b : Bool) → b ≡ true → (if a then true else b) ≡ true
or_here true b h = refl
or_here false b h = h

pub has_suffix_self : (t s : Bytes) → bytes_eq s t ≡ true → has_suffix t s ≡ true
unfolding has_suffix
has_suffix_self t [] h = h
has_suffix_self t (c ∷ s) h = rw (h) refl

pub has_suffix-tail : (c : _) (t s : Bytes) → has_suffix (c ∷ t) s ≡ true → has_suffix t s ≡ true
unfolding has_suffix bytes_eq
has_suffix-tail c t [] h = ground (arith, h)
has_suffix-tail c t (d ∷ s) h = elim (Bool-cases (bytes_eq (d ∷ s) (c ∷ t))) [
  | inl e ↦ or_here (bytes_eq (d ∷ s) t) (has_suffix t s) (has_suffix_self t s (ground (arith, e)))
  | inr e ↦ or_here (bytes_eq (d ∷ s) t) (has_suffix t s) (has_suffix-tail c t s (rw e at h))
]

pub auth_func-Accepted :
    {Tx : Type 0} (t : Tokens Tx) (c : Chain) (token path : Bytes) {address : Bytes}
    → auth_func t c token path ≡ ok address
    → Accepted t c path token address
unfolding auth_func
auth_func-Accepted t c token path h =
    let (id, e1, h1) = bind-ok (parse_repository_id_from_uri path) _ h in
    let (tx, e2, h2) = bind-ok (or_err error_decoding (t.decode_tx token)) _ h1 in
    let (a, e3, h3) = bind-ok (or_err invalid_signers (sole_signer (t.signers tx))) _ h2 in
    let (b, e4, h4) = bind-ok (permitted a (have_push_permission c id a)) _ h3 in
    let (e5, same) = permitted-ok a (have_push_permission c id a) e4 in
    let (e6, e7) = guard-ok (t.verify tx) a bad_signature h4 in
    (
      id,
      tx,
      e1,
      or_err-ok error_decoding (t.decode_tx token) e2,
      e6,
      subst (λ z. t.signers tx ≡ (z ∷ []) ∷ []) e7
          (sole_signer-some (t.signers tx)
            (or_err-ok invalid_signers (sole_signer (t.signers tx)) e3)),
      subst (λ z. have_push_permission c id z ≡ ok true) e7 e5,
    )

picked :
    {A : Type 0} (b : Bool) (x : A) (y : Option A) {z : A}
    → (if b then some x else y) ≡ some z
    → ((b ≡ true) × (x ≡ z)) ⊎ (y ≡ some z)
picked true x y h = inl (refl, some-inj h)
picked false x y h = inr h

and-true : (a b : Bool) → (a && b) ≡ true → (a ≡ true) × (b ≡ true)
and-true true b h = (refl, h)
and-true false b h = ground (arith, h)

-- What is found passed its tests.
pub find_service-Passed :
    (P : Service → Type 0) (svcs : List Service) (r : Request) {svc : Service} {path : Bytes}
    → All P svcs
    → find_service svcs r ≡ some (svc, path)
    → P svc × (bytes_eq svc.method r.method ≡ true) × (has_suffix svc.suffix r.path ≡ true)
unfolding find_service
find_service-Passed P [] r p h = ground (arith, h)
find_service-Passed P (first ∷ svcs) r (p, ps) h =
    elim (picked (bytes_eq first.method r.method && has_suffix first.suffix r.path) _ _ h) [
      | inl (test, e) ↦
          subst
            (λ (found : Service × Bytes).
              P found.0
              × (bytes_eq found.0.method r.method ≡ true)
              × (has_suffix found.0.suffix r.path ≡ true))
            e (p, (and-true _ _ test).0, (and-true _ _ test).1)
      | inr rest ↦ find_service-Passed P svcs r ps rest
    ]

abbrev pub IsPush : Service → Type 0
IsPush svc =
    svc.rpc ≡ receive_pack → (svc.method ≡ codes "POST") × (svc.suffix ≡ b'/' ∷ receive_pack)

pub services-IsPush : All IsPush services
services-IsPush = (λ e. ground (arith, e), (λ e. ground (arith, e), (λ e. (refl, refl), tt)))

pub unless-ok :
    {A : Type 0} (b : Bool) (e : Refusal) (m : Result Refusal A) {a : A}
    → (if b then err e else m) ≡ ok a
    → m ≡ ok a
unless-ok true e m h = ground (arith, h)
unless-ok false e m h = h

pub or_unauthorized-ok :
    (m : Result AuthError Bytes) {address : Bytes} → or_unauthorized m ≡ ok address → m ≡ ok address
or_unauthorized-ok (ok a) h = rw (ok-inj h) refl
or_unauthorized-ok (err e) h = ground (arith, h)

-- A service is run with the address that the authorisation gave.
pub run-git :
    (svc : Service) (b exists : Bool) (name path : Bytes) (m : Result Refusal Bytes) {h : Handler}
    {rpc : Bytes} {g : GitRequest}
    → (if b
        then bad_request
        else either (
            m >>= λ address. ok (
              if exists
              then serve_git svc.handler svc.rpc
                  (record { repo_name = name; repo_path = path; address = address })
              else not_found)))
      ≡ serve_git h rpc g
    → (svc.rpc ≡ rpc) × (m ≡ ok g.address)
run-git svc true exists name path m h = ground (arith, h)
run-git svc false exists name path (err e) h = ground (arith, h)
run-git svc false false name path (ok address) h = ground (arith, h)
run-git svc false true name path (ok address) h = ground (arith, h)

pub lfs-git :
    (b : Bool) (svc : LfsService) (rest : Answer) {h : Handler} {rpc : Bytes} {g : GitRequest}
    → (if b then serve_lfs svc else rest) ≡ serve_git h rpc g
    → rest ≡ serve_git h rpc g
lfs-git true svc rest e = ground (arith, e)
lfs-git false svc rest e = e

pub asked :
    {A : Type 0} (a b c : Bool) (x y : Result Refusal A) {z : A}
    → a ≡ true
    → b ≡ true
    → c ≡ true
    → (if a && (b && c) then x else y) ≡ ok z
    → x ≡ ok z
asked true true true x y h k l m = m
asked false b c x y h k l m = ground (arith, h)
asked true false c x y h k l m = ground (arith, k)
asked true true false x y h k l m = ground (arith, l)

pub not_asked :
    {A : Type 0} (a b c : Bool) (x y : A) → c ≡ false → (if a && (b && c) then x else y) ≡ y
not_asked true true c x y h = rw (h) refl
not_asked true false c x y h = refl
not_asked false b c x y h = refl
