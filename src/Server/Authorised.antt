-- ===== src/Server/Authorised.antt =====
-- Who reaches git-receive-pack.
use gitopia_storage.Prelude.{
  ◌≡◌, refl, arith, sym, subst, inl, inr, true, false, ◌&&◌, ◌||◌, some, List, [], ◌∷◌, ok,
  Option-cases,
}
use gitopia_storage.Text.{Bytes, codes, bytes_eq, has_suffix}
use gitopia_storage.Text.Equality.{bytes_eq_iff, bytes_eq_refl}
use gitopia_storage.Events.Paths.{join}
use gitopia_storage.Auth.{decode_basic}
use gitopia_storage.Auth.Validate.{Accepted}
use gitopia_storage.Server.{
  GitRequest, Handler, Request, Server, Service, auth_func, authorise, check_credentials,
  find_service, find_lfs_service, get_namespace_and_repo, is_empty, lfs_services, lfs_matches,
  LfsService, receive_pack, serve_git, serve_http, serve_repository, serve_service, services,
  unauthorized, asks_credentials,
}
use gitopia_storage.Server.Routes.{
  has_suffix-tail, auth_func-Accepted, find_service-Passed, IsPush, services-IsPush, unless-ok,
  or_unauthorized-ok, run-git, lfs-git, asked, not_asked,
}

module _ {Tx : Type 0} (s : Server Tx) (r : Request) where
  abbrev pub token : Bytes
  token = (decode_basic (some r.authorization)).1

  check_credentials-ok :
      {address : Bytes}
      → check_credentials s r ≡ ok address
      → auth_func s.tokens s.chain token r.path ≡ ok address
  unfolding check_credentials
  check_credentials-ok h = or_unauthorized-ok (auth_func s.tokens s.chain token r.path) (
      unless-ok (is_empty token) unauthorized _
        (unless-ok (is_empty r.authorization) asks_credentials _ h))

  serve_service-git :
      (svc : Service) (names : Bytes × Bytes) {h : Handler} {rpc : Bytes} {g : GitRequest}
      → serve_service s r svc names ≡ serve_git h rpc g
      → (svc.rpc ≡ rpc) × (authorise s r ≡ ok g.address)
  unfolding serve_service serve_repository
  serve_service-git svc (namespace, name) h =
      run-git svc (is_empty name)
        (s.repo_exists (join (s.dir ∷ namespace ∷ name ∷ []))
          || (s.auto_create && s.init_works (join (namespace ∷ name ∷ []))))
        (join (namespace ∷ name ∷ [])) (join (s.dir ∷ namespace ∷ name ∷ [])) (authorise s r) h

  find_lfs_service-git :
      (svcs : List LfsService) {h : Handler} {rpc : Bytes} {g : GitRequest}
      → ¬ (find_lfs_service svcs r ≡ serve_git h rpc g)
  unfolding find_lfs_service
  find_lfs_service-git [] h = ground (arith, h)
  find_lfs_service-git (svc ∷ svcs) {h} {rpc} {g} e =
      find_lfs_service-git svcs {h = h} {rpc = rpc} {g = g}
        (lfs-git (lfs_matches svc r) svc (find_lfs_service svcs r) e)

  -- A push reaches git-receive-pack through its service.
  serve_http-push :
      {h : Handler} {g : GitRequest}
      → serve_http s r ≡ serve_git h receive_pack g
      → (bytes_eq (codes "POST") r.method ≡ true)
        × (has_suffix (b'/' ∷ receive_pack) r.path ≡ true)
        × (authorise s r ≡ ok g.address)
  unfolding serve_http
  serve_http-push {h = h'} {g} h = elim (Option-cases (find_service services r)) [
    | inl e ↦
        absurd (find_lfs_service-git lfs_services {h = h'} {rpc = receive_pack} {g = g} (rw e at h))
    | inr ((svc, path), e) ↦
        let found = find_service-Passed IsPush services r services-IsPush e in
        let run : serve_service s r svc (get_namespace_and_repo path)
            ≡ serve_git h' receive_pack g =
          rw e at h in
        let (same, allowed) = serve_service-git svc (get_namespace_and_repo path) run in
        let (post, suffix) = found.0 same in
        (
          subst (λ z. bytes_eq z r.method ≡ true) post found.1,
          subst (λ z. has_suffix z r.path ≡ true) suffix found.2,
          allowed,
        )
  ]

  -- Where the server asks for authorisation and a request's URI is its path, a request that
  -- reaches git-receive-pack has a token that is a verified transaction of one message signed by
  -- the address of the push alone, and this address has push permission for the repository of the path.
  pub serve_http-Authorised :
      {h : Handler} {g : GitRequest}
      → s.auth ≡ true
      → r.request_uri ≡ r.path
      → serve_http s r ≡ serve_git h receive_pack g
      → Accepted s.tokens s.chain r.path token g.address
  unfolding authorise
  serve_http-Authorised {g} on same h =
      let (post, suffix, allowed) = serve_http-push h in
      let posts : bytes_eq r.method (codes "POST") ≡ true =
        subst (λ z. bytes_eq z (codes "POST") ≡ true)
          ((bytes_eq_iff (codes "POST") r.method).0 post) (bytes_eq_refl (codes "POST")) in
      let ends : has_suffix receive_pack r.request_uri ≡ true =
        subst (λ z. has_suffix receive_pack z ≡ true) (sym same)
          (has_suffix-tail b'/' receive_pack r.path suffix) in
      auth_func-Accepted s.tokens s.chain token r.path
        (check_credentials-ok (asked s.auth _ _ _ _ on posts ends allowed))

  pub authorise-nothing : has_suffix receive_pack r.request_uri ≡ false → authorise s r ≡ ok []
  unfolding authorise
  authorise-nothing uri =
      not_asked s.auth (bytes_eq r.method (codes "POST")) (has_suffix receive_pack r.request_uri) _
        _ uri

  pub serve_service-nothing :
      (svc : Service) (namespace last : Bytes)
      → authorise s r ≡ ok []
      → is_empty last ≡ false
      → s.repo_exists (join (s.dir ∷ namespace ∷ last ∷ [])) ≡ true
      → serve_service s r svc (namespace, last)
        ≡ serve_git svc.handler svc.rpc (record {
          repo_name = join (namespace ∷ last ∷ []);
          repo_path = join (s.dir ∷ namespace ∷ last ∷ []);
          address = [];
        })
  unfolding serve_service serve_repository
  serve_service-nothing svc namespace last a name exists = rw (a, name, exists) refl
