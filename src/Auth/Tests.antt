-- ===== src/Auth/Tests.antt =====
-- Runs of utils/auth.go, and the properties at concrete inputs.
use gitopia_storage.Prelude.{◌≡◌, refl, arith, true, none, some, [], ◌∷◌, ◌++◌, ok, err, inl, inr}
use gitopia_storage.Text.{Bytes, codes, bytes_eq}
use gitopia_storage.Auth.{decode_basic, parse_repository_id_from_uri, index_panics}
use gitopia_storage.Auth.Permission.{Chain, Repository, dao_owner, have_push_permission}
use gitopia_storage.Auth.MayPush.{have_push_permission-MayPush}
use gitopia_storage.Auth.Validate.{Tokens, validate_basic_auth, validate_basic_auth-Accepted}
use gitopia_storage.Auth.Credentials.{encode, decode_basic-encode}

decode_basic-encode_example :
    decode_basic (some (codes "Basic " ++ encode (codes "al:{}"))) ≡ (codes "al", codes "{}")
decode_basic-encode_example =
    decode_basic-encode (codes "al") (codes "{}")
      (λ e. ground (arith, e), (λ e. ground (arith, e), tt)) (omega arith, (omega arith, tt))
      (omega arith, (omega arith, tt))

abbrev dao_repository : Repository
dao_repository = record { owner_type = dao_owner; owner_id = codes "dao"; collaborators = [] }

abbrev dao_chain : Chain
dao_chain = record {
  dials = true;
  repository = λ id. some dao_repository;
  dao_member_all = λ dao. some (codes "eve" ∷ codes "bob" ∷ []);
  collaborator_exists = λ collaborators address. none;
  push_branch = 2;
}

abbrev one_signer : Tokens Bytes
one_signer = record {
  decode_tx = λ s. some s;
  verify = λ tx. bytes_eq tx (codes "signed");
  signers = λ tx. (codes "bob" ∷ []) ∷ [];
}

have_push_permission_example : have_push_permission dao_chain 3 (codes "bob") ≡ ok true
have_push_permission_example =
    (have_push_permission-MayPush dao_chain 3 (codes "bob")).1
      (refl, (dao_repository, refl, inl (_, refl, inr (inl refl))))

validate_basic_auth_example :
    validate_basic_auth one_signer dao_chain (codes "/3.git/info") (codes "signed")
    ≡ ok (codes "bob")
unfolding parse_repository_id_from_uri bytes_eq
validate_basic_auth_example =
    (validate_basic_auth-Accepted one_signer dao_chain (codes "/3.git/info") (codes "signed")
        (codes "bob")).1
      (3, codes "signed", refl, refl, refl, refl, have_push_permission_example)

-- A path without a slash indexes behind the parts.
no_slash : parse_repository_id_from_uri (codes "3.git") ≡ err index_panics
unfolding parse_repository_id_from_uri bytes_eq
no_slash = refl
