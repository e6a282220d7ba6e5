-- ===== src/Auth/Validate.antt =====
-- ValidateBasicAuth of utils/auth.go. The transaction decoder, the signature verifier and the
-- signers of a message are the chain's code.
use gitopia_storage.Prelude.{
  ℕ, Bool, true, false, Option, none, some, List, [], ◌∷◌, Result, ok, err, ◌>>=◌, or_err, bind-ok,
  or_err-ok, if◌then◌else◌, ◌≡◌, refl, ap, subst, arith, ◌↔◌,
}
use gitopia_storage.Text.{Bytes}
use gitopia_storage.Auth.{
  AuthError, error_decoding, bad_signature, invalid_signers, permission_check, no_push_permission,
  parse_repository_id_from_uri,
}
use gitopia_storage.Auth.Permission.{Chain, have_push_permission}

-- A transaction is seen through the signers of each of its messages.
pub record Tokens (Tx : Type 0) : Type 0 where
  pub decode_tx : Bytes → Option Tx
  pub verify : Tx → Bool
  pub signers : Tx → List (List Bytes)

-- The signer, where there is one message with one signer.
unfoldable pub sole_signer : List (List Bytes) → Option Bytes
sole_signer ((address ∷ []) ∷ []) = some address
sole_signer _ = none

unfoldable pub permitted : Bytes → Result AuthError Bool → Result AuthError Bytes
permitted address (err e) = err permission_check
permitted address (ok false) = err no_push_permission
permitted address (ok true) = ok address

-- The address that may push; an error is the answer false.
unfoldable pub validate_basic_auth :
    {Tx : Type 0} → Tokens Tx → Chain → Bytes → Bytes → Result AuthError Bytes
unfolding sole_signer permitted
validate_basic_auth t c path password = parse_repository_id_from_uri path >>= λ id.
    or_err error_decoding (t.decode_tx password) >>= λ tx.
    (if t.verify tx then ok tt else err bad_signature) >>= λ _.
    or_err invalid_signers (sole_signer (t.signers tx)) >>= λ address.
    permitted address (have_push_permission c id address)

pub sole_signer-some :
    (signers : List (List Bytes)) {address : Bytes}
    → sole_signer signers ≡ some address
    → signers ≡ (address ∷ []) ∷ []
unfolding sole_signer
sole_signer-some [] h = ground (arith, h)
sole_signer-some ([] ∷ []) h = ground (arith, h)
sole_signer-some ((a ∷ []) ∷ []) h = ap (λ o. elim o [ some x ↦ (x ∷ []) ∷ [] | none ↦ [] ]) h
sole_signer-some ((a ∷ b ∷ more) ∷ []) h = ground (arith, h)
sole_signer-some (first ∷ second ∷ rest) h = ground (arith, h)

pub permitted-ok :
    (address : Bytes) (r : Result AuthError Bool) {a : Bytes}
    → permitted address r ≡ ok a
    → (r ≡ ok true) × (address ≡ a)
unfolding permitted
permitted-ok address (err e) h = ground (arith, h)
permitted-ok address (ok false) h = ground (arith, h)
permitted-ok address (ok true) h = (refl, ap (λ r. elim r [ ok x ↦ x | err _ ↦ address ]) h)

verified : (b : Bool) {u : Unit} → (if b then ok tt else err bad_signature) ≡ ok u → b ≡ true
verified true h = refl
verified false h = ground (arith, h)

-- What an accepted request went through.
abbrev pub Accepted : {Tx : Type 0} → Tokens Tx → Chain → Bytes → Bytes → Bytes → Type 0
Accepted {Tx} t c path password address =
    (id : ℕ) × (tx : Tx) × (parse_repository_id_from_uri path ≡ ok id)
    × (t.decode_tx password ≡ some tx)
    × (t.verify tx ≡ true)
    × (t.signers tx ≡ (address ∷ []) ∷ [])
    × (have_push_permission c id address ≡ ok true)

-- ValidateBasicAuth accepts a request for an address exactly where the path names a repository, the
-- password decodes to a transaction whose signature verifies and that has one message signed by
-- that address alone, and the address has push permission for that repository.
pub validate_basic_auth-Accepted :
    {Tx : Type 0} (t : Tokens Tx) (c : Chain) (path password address : Bytes)
    → (validate_basic_auth t c path password ≡ ok address) ↔ Accepted t c path password address
unfolding validate_basic_auth sole_signer permitted
validate_basic_auth-Accepted t c path password address = (
  λ h.
      let (id, e1, h1) = bind-ok (parse_repository_id_from_uri path) _ h in
      let (tx, e2, h2) = bind-ok (or_err error_decoding (t.decode_tx password)) _ h1 in
      let (u, e3, h3) = bind-ok (if t.verify tx then ok tt else err bad_signature) _ h2 in
      let (a, e4, h4) = bind-ok (or_err invalid_signers (sole_signer (t.signers tx))) _ h3 in
      let (e5, same) = permitted-ok a (have_push_permission c id a) h4 in
      (
        id,
        tx,
        e1,
        or_err-ok error_decoding (t.decode_tx password) e2,
        verified (t.verify tx) e3,
        subst (λ z. t.signers tx ≡ (z ∷ []) ∷ []) same
            (sole_signer-some (t.signers tx)
              (or_err-ok invalid_signers (sole_signer (t.signers tx)) e4)),
        subst (λ z. have_push_permission c id z ≡ ok true) same e5,
      ),
  λ (id, tx, e1, e2, e3, e4, e5). rw (e1, e2, e3, e4, e5),
)
