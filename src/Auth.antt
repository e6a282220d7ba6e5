-- ===== src/Auth.antt =====
-- utils/auth.go: what the server reads from a request's header and path, and who may push. The
-- decoder and the verifier of the signed transaction and the chain's answers are arguments.
-- Texts are lists of bytes; the header is the value of `Authorization` and whether there is any
-- header at all. `Permission` says who may push, `Validate` whom a signed token authorises, and
-- `Credentials` what comes back of a user name and a password.
pub mod Base64
pub mod Permission
pub mod MayPush
pub mod Validate
pub mod Credentials
mod Tests
use gitopia_storage.Prelude.{
  ℕ, zero, suc, ◌+◌, ◌-◌, Bool, true, false, not, ◌&&◌, ◌||◌, Option, none, some, List, [], ◌∷◌,
  ◌++◌, Result, ok, err, or_err, ◌>>=◌, length, leb, ltb, ◌==◌, if◌then◌else◌, ◌≡◌, refl,
}
use gitopia_storage.Text.{
  Bytes, codes, bytes_eq, split, cut_prefix, cut_at, trim_suffix, parse_uint,
}
use gitopia_storage.Auth.Base64.{decode_string}

abbrev keep_byte : ℕ → List Bytes → List Bytes
keep_byte c [] = (c ∷ []) ∷ []
keep_byte c (part ∷ parts) = (c ∷ part) ∷ parts

-- `strings.Split` with a separator of several bytes: the bytes still to skip of one that was found.
split_skipping : Bytes → ℕ → Bytes → List Bytes
unfolding cut_prefix
split_skipping sep skip [] = [] ∷ []
split_skipping sep (suc skip) (c ∷ s) = split_skipping sep skip s
split_skipping sep zero (c ∷ s) = elim (cut_prefix sep (c ∷ s)) [
  | some rest ↦ [] ∷ split_skipping sep (length sep - 1) s
  | none ↦ keep_byte c (split_skipping sep 0 s)
]

unfoldable pub split_on : Bytes → Bytes → List Bytes
unfolding split_skipping
split_on sep s = split_skipping sep 0 s

-- `splitToken[1]` where there are two parts.
abbrev second_of_two : List Bytes → Bytes
second_of_two (a ∷ b ∷ []) = b
second_of_two _ = []

unfoldable pub decode_bearer : Bytes → Bytes
unfolding split_on
decode_bearer authorization = second_of_two (split_on (codes "Bearer ") authorization)

unfoldable pub is_space : ℕ → Bool
is_space c = c == 32 || (leb 9 c && leb c 13)

abbrev pub unless_empty : Bytes → List Bytes → List Bytes
unless_empty [] fields = fields
unless_empty (c ∷ field) fields = (c ∷ field) ∷ fields

-- `strings.Fields` of an ASCII text, with the field that is being read.
unfoldable pub fields_from : Bytes → Bytes → List Bytes
unfolding is_space
fields_from field [] = unless_empty field []
fields_from field (c ∷ s) =
    if is_space c then unless_empty field (fields_from [] s) else fields_from (field ++ c ∷ []) s

unfoldable pub fields : Bytes → List Bytes
unfolding fields_from
fields s = fields_from [] s

-- `strings.SplitN(p, ":", 2)`, as the two credentials.
abbrev pub two_credentials : Bytes → Option (Bytes × Bytes) → Bytes × Bytes
two_credentials p none = (p, [])
two_credentials p (some creds) = creds

abbrev pub credentials : Option Bytes → Bytes × Bytes
credentials none = ([], [])
credentials (some p) = two_credentials p (cut_at b':' p)

unfoldable basic_fields : List Bytes → Bytes × Bytes
unfolding bytes_eq decode_string cut_at
basic_fields (scheme ∷ token ∷ []) =
    if bytes_eq scheme (codes "Basic") then credentials (decode_string token) else ([], [])
basic_fields _ = ([], [])

-- User name and password; `none` is a header without entries.
unfoldable pub decode_basic : Option Bytes → Bytes × Bytes
unfolding fields basic_fields
decode_basic none = ([], [])
decode_basic (some authorization) = basic_fields (fields authorization)

pub data AuthError : Type 0 where
  index_panics : AuthError
  bad_repository_id : AuthError
  error_decoding : AuthError
  bad_signature : AuthError
  invalid_signers : AuthError
  permission_check : AuthError
  no_push_permission : AuthError

-- `s[1]` of the parts of the path, and the number it is.
unfoldable pub id_of_parts : List Bytes → Result AuthError ℕ
unfolding trim_suffix parse_uint
id_of_parts (first ∷ part ∷ parts) =
    or_err bad_repository_id (parse_uint (trim_suffix (codes ".git") part))
id_of_parts _ = err index_panics

unfoldable pub parse_repository_id_from_uri : Bytes → Result AuthError ℕ
unfolding split id_of_parts
parse_repository_id_from_uri uri = id_of_parts (split b'/' uri)

decode_basic_test :
    decode_basic (some (codes "Basic  YWxhZGRpbjphOmI=")) ≡ (codes "aladdin", codes "a:b")
unfolding decode_basic
decode_basic_test = refl

parse_repository_id_test : parse_repository_id_from_uri (codes "/12.git/info") ≡ ok 12
unfolding parse_repository_id_from_uri bytes_eq
parse_repository_id_test = refl

decode_bearer_test : decode_bearer (codes "Bearer abc") ≡ codes "abc"
unfolding decode_bearer
decode_bearer_test = refl
