-- ===== src/Auth/Credentials.antt =====
-- A user name and a password survive DecodeBasic of utils/auth.go. `encode` is the encoding of RFC
-- 4648 that clients use, the independent description that the decoder is compared with.
use mathlib.Core.List.{append_assoc, append-nil}
use gitopia_storage.Prelude.{
  ℕ, ◌+◌, ◌-◌, ◌*◌, ◌/◌, ◌%◌, ◌≤◌, ◌<◌, ◌≡◌, refl, arith, ap, ◌∙◌, false, some, [], ◌∷◌, ◌++◌, ltb,
  ◌==◌, if◌then◌else◌, All, All-append, ◌≢◌,
}
use gitopia_storage.Text.{Bytes, codes, cut_at}
use gitopia_storage.Auth.Base64.{char_value, skip_breaks, decode_quads, decode_string}
use gitopia_storage.Auth.{
  fields, fields_from, unless_empty, credentials, two_credentials, is_space, decode_basic,
}

-- The character of a value below 64.
unfoldable pub char : ℕ → ℕ
char v =
    if ltb v 26
    then v + 65
    else if ltb v 52
    then v + 71
    else if ltb v 62
    then v - 4
    else if v == 62
    then 43
    else 47

unfoldable pub encode : Bytes → Bytes
unfolding char
encode [] = []
encode (x ∷ []) = char (x / 4) ∷ char (x % 4 * 16) ∷ b'=' ∷ b'=' ∷ []
encode (x ∷ y ∷ []) = char (x / 4) ∷ char (x % 4 * 16 + y / 16) ∷ char (y % 16 * 4) ∷ b'=' ∷ []
encode (x ∷ y ∷ z ∷ s) =
    char (x / 4)
    ∷ char (x % 4 * 16 + y / 16)
    ∷ char (y % 16 * 4 + z / 64)
    ∷ char (z % 64)
    ∷ encode s

char_value-char : (v : ℕ) → v < 64 → char_value (char v) ≡ some v
unfolding char_value char
char_value-char v h = ground (arith, h)

char-plain : (v : ℕ) → v < 64 → (43 ≤ char v) × ((char v == b'=') ≡ false)
unfolding char
char-plain v h = ground (arith, h)

char-not-space : (v : ℕ) → v < 64 → is_space (char v) ≡ false
unfolding char is_space
char-not-space v h = ground (arith, h)

-- A byte of the encoding, which no step before the decoding changes.
Plain : ℕ → Type 0
Plain c = 43 ≤ c

skip_breaks-Plain : (s : Bytes) → All Plain s → skip_breaks s ≡ s
unfolding skip_breaks Plain
skip_breaks-Plain [] h = refl
skip_breaks-Plain (c ∷ s) (h, k) = ground (arith, h, skip_breaks-Plain s k)

encode-Plain : (s : Bytes) → All (λ c. c < 256) s → All Plain (encode s)
unfolding encode Plain
encode-Plain [] h = tt
encode-Plain (x ∷ []) (h, e) = (
  (char-plain (x / 4) (omega arith)).0,
  ((char-plain (x % 4 * 16) (omega arith)).0, (omega arith, (omega arith, tt))),
)
encode-Plain (x ∷ y ∷ []) (h, (k, e)) = (
  (char-plain (x / 4) (omega arith)).0,
  (
    (char-plain (x % 4 * 16 + y / 16) (omega arith)).0,
    ((char-plain (y % 16 * 4) (omega arith)).0, (omega arith, tt)),
  ),
)
encode-Plain (x ∷ y ∷ z ∷ s) (h, (k, (l, e))) = (
  (char-plain (x / 4) (omega arith)).0,
  (
    (char-plain (x % 4 * 16 + y / 16) (omega arith)).0,
    (
      (char-plain (y % 16 * 4 + z / 64) (omega arith)).0,
      ((char-plain (z % 64) (omega arith)).0, encode-Plain s e),
    ),
  ),
)

decode_quads-three :
    (x y z : ℕ) (s t : Bytes)
    → x < 256
    → y < 256
    → z < 256
    → decode_quads t ≡ some s
    → decode_quads
        (char (x / 4) ∷ char (x % 4 * 16 + y / 16) ∷ char (y % 16 * 4 + z / 64) ∷ char (z % 64) ∷ t)
      ≡ some (x ∷ y ∷ z ∷ s)
unfolding decode_quads
decode_quads-three x y z s t hx hy hz e =
    rw
      (
        (char-plain (z % 64) (omega arith)).1,
        e,
        char_value-char (x / 4) (omega arith),
        char_value-char (x % 4 * 16 + y / 16) (omega arith),
        char_value-char (y % 16 * 4 + z / 64) (omega arith),
        char_value-char (z % 64) (omega arith),
      )
      ground arith

decode_quads-encode : (s : Bytes) → All (λ c. c < 256) s → decode_quads (encode s) ≡ some s
unfolding decode_quads encode
decode_quads-encode [] h = refl
decode_quads-encode (x ∷ []) (h, e) =
    rw (char_value-char (x / 4) (omega arith), char_value-char (x % 4 * 16) (omega arith)) ground
      (arith, h)
decode_quads-encode (x ∷ y ∷ []) (h, (k, e)) =
    rw
      (
        (char-plain (y % 16 * 4) (omega arith)).1,
        char_value-char (x / 4) (omega arith),
        char_value-char (x % 4 * 16 + y / 16) (omega arith),
        char_value-char (y % 16 * 4) (omega arith),
      )
      ground (arith, h, k)
decode_quads-encode (x ∷ y ∷ z ∷ s) (h, (k, (l, m))) =
    decode_quads-three x y z s (encode s) h k l (decode_quads-encode s m)

decode_string-encode : (s : Bytes) → All (λ c. c < 256) s → decode_string (encode s) ≡ some s
unfolding decode_string
decode_string-encode s h =
    rw (skip_breaks-Plain (encode s) (encode-Plain s h)) (decode_quads-encode s h)

fields_from-Plain :
    (field s : Bytes) → All Plain s → fields_from field s ≡ unless_empty (field ++ s) []
unfolding fields_from Plain is_space
fields_from-Plain field [] h = rw (append-nil field) refl
fields_from-Plain field (c ∷ s) (h, k) =
    let plain : is_space c ≡ false = ground (arith, h) in
    rw (plain, fields_from-Plain (field ++ (c ∷ [])) s k, append_assoc field (c ∷ []) s) refl

fields-token :
    (c : ℕ) (s : Bytes)
    → All Plain (c ∷ s)
    → fields (codes "Basic " ++ (c ∷ s)) ≡ codes "Basic" ∷ (c ∷ s) ∷ []
unfolding fields
fields-token c s h = ap (◌∷◌ (codes "Basic")) (fields_from-Plain [] (c ∷ s) h)

cut_at-append :
    (user password : Bytes)
    → All (λ c. c ≢ b':') user
    → cut_at b':' (user ++ (b':' ∷ password)) ≡ some (user, password)
unfolding cut_at
cut_at-append [] password h = refl
cut_at-append (c ∷ user) password (h, k) = rw (cut_at-append user password k) ground (arith, h)

decode_basic-token :
    (token : Bytes)
    → All Plain token
    → token ≢ []
    → decode_basic (some (codes "Basic " ++ token)) ≡ credentials (decode_string token)
unfolding decode_basic
decode_basic-token [] h k = absurd (k refl)
decode_basic-token (c ∷ token) h k = rw (fields-token c token h) refl

encode-nonempty : (s : Bytes) → s ≢ [] → encode s ≢ []
unfolding encode
encode-nonempty [] h e = h refl
encode-nonempty (x ∷ []) h e = ground (arith, e)
encode-nonempty (x ∷ y ∷ []) h e = ground (arith, e)
encode-nonempty (x ∷ y ∷ z ∷ s) h e = ground (arith, e)

append-nonempty : (s : Bytes) (c : ℕ) (t : Bytes) → s ++ (c ∷ t) ≢ []
append-nonempty [] c t e = ground (arith, e)
append-nonempty (x ∷ s) c t e = ground (arith, e)

-- DecodeBasic gives back the user name and the password, all bytes, of the header that a client
-- sends for them, where the user name has no colon.
pub decode_basic-encode :
    (user password : Bytes)
    → All (λ c. c ≢ b':') user
    → All (λ c. c < 256) user
    → All (λ c. c < 256) password
    → decode_basic (some (codes "Basic " ++ encode (user ++ (b':' ∷ password)))) ≡ (user, password)
decode_basic-encode user password h k l =
    let sent : Bytes = user ++ (b':' ∷ password) in
    let small : All (λ c. c < 256) sent =
      All-append (λ c. c < 256) user (b':' ∷ password) k (omega arith, l) in
    decode_basic-token (encode sent) (encode-Plain sent small)
      (encode-nonempty sent (append-nonempty user b':' password))
    ∙ ap credentials (decode_string-encode sent small)
    ∙ ap (two_credentials sent) (cut_at-append user password h)
