-- ===== src/Text/Equality.antt =====
-- The comparison of byte strings decides their equality.
use gitopia_storage.Prelude.{◌≡◌, refl, subst, true, ◌↔◌, arith, [], ◌∷◌}
use gitopia_storage.Text.{Bytes, bytes_eq}

eq→path : (s t : Bytes) → bytes_eq s t ≡ true → s ≡ t
unfolding bytes_eq
eq→path [] [] h = refl
eq→path [] (y ∷ ys) h = ground arith
eq→path (x ∷ xs) [] h = ground arith
eq→path (x ∷ xs) (y ∷ ys) h = ground (arith, eq→path xs ys)

pub bytes_eq_refl : (s : Bytes) → bytes_eq s s ≡ true
unfolding bytes_eq
bytes_eq_refl [] = refl
bytes_eq_refl (x ∷ xs) = ground (arith, bytes_eq_refl xs)

pub bytes_eq_iff : (s t : Bytes) → (bytes_eq s t ≡ true) ↔ (s ≡ t)
bytes_eq_iff s t = (eq→path s t, λ e. subst (λ z. bytes_eq s z ≡ true) e (bytes_eq_refl s))
