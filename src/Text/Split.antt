-- ===== src/Text/Split.antt =====
-- strings.Split at a separator of one byte, of texts put together.
use gitopia_storage.Prelude.{
  ℕ, ◌≡◌, ◌≢◌, refl, arith, List, [], ◌∷◌, ◌++◌, All, Bool-cases, inl, inr, ◌==◌,
}
use gitopia_storage.Text.{Bytes, split}

module _ (sep : ℕ) where
  split-some : (s : Bytes) → (part : Bytes) × (parts : List Bytes) × (split sep s ≡ part ∷ parts)
  unfolding split
  split-some [] = ([], [], refl)
  split-some (c ∷ s) =
      let (part, parts, e) = split-some s in
      elim (Bool-cases (c == sep)) [
        | inl h ↦ ([], part ∷ parts, rw (e, h) refl)
        | inr h ↦ (c ∷ part, parts, rw (e, h) refl)
      ]

  pub split-append : (s t : Bytes) → split sep (s ++ (sep ∷ t)) ≡ split sep s ++ split sep t
  unfolding split
  split-append [] t = ground arith
  split-append (c ∷ s) t =
      let (part, parts, e) = split-some s in rw (split-append s t, e) ground arith

  -- a text without the separator is one part
  pub split_one : (s : Bytes) → All (λ c. c ≢ sep) s → split sep s ≡ s ∷ []
  unfolding split
  split_one [] h = refl
  split_one (c ∷ s) (h, k) = rw (split_one s k) ground (arith, h)
