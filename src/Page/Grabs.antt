-- ===== src/Page/Grabs.antt =====
-- utils/commits.go: what is shown of a commit's message.
use gitopia_storage.Prelude.{
  ℕ, ◌≡◌, ◌≢◌, ◌⊎◌, inl, inr, refl, ap, subst, arith, Option, none, some, [], ◌∷◌, ◌++◌, ◌==◌, All,
  Bool-cases, Option-cases,
}
use gitopia_storage.Text.{Bytes, cut_at, push_before}
use gitopia_storage.Page.Commits.{title_and_message}

abbrev pub NoNewline : Bytes → Type 0
NoNewline = All (λ c. c ≢ b'\n')

abbrev Cuts : Bytes → Option (Bytes × Bytes) → Type 0
Cuts s none = NoNewline s
Cuts s (some (before, after)) = (before ++ b'\n' ∷ after ≡ s) × NoNewline before

push_before-Cuts :
    (c : ℕ) (s : Bytes) (o : Option (Bytes × Bytes))
    → c ≢ b'\n'
    → Cuts s o
    → Cuts (c ∷ s) (push_before c o)
push_before-Cuts c s none d h = (d, h)
push_before-Cuts c s (some (before, after)) d h = (ap (λ r. c ∷ r) h.0, (d, h.1))

cut_at-Cuts : (s : Bytes) → Cuts s (cut_at b'\n' s)
unfolding cut_at
cut_at-Cuts [] = tt
cut_at-Cuts (c ∷ s) = elim (Bool-cases (c == b'\n')) [
  | inl e ↦ rw e (ap (λ d. d ∷ s) (ground arith), tt)
  | inr e ↦ rw e (push_before-Cuts c s (cut_at b'\n' s) (ground arith) (cut_at-Cuts s))
]

-- The title of a commit is its first line: it has no newline, and title, newline and message give
-- back the commit's message, unless that has no newline at all, where the title is all of it.
pub title_and_message_lem :
    (message : Bytes)
    → let (title, rest) = title_and_message message in
      NoNewline title × ((title ++ b'\n' ∷ rest ≡ message) ⊎ ((title ≡ message) × (rest ≡ [])))
unfolding title_and_message
title_and_message_lem message = elim (Option-cases (cut_at b'\n' message)) [
  | inl e ↦
      let h : Cuts message none = subst (Cuts message) e (cut_at-Cuts message) in
      rw (e, title_and_message) (h, inr (refl, refl))
  | inr (p, e) ↦
      let h : Cuts message (some p) = subst (Cuts message) e (cut_at-Cuts message) in
      rw (e, title_and_message) (h.1, inl h.0)
]
