-- ===== src/App/Pages.antt =====
-- RepositoryReleaseAssetsByRepositoryIdAll of app/gitopia.go: all pages of the release assets of a
-- repository.
use mathlib.Core.List.{append_assoc, append-nil}
use gitopia_storage.Prelude.{
  ℕ, zero, suc, ◌+◌, ◌≡◌, refl, arith, ap, ◌∙◌, Option, none, some, List, [], ◌∷◌, ◌++◌, Result, ok,
  err, length,
}

-- A page: its assets and the key of the next one. An error is an answer too.
abbrev pub Page : Type 0 → Type 0 → Type 0 → Type 0
Page E K A = Result E (List A × Option K)

-- The loop. `none` is a loop that still runs; `query` takes no key for the first page.
unfoldable pub all_from :
    {E K A : Type 0} → ℕ → (Option K → Page E K A) → List A → Option K → Option (Result E (List A))
all_from zero query assets key = none
all_from (suc fuel) query assets key = elim (query key) [
  | err e ↦ some (err e)
  | ok (page, none) ↦ some (ok (assets ++ page))
  | ok (page, some next) ↦ all_from fuel query (assets ++ page) (some next)
]

unfoldable pub release_assets_all :
    {E K A : Type 0} → ℕ → (Option K → Page E K A) → Option (Result E (List A))
unfolding all_from
release_assets_all fuel query = all_from fuel query [] none

-- A server that answers with these pages, from this key on: each page but the last names the key of
-- the next one.
abbrev pub Serves :
    {E K A : Type 0} → (Option K → Page E K A) → Option K → List A → List (K × List A) → Type 0
Serves query key page [] = query key ≡ ok (page, none)
Serves query key page (next ∷ pages) =
    (query key ≡ ok (page, some next.0)) × Serves query (some next.0) next.1 pages

abbrev pub assets_of : {K A : Type 0} → List (K × List A) → List A
assets_of [] = []
assets_of (p ∷ pages) = p.1 ++ assets_of pages

next-page :
    {E K A : Type 0} (query : Option K → Page E K A) (fuel : ℕ) (assets : List A) (key : Option K)
    (page : List A) (next : K)
    → query key ≡ ok (page, some next)
    → all_from (suc fuel) query assets key ≡ all_from fuel query (assets ++ page) (some next)
unfolding all_from
next-page query fuel assets key page next h = rw (h, all_from) refl

suc-plus : (m n : ℕ) → suc m + n ≡ suc (m + n)
suc-plus m n = omega arith

all_from-Serves :
    {E K A : Type 0} (query : Option K → Page E K A) (fuel : ℕ) (assets : List A) (key : Option K)
    (page : List A) (pages : List (K × List A))
    → Serves query key page pages
    → all_from (suc (length pages + fuel)) query assets key
      ≡ some (ok (assets ++ (page ++ assets_of pages)))
unfolding all_from
all_from-Serves query fuel assets key page [] h = rw (h, all_from, append-nil page) refl
all_from-Serves query fuel assets key page (next ∷ pages) (h, k) =
    ap (λ f. all_from (suc f) query assets key) (suc-plus (length pages) fuel)
    ∙ next-page query (suc (length pages + fuel)) assets key page next.0 h
    ∙ all_from-Serves query fuel (assets ++ page) (some next.0) next.1 pages k
    ∙ ap (λ all. some (ok all)) (append_assoc assets page (next.1 ++ assets_of pages))

-- The loop ends with the assets of all pages in order, where the server's answers are the pages of a
-- finite sequence; it asks once for each page.
pub release_assets_all-Serves :
    {E K A : Type 0} (query : Option K → Page E K A) (fuel : ℕ) (page : List A)
    (pages : List (K × List A))
    → Serves query none page pages
    → release_assets_all (suc (length pages + fuel)) query ≡ some (ok (page ++ assets_of pages))
unfolding release_assets_all
release_assets_all-Serves query fuel page pages h = all_from-Serves query fuel [] none page pages h
