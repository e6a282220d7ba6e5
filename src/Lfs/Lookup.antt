-- ===== src/Lfs/Lookup.antt =====
-- The download branch of ServeBatchHandler collects the sizes of the objects in a map first; the
-- result is that of asking the storage for each object.
use gitopia_storage.Prelude.{
  ℕ, ◌≡◌, refl, ◌⊎◌, Option, none, some, List, [], ◌∷◌, Result, ok, err, ◌++◌, ◌≢◌, none, refl,
}
use gitopia_storage.Text.{Bytes, codes}
use gitopia_storage.Lfs.{StorageError, nil_info_panics}
use gitopia_storage.Lfs.Http.{BatchActions, BatchObject}
use gitopia_storage.Lfs.Batch.{ObjectRequest, size_or_zero, stored_size, download_actions, answer}

abbrev with_size :
    Bytes → ObjectRequest → Option ℕ → Option (List BatchObject) → Option (List BatchObject)
with_size base o (some n) (some objects) = some (answer o (download_actions base o n) ∷ objects)
with_size base o _ _ = none

-- One question to the storage for each object, and no map; `none` where a question panics.
abbrev pub direct_answers :
    (Bytes → Result StorageError ℕ) → Bytes → List ObjectRequest → Option (List BatchObject)
direct_answers size base [] = some []
direct_answers size base (o ∷ os) =
    with_size base o (size_or_zero (size o.oid)) (direct_answers size base os)

module _ (size : Bytes → Result StorageError ℕ) where
  -- The map holds nothing but sizes of the storage.
  Sound : List (Bytes × ℕ) → Type 0
  Sound stored =
      (oid : Bytes) (n : ℕ)
      → size_or_zero (size oid) ≡ some n
      → (stored_size stored oid ≡ 0) ⊎ (stored_size stored oid ≡ n)

-- What the storage's answer for an object makes of its actions: a download of an object that has the
-- requested size, an error 422 for another size, and 404 for none. An error of Size other than a
-- missing file is a panic.
abbrev pub Sized : Bytes → ObjectRequest → ℕ → BatchActions → Type 0
Sized base o n actions =
    ((n ≡ 0)
      × (actions.download ≡ none)
      × (actions.error ≡ some (record { code = 404; message = "Object does not exist" })))
    ⊎ ((n ≢ 0)
        × (n ≡ o.size)
        × (actions.download ≡ some (record { href = base ++ (codes "/" ++ o.oid); header = [] }))
        × (actions.error ≡ none))
    ⊎ ((n ≢ 0)
        × (n ≢ o.size)
        × (actions.download ≡ none)
        × (actions.error ≡ some (record { code = 422; message = "Object size mismatch" })))

abbrev pub AnsweredAs : Bytes → ObjectRequest → Result StorageError ℕ → BatchObject → Type 0
AnsweredAs base o (err nil_info_panics) b = ⊥
AnsweredAs base o (err e) b = (b.oid ≡ o.oid) × (b.size ≡ o.size) × Sized base o 0 b.actions
AnsweredAs base o (ok n) b = (b.oid ≡ o.oid) × (b.size ≡ o.size) × Sized base o n b.actions

-- One answer for each object, in order.
abbrev pub Answers :
    (Bytes → Result StorageError ℕ) → Bytes → List ObjectRequest → List BatchObject → Type 0
Answers size base [] [] = Unit
Answers size base (o ∷ os) (b ∷ bs) = AnsweredAs base o (size o.oid) b × Answers size base os bs
Answers size base _ _ = ⊥

abbrev pub Panics : (Bytes → Result StorageError ℕ) → List ObjectRequest → Type 0
Panics size [] = ⊥
Panics size (o ∷ os) = (size o.oid ≡ err nil_info_panics) ⊎ Panics size os
