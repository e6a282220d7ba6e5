-- ===== src/Release/Changes.antt =====
-- What the updates of one event make of the assets that the chain knows.
use gitopia_storage.Prelude.{
  ◌≡◌, refl, arith, ap, subst, ◌∙◌, inl, inr, true, false, none, some, List, [], ◌∷◌, All,
  Bool-cases, Option-cases, if◌then◌else◌,
}
use gitopia_storage.Text.{Bytes, bytes_eq}
use gitopia_storage.Text.Equality.{bytes_eq_refl}
use gitopia_storage.Release.{
  Asset, Attachment, Env, Update, calculate_merkle_root, changed, changed_asset, delete_release,
  deletions, file_path, find_asset, named, pin_attachment, release_updates, update_of,
  update_release,
}
use gitopia_storage.Release.View.{
  View, Distinct, apply_updates, apply_updates-append, attached, listed, over, over-cons, view_of,
  digest, same_name, bytes_eq_comm, deletions-Applied, unchanged, or-false, rest, all_named,
  kept_named, gone,
}

-- Every file can be pinned and read, and a cid that the chain knows is not the cid of a file with
-- another digest.
pub record Works {T P : Type 0} (e : Env T P) (existing : List Asset) : Type 0 where
  pub cid_of : Bytes → Bytes
  pub root_of : Attachment → Bytes
  pub pins : (sha : Bytes) → e.pin_file (file_path e sha) ≡ some (cid_of sha)
  pub roots : (a : Attachment) → calculate_merkle_root e a ≡ some (root_of a)
  pub identifies :
      (name sha : Bytes) (old : Asset)
      → find_asset name existing ≡ some old
      → cid_of sha ≡ old.cid
      → old.sha256 ≡ sha

module _ {T P : Type 0} (e : Env T P) (existing : List Asset) (w : Works e existing) where
  pinned-once :
      (a : Attachment) (make : Bytes → Bytes → List Update)
      → (pin_attachment e a make).1 ≡ make (w.cid_of a.sha) (w.root_of a)
  unfolding pin_attachment
  pinned-once a make = rw (w.pins a.sha, w.roots a) refl

  fresh :
      (a : Attachment) (old : Asset)
      → find_asset a.name existing ≡ some old
      → bytes_eq old.sha256 a.sha ≡ false
      → bytes_eq (w.cid_of a.sha) old.cid ≡ false
  fresh a old known differs = elim (Bool-cases (bytes_eq (w.cid_of a.sha) old.cid)) [
    | inl e ↦
        let same = w.identifies a.name a.sha old known (same_name (w.cid_of a.sha) old.cid e) in
        ground (
          arith,
          differs,
          subst (λ z. bytes_eq old.sha256 z ≡ true) same (bytes_eq_refl old.sha256),
        )
    | inr e ↦ e
  ]

  -- one attachment
  changed_asset-Applied :
      (a : Attachment) (v : View) (n : Bytes)
      → v a.name ≡ view_of existing a.name
      → apply_updates (changed_asset e a (find_asset a.name existing)).1 v n
        ≡ (if bytes_eq n a.name then some a.sha else v n)
  unfolding changed_asset
  changed_asset-Applied a v n h = elim (Option-cases (find_asset a.name existing)) [
    | inl missing ↦ rw (missing, pinned-once a (λ cid root. update_of e a [] [] cid root ∷ [])) refl
    | inr (old, known) ↦ elim (Bool-cases (bytes_eq old.sha256 a.sha)) [
      | inl same ↦ rw (known, same) (unchanged a old v n same (h ∙ ap digest known))
      | inr differs ↦
          rw
            (
              known,
              differs,
              pinned-once a (λ cid root.
                  if bytes_eq cid old.cid
                  then []
                  else update_of e a old.sha256 old.cid cid root ∷ []),
              fresh a old known differs,
            )
            refl
    ]
  ]

  later :
      (a : Attachment) (v : View)
      → v a.name ≡ view_of existing a.name
      → (attachments : List Attachment) → named a.name attachments ≡ false
      → All (λ b. v b.name ≡ view_of existing b.name) attachments
      → All
          (λ b.
            apply_updates (changed_asset e a (find_asset a.name existing)).1 v b.name
            ≡ view_of existing b.name)
          attachments
  unfolding named
  later a v h [] new hs = tt
  later a v h (b ∷ attachments) new (k, hs) =
      let (other, rest) = or-false (bytes_eq a.name b.name) (named a.name attachments) new in
      (
        changed_asset-Applied a v b.name h ∙ rw (bytes_eq_comm a.name b.name other) k,
        later a v h attachments rest hs,
      )

  pub changed-Applied :
      (attachments : List Attachment) (v : View) (n : Bytes)
      → Distinct attachments
      → All (λ a. v a.name ≡ view_of existing a.name) attachments
      → apply_updates (changed e existing attachments).1 v n ≡ over (attached attachments n) (v n)
  unfolding changed
  changed-Applied [] v n d h = refl
  changed-Applied (a ∷ attachments) v n (new, d) (h, hs) =
      let first = (changed_asset e a (find_asset a.name existing)).1 in
      apply_updates-append first (changed e existing attachments).1 v n
      ∙ changed-Applied attachments (apply_updates first v) n d (later a v h attachments new hs)
      ∙ ap (over (attached attachments n)) (changed_asset-Applied a v n h)
      ∙ over-cons a attachments n (v n) new

  -- what an update of a release comes to
  pub update-Applied :
      (attachments : List Attachment) (n : Bytes)
      → Distinct attachments
      → ((m : Bytes) → listed m (e.iterate existing) ≡ listed m existing)
      → apply_updates (release_updates e update_release attachments existing).1 (view_of existing) n
        ≡ attached attachments n
  unfolding release_updates
  update-Applied attachments n d walks =
      let kept = apply_updates (deletions attachments (e.iterate existing)) (view_of existing) in
      let before =
        λ (m : Bytes). deletions-Applied attachments (e.iterate existing) (view_of existing) m in
      apply_updates-append (deletions attachments (e.iterate existing))
        (changed e existing attachments).1 (view_of existing) n
      ∙ changed-Applied attachments kept n d (
          all_named attachments (λ m. kept m ≡ view_of existing m)
            (λ m h.
              before m
              ∙ kept_named (listed m (e.iterate existing)) (named m attachments)
                  (view_of existing m) h)
            attachments (λ m h. h))
      ∙ ap (over (attached attachments n)) (before n ∙ rw (walks n) refl)
      ∙ rest attachments existing n

  pub delete-Applied :
      (attachments : List Attachment) (n : Bytes)
      → ((m : Bytes) → listed m (e.iterate existing) ≡ listed m existing)
      → apply_updates (release_updates e delete_release attachments existing).1 (view_of existing) n
        ≡ none
  unfolding release_updates
  delete-Applied attachments n walks =
      deletions-Applied [] (e.iterate existing) (view_of existing) n
      ∙ rw (walks n) (gone existing n)
