-- ===== src/Events/Justified.antt =====
-- handler: what a handler pins and unpins is justified by the reference counts of the chain.
use gitopia_storage.Prelude.{
  ℕ, ◌≡◌, refl, ap, ◌∙◌, Bool, true, false, none, some, List, [], ◌∷◌, ◌++◌, map, if◌then◌else◌,
  All, All-append, inl, inr, ◌⊎◌, Option-cases,
}
use gitopia_storage.Text.{Bytes}
use gitopia_storage.Events.{
  Provider, Call, pinned, unpinned, counted, rlocked, runlocked, cached_repository, downloaded_lfs,
  cached_asset, Env, Run, done, and_then, with_count, pin_logged, unpin_logged,
}
use gitopia_storage.Events.Paths.{base}
use gitopia_storage.Events.Packfile.{PackfileUpdatedEvent, packfile_name, packfile_path}
use gitopia_storage.Events.Lfs.{LfsObjectUpdatedEvent, lfs_name}
use gitopia_storage.Events.Assets.{ReleaseAssetUpdate, asset_name}
use gitopia_storage.Events.Deleted.{ReleaseAsset, LfsObject, RepositoryDeletedEvent}
use gitopia_storage.Events.Pinning.{pin_file_lem}

-- Whether a list of content ids with the names under which they are pinned has a pair.
abbrev pub Owned : List (Bytes × Bytes) → Bytes → Bytes → Type 0
Owned [] cid name = ⊥
Owned (pair ∷ rest) cid name = ((pair.0 ≡ cid) × (pair.1 ≡ name)) ⊎ Owned rest cid name

abbrev pub Backed : Env → List (Bytes × Bytes) → Bytes → ℕ → Type 0
Backed env owned name n = (cid : Bytes) × (Owned owned cid name × (env.ref_count cid ≡ some n))

-- What is unpinned is content that nothing refers to, and what is pinned is content with exactly
-- one reference; both are content of the event, under its name.
abbrev pub Justified : Env → List (Bytes × Bytes) → Call → Type 0
Justified env owned (pinned provider path name) = Backed env owned name 1
Justified env owned (unpinned provider name) = Backed env owned name 0
Justified env owned _ = Unit

module _ (env : Env) (owned : List (Bytes × Bytes)) where
  abbrev pub Good : Run → Type 0
  Good r = All (Justified env owned) r.0

  pub and_then-Good : (r s : Run) → Good r → Good s → Good (and_then r s)
  and_then-Good (calls, some e) s g h = g
  and_then-Good (calls, none) (more, e) g h = All-append (Justified env owned) calls more g h

  pub with_count-Good :
      (cid : Bytes) (next : ℕ → Run)
      → ((n : ℕ) → env.ref_count cid ≡ some n → Good (next n))
      → Good (with_count env cid next)
  unfolding with_count
  with_count-Good cid next h = elim (Option-cases (env.ref_count cid)) [
    | inl e ↦ rw e (tt, tt)
    | inr (n, e) ↦ rw e (tt, h n e)
  ]

  pins-Justified :
      (path name : Bytes)
      → Backed env owned name 1
      → (ps : List Provider)
      → All (Justified env owned) (map (λ (p : Provider). pinned p.name path name) ps)
  pins-Justified path name b [] = tt
  pins-Justified path name b (p ∷ ps) = (b, pins-Justified path name b ps)

  unpins-Justified :
      (name : Bytes)
      → Backed env owned name 0
      → (ps : List Provider)
      → All (Justified env owned) (map (λ (p : Provider). unpinned p.name name) ps)
  unpins-Justified name b [] = tt
  unpins-Justified name b (p ∷ ps) = (b, unpins-Justified name b ps)

  pub pin_logged-Good :
      (path name : Bytes) → Backed env owned name 1 → Good (pin_logged env path name)
  unfolding pin_logged
  pin_logged-Good path name b =
      rw ((pin_file_lem env.providers path name).0) (pins-Justified path name b env.providers)

  pub unpin_logged-Good : (name : Bytes) → Backed env owned name 0 → Good (unpin_logged env name)
  unfolding unpin_logged
  unpin_logged-Good name b =
      rw (ap (λ r. r.0) (pin_file_lem env.providers [] name).2)
        (unpins-Justified name b env.providers)

  pub if-Good : (b : Bool) (r : Run) → (b ≡ true → Good r) → Good (if b then r else done)
  if-Good true r h = h refl
  if-Good false r h = tt

  -- an unpin where the count is zero, and a guard
  pub unused-Good :
      (cid name : Bytes) (guard : ℕ → Bool)
      → Owned owned cid name
      → ((n : ℕ) → guard n ≡ true → n ≡ 0)
      → Good (with_count env cid (λ n. if guard n then unpin_logged env name else done))
  unused-Good cid name guard o zero_if =
      with_count-Good cid (λ n. if guard n then unpin_logged env name else done)
        (λ n e.
          if-Good (guard n) (unpin_logged env name)
            (λ g. unpin_logged-Good name (cid, (o, e ∙ ap some (zero_if n g)))))

  pub either-Good : (b : Bool) (r s : Run) → Good r → Good s → Good (if b then r else s)
  either-Good true r s g h = g
  either-Good false r s g h = h

pub Owned-left :
    (xs ys : List (Bytes × Bytes)) (cid name : Bytes)
    → Owned xs cid name
    → Owned (xs ++ ys) cid name
Owned-left [] ys cid name o = elim o [ ]
Owned-left (x ∷ xs) ys cid name (inl q) = inl q
Owned-left (x ∷ xs) ys cid name (inr o) = inr (Owned-left xs ys cid name o)

pub Owned-right :
    (xs ys : List (Bytes × Bytes)) (cid name : Bytes)
    → Owned ys cid name
    → Owned (xs ++ ys) cid name
Owned-right [] ys cid name o = o
Owned-right (x ∷ xs) ys cid name o = inr (Owned-right xs ys cid name o)

module _ (env : Env) (from to : List (Bytes × Bytes))
    (sub : (cid name : Bytes) → Owned from cid name → Owned to cid name) where
  Justified-weaken : (c : Call) → Justified env from c → Justified env to c
  Justified-weaken (pinned p path name) (cid, (o, q)) = (cid, (sub cid name o, q))
  Justified-weaken (unpinned p name) (cid, (o, q)) = (cid, (sub cid name o, q))
  Justified-weaken (counted cid n) j = tt
  Justified-weaken (rlocked id) j = tt
  Justified-weaken (runlocked id) j = tt
  Justified-weaken (cached_repository id) j = tt
  Justified-weaken (downloaded_lfs cid oid) j = tt
  Justified-weaken (cached_asset id tag name) j = tt

  All-weaken : (cs : List Call) → All (Justified env from) cs → All (Justified env to) cs
  All-weaken [] h = tt
  All-weaken (c ∷ cs) h = (Justified-weaken c h.0, All-weaken cs h.1)

  pub Good-weaken : (r : Run) → Good env from r → Good env to r
  Good-weaken r = All-weaken r.0

-- The content of each event, with the names under which it is pinned.
abbrev pub packfile_content : Env → PackfileUpdatedEvent → List (Bytes × Bytes)
packfile_content env e =
    (e.new_cid, packfile_name (base (packfile_path env e)))
    ∷ (e.old_cid, packfile_name e.old_name)
    ∷ (e.new_cid, packfile_name e.new_name)
    ∷ []

abbrev pub lfs_content : LfsObjectUpdatedEvent → List (Bytes × Bytes)
lfs_content e = (e.cid, lfs_name e.oid) ∷ []

abbrev pub asset_content : List ReleaseAssetUpdate → List (Bytes × Bytes)
asset_content [] = []
asset_content (a ∷ rest) =
    (a.cid, asset_name a.sha256) ∷ (a.old_cid, asset_name a.old_sha256) ∷ asset_content rest

abbrev pub deleted_content : RepositoryDeletedEvent → List (Bytes × Bytes)
deleted_content e =
    (e.packfile_cid, packfile_name e.packfile_name)
    ∷ (map (λ (a : ReleaseAsset). (a.cid, asset_name a.sha)) e.release_assets
        ++ map (λ (o : LfsObject). (o.cid, lfs_name o.oid)) e.lfs_objects)
