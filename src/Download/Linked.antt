-- ===== src/Download/Linked.antt =====
-- A download without an error leaves the packfiles of all the repositories of a fork, and their links.
use gitopia_storage.Prelude.{
  ℕ, zero, suc, ◌≡◌, refl, arith, sym, ap, subst, ◌∙◌, ◌⊎◌, inl, inr, Bool, true, false, Option,
  none, some, Result, ok, err, Bool-cases, if◌then◌else◌,
}
use gitopia_storage.Text.{Bytes}
use gitopia_storage.App.{Query, answered, failed}
use gitopia_storage.Lfs.{Disk}
use gitopia_storage.Download.Objects.{Stored}
use gitopia_storage.Download.Packfiles.{
  Act, Cache, CacheError, Env, Repository, alternates_path, download_found,
  download_repository_packfile, fetch_packfile, fetch_parent, init_repository,
  is_repository_packfile_cached, link_parent, next, repo_dir, then_act, write_alternates,
}
use gitopia_storage.Download.Forks.{
  InCache, Fetched, Lineage, next-step, alternates-Keeps, alternates-there, cached-InCache,
  fetch-Keeps, fetch_packfile-Fetched,
}

chosen : {A : Type 0} (b : Bool) (x y : A) → b ≡ true → (if b then x else y) ≡ x
chosen true x y h = refl
chosen false x y h = ground (arith, h)

-- What ends without an error has not been refused.
unless_refused :
    (P : Option CacheError × Cache → Type 0) (b : Bool) (x : Option CacheError × Cache)
    (e : CacheError) (s : Cache)
    → (if b then x else (some e, s)).0 ≡ none
    → (x.0 ≡ none → P x)
    → P (if b then x else (some e, s))
unless_refused P true x e s h k = k h
unless_refused P false x e s h k = ground (arith, h)

module _ (c : Env) where
  InCache-grows :
      (d f : Disk) (id : ℕ)
      → ((path : Bytes) → Stored d path → Stored f path)
      → InCache c d id
      → InCache c f id
  InCache-grows d f id k (p, e, inl h) = (p, e, inl h)
  InCache-grows d f id k (p, e, inr h) = (p, e, inr (k _ h))

  Fetched-grows :
      (d f : Disk) (dir : Bytes) (q : Query _)
      → ((path : Bytes) → Stored d path → Stored f path)
      → Fetched c d dir q
      → Fetched c f dir q
  Fetched-grows d f dir (failed text) k h = tt
  Fetched-grows d f dir (answered p) k (whole, works, h) = (whole, works, k _ h)

  Lineage-grows :
      (d f : Disk) (n id : ℕ)
      → ((path : Bytes) → Stored d path → Stored f path)
      → Lineage c d n id
      → Lineage c f n id
  Lineage-grows d f (suc n) id k (r, e, h, inl own) =
      (r, e, Fetched-grows d f _ (c.packfile id) k h, inl own)
  Lineage-grows d f (suc n) id k (r, e, h, inr (link, inl m)) = (
    r,
    e,
    Fetched-grows d f _ (c.packfile id) k h,
    inr (k _ link, inl (InCache-grows d f r.parent k m)),
  )
  Lineage-grows d f (suc n) id k (r, e, h, inr (link, inr m)) = (
    r,
    e,
    Fetched-grows d f _ (c.packfile id) k h,
    inr (k _ link, inr (Lineage-grows d f n r.parent k m)),
  )
  Lineage-grows d f zero id k h = absurd h

  -- The parent is in the cache, or was downloaded with its own parents.
  abbrev Parent : Disk → ℕ → ℕ → Type 0
  Parent d n id = InCache c d id ⊎ Lineage c d n id

  Parent-grows :
      (d f : Disk) (n id : ℕ)
      → ((path : Bytes) → Stored d path → Stored f path)
      → Parent d n id
      → Parent f n id
  Parent-grows d f n id k (inl h) = inl (InCache-grows d f id k h)
  Parent-grows d f n id k (inr h) = inr (Lineage-grows d f n id k h)

  fetch_parent-Parent :
      (fetch : Act) (n id : ℕ) (s : Cache) (a : Result CacheError Bool)
      → is_repository_packfile_cached c id s ≡ a
      → ((fetch s).0 ≡ none → Lineage c (fetch s).1.files n id)
      → (fetch_parent fetch a s).0 ≡ none
      → Parent (fetch_parent fetch a s).1.files n id
  fetch_parent-Parent fetch n id s (err x) e k h = ground (arith, h)
  fetch_parent-Parent fetch n id s (ok true) e k h = inl (cached-InCache c id s e)
  fetch_parent-Parent fetch n id s (ok false) e k h = inr (k h)

  -- The parent of a repository, and the link with it.
  abbrev Linked : Disk → ℕ → Repository → Bytes → Type 0
  Linked d n r dir = (r.fork ≡ false) ⊎ (Stored d (alternates_path dir) × Parent d n r.parent)

  Linked-grows :
      (d f : Disk) (n : ℕ) (r : Repository) (dir : Bytes)
      → ((path : Bytes) → Stored d path → Stored f path)
      → Linked d n r dir
      → Linked f n r dir
  Linked-grows d f n r dir k (inl own) = inl own
  Linked-grows d f n r dir k (inr (link, h)) = inr (k _ link, Parent-grows d f n r.parent k h)

  fork-Linked :
      (fetch : Act) (n : ℕ) (r : Repository) (dir : Bytes) (s : Cache)
      (x : Option CacheError × Cache)
      → (x.0 ≡ none → Parent x.1.files n r.parent)
      → (next x (write_alternates c r dir)).0 ≡ none
      → Stored (next x (write_alternates c r dir)).1.files (alternates_path dir)
        × Parent (next x (write_alternates c r dir)).1.files n r.parent
  fork-Linked fetch n r dir s (some e, t) k h = ground (arith, h)
  fork-Linked fetch n r dir s (none, t) k h = (
    alternates-there c r dir t h,
    Parent-grows t.files _ n r.parent (alternates-Keeps c r dir t) (k refl),
  )

  link-Linked :
      (fetch : Act) (n : ℕ) (r : Repository) (dir : Bytes) (s : Cache)
      → ((t : Cache) → (fetch t).0 ≡ none → Lineage c (fetch t).1.files n r.parent)
      → (link_parent c fetch r dir s).0 ≡ none
      → Linked (link_parent c fetch r dir s).1.files n r dir
  unfolding link_parent
  link-Linked fetch n r dir s k h = elim (Bool-cases r.fork) [
    | inl e ↦ inr (
        subst
          (λ (x : Option CacheError × Cache).
            Stored x.1.files (alternates_path dir) × Parent x.1.files n r.parent)
          (sym (chosen r.fork _ _ e))
          (fork-Linked fetch n r dir s
            (fetch_parent fetch (is_repository_packfile_cached c r.parent s) s)
            (fetch_parent-Parent fetch n r.parent s (is_repository_packfile_cached c r.parent s)
              refl (k s))
            (sym (ap (λ (x : Option CacheError × Cache). x.0) (chosen r.fork _ _ e)) ∙ h)))
    | inr e ↦ inl e
  ]

  found-Lineage :
      (fetch : ℕ → Act) (n id : ℕ) (o : Option Repository) (s : Cache)
      → c.repository id ≡ o
      → ((parent : ℕ) (t : Cache)
          → (fetch parent t).0 ≡ none
          → Lineage c (fetch parent t).1.files n parent)
      → (download_found c fetch id o s).0 ≡ none
      → Lineage c (download_found c fetch id o s).1.files (suc n) id
  found-Lineage fetch n id none s e k h = ground (arith, h)
  found-Lineage fetch n id (some r) s e k h =
      let dir = repo_dir c r.id in
      let (ready, same) =
        next-step (init_repository c dir s)
          (then_act (link_parent c (fetch r.parent) r dir) (fetch_packfile c (c.packfile id) dir))
          h in
      let made = (init_repository c dir s).1 in
      let linked = link_parent c (fetch r.parent) r dir made in
      let (links, then_same) =
        next-step linked (fetch_packfile c (c.packfile id) dir)
          (sym (ap (λ (x : Option CacheError × Cache). x.0) same) ∙ h) in
      let last = fetch_packfile c (c.packfile id) dir linked.1 in
      let run : download_found c fetch id (some r) s ≡ last = same ∙ then_same in
      subst (λ (x : Option CacheError × Cache). Lineage c x.1.files (suc n) id) (sym run)
        (
          r,
          e,
          fetch_packfile-Fetched c (c.packfile id) dir linked.1
              (sym (ap (λ (x : Option CacheError × Cache). x.0) run) ∙ h),
          Linked-grows linked.1.files last.1.files n r dir
              (fetch-Keeps c (c.packfile id) dir linked.1)
              (link-Linked (fetch r.parent) n r dir made (k r.parent) links),
        )

  pub download_repository_packfile-Lineage :
      (n id : ℕ) (s : Cache)
      → (download_repository_packfile c n id s).0 ≡ none
      → Lineage c (download_repository_packfile c n id s).1.files n id
  unfolding download_repository_packfile
  download_repository_packfile-Lineage zero id s h = ground (arith, h)
  download_repository_packfile-Lineage (suc n) id s h =
      unless_refused (λ x. Lineage c x.1.files (suc n) id) c.connects _ _ s h
        (found-Lineage (download_repository_packfile c n) n id (c.repository id) s refl
          (download_repository_packfile-Lineage n))
