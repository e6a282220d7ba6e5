-- ===== src/Download/Forks.antt =====
-- What the download of a repository's packfile leaves of it and of the repositories it was forked from.
use gitopia_storage.Prelude.{
  ℕ, zero, suc, ◌≡◌, refl, arith, sym, subst, ◌∙◌, ◌⊎◌, inl, inr, Bool, true, false, Option, none,
  some, [], ◌∷◌, Result, ok, err, ok-inj, Bool-cases, ◌||◌, if◌then◌else◌,
}
use gitopia_storage.Text.{Bytes, codes}
use gitopia_storage.App.{Query, answered, failed, contains}
use gitopia_storage.Lfs.{Disk}
use gitopia_storage.Download.{Outcome, Response, bad_status, body, unreachable, is_there, save}
use gitopia_storage.Download.Objects.{Stored, write-same, write-keeps, save-Stored}
use gitopia_storage.Download.Packfiles.{
  Act, Cache, CacheError, Env, Packfile, Repository, alternates_path, cached_answer, download_found,
  download_packfile, download_repository_packfile, fetch_packfile, fetch_parent, indexed,
  init_repository, is_nothing, is_repository_packfile_cached, link_parent, next, objects_dir,
  pack_path, repo_dir, then_act, write_alternates,
}

pub next-step :
    (x : Option CacheError × Cache) (act : Act)
    → (next x act).0 ≡ none
    → (x.0 ≡ none) × (next x act ≡ act x.1)
next-step (some e, s) act h = ground (arith, h)
next-step (none, s) act h = (refl, refl)

either : {A : Type 0} (P : A → Type 0) (b : Bool) (x y : A) → P x → P y → P (if b then x else y)
either P true x y h k = h
either P false x y h k = k

-- No file is removed, whatever the error.
abbrev Keeps : Act → Type 0
Keeps act = (s : Cache) (path : Bytes) → Stored s.files path → Stored (act s).1.files path

next_kept :
    (x : Option CacheError × Cache) (act : Act) (path : Bytes)
    → Keeps act
    → Stored x.1.files path
    → Stored (next x act).1.files path
next_kept (some e, s) act path k h = h
next_kept (none, s) act path k h = k s path h

then-Keeps : (f g : Act) → Keeps f → Keeps g → Keeps (then_act f g)
then-Keeps f g k l s path h = next_kept (f s) g path l (k s path h)

save-keeps :
    (mkdir create : Bool) (path : Bytes) (r : Response) (d : Disk) (p : Bytes)
    → Stored d p
    → Stored (save mkdir create path r d).1 p
save-keeps mkdir create path unreachable d p h = h
save-keeps mkdir create path bad_status d p h = h
save-keeps false create path (body content complete) d p h = h
save-keeps true false path (body content complete) d p h = h
save-keeps true true path (body content false) d p h = write-keeps path content p d h
save-keeps true true path (body content true) d p h = write-keeps path content p d h

indexed-files : (b : Bool) (s : Cache) (o : Outcome) → (indexed b s o).1.files ≡ o.1
indexed-files b s (some e, d) = refl
indexed-files true s (none, d) = refl
indexed-files false s (none, d) = refl

indexed-fine :
    (b : Bool) (s : Cache) (o : Outcome) → (indexed b s o).0 ≡ none → (b ≡ true) × (o.0 ≡ none)
indexed-fine b s (some e, d) h = ground (arith, h)
indexed-fine true s (none, d) h = (refl, refl)
indexed-fine false s (none, d) h = ground (arith, h)

module _ (c : Env) where
  init-Keeps : (dir : Bytes) → Keeps (init_repository c dir)
  unfolding init_repository
  init-Keeps dir s path h = elim (Bool-cases (s.dirs (objects_dir dir))) [
    | inl e ↦ rw e h
    | inr e ↦ elim (Bool-cases (c.init_works dir)) [ inl k ↦ rw (e, k) h | inr k ↦ rw (e, k) h ]
  ]

  pub alternates-Keeps : (r : Repository) (dir : Bytes) → Keeps (write_alternates c r dir)
  unfolding write_alternates
  alternates-Keeps r dir s path h = elim (Bool-cases (is_there (s.files (alternates_path dir)))) [
    | inl e ↦ rw e h
    | inr e ↦ elim (Bool-cases (c.write_works (alternates_path dir))) [
      | inl k ↦ rw (e, k) (write-keeps (alternates_path dir) _ path s.files h)
      | inr k ↦ rw (e, k) h
    ]
  ]

  parent_kept :
      (fetch : Act) (a : Result CacheError Bool) → Keeps fetch → Keeps (fetch_parent fetch a)
  parent_kept fetch (err e) k s path h = h
  parent_kept fetch (ok true) k s path h = h
  parent_kept fetch (ok false) k s path h = k s path h

  link-Keeps :
      (fetch : Act) (r : Repository) (dir : Bytes) → Keeps fetch → Keeps (link_parent c fetch r dir)
  unfolding link_parent
  link-Keeps fetch r dir k s path h = elim (Bool-cases r.fork) [
    | inl e ↦ rw e (
        next_kept (fetch_parent fetch (is_repository_packfile_cached c r.parent s) s)
          (write_alternates c r dir) path (alternates-Keeps r dir)
          (parent_kept fetch (is_repository_packfile_cached c r.parent s) k s path h))
    | inr e ↦ rw e h
  ]

  download-Keeps : (p : Packfile) (dir : Bytes) → Keeps (download_packfile c p dir)
  unfolding download_packfile
  download-Keeps p dir s path h =
      let target = pack_path dir p.name in
      subst (λ d. Stored d path)
        (sym (
          indexed-files (c.indexes target) s
            (save (c.mkdir_works target) (c.create_works target) target (c.ipfs p.cid) s.files)))
        (save-keeps (c.mkdir_works target) (c.create_works target) target (c.ipfs p.cid) s.files
          path h)

  pub fetch-Keeps : (q : Query Packfile) (dir : Bytes) → Keeps (fetch_packfile c q dir)
  unfolding fetch_packfile
  fetch-Keeps (failed text) dir s path h =
      elim (Bool-cases (contains text (codes "packfile not found"))) [
        | inl e ↦ rw e h
        | inr e ↦ rw e h
      ]
  fetch-Keeps (answered p) dir s path h = download-Keeps p dir s path h

  found-Keeps :
      (fetch : ℕ → Act) (id : ℕ) (o : Option Repository)
      → ((parent : ℕ) → Keeps (fetch parent))
      → Keeps (download_found c fetch id o)
  found-Keeps fetch id none k s path h = h
  found-Keeps fetch id (some r) k s path h =
      let dir = repo_dir c r.id in
      then-Keeps (init_repository c dir)
        (then_act (link_parent c (fetch r.parent) r dir) (fetch_packfile c (c.packfile id) dir))
        (init-Keeps dir)
        (then-Keeps (link_parent c (fetch r.parent) r dir) (fetch_packfile c (c.packfile id) dir)
          (link-Keeps (fetch r.parent) r dir (k r.parent)) (fetch-Keeps (c.packfile id) dir))
        s path h

  pub repository-Keeps : (n id : ℕ) → Keeps (download_repository_packfile c n id)
  unfolding download_repository_packfile
  repository-Keeps zero id s path h = h
  repository-Keeps (suc n) id s path h =
      either (λ (x : Option CacheError × Cache). Stored x.1.files path) c.connects _ _
        (found-Keeps (download_repository_packfile c n) id (c.repository id) (repository-Keeps n) s
          path h)
        h

  -- The repository counts as cached: it is empty, or its packfile is there.
  abbrev pub InCache : Disk → ℕ → Type 0
  InCache d id =
      (p : Packfile) × (c.packfile id ≡ answered p)
      × ((p.cid ≡ []) ⊎ Stored d (pack_path (repo_dir c id) p.name))

  -- The packfile, if there is one, is there, after IPFS delivered a complete one that could be indexed.
  abbrev pub Fetched : Disk → Bytes → Query Packfile → Type 0
  Fetched d dir (failed text) = Unit
  Fetched d dir (answered p) =
      ((content : Bytes) × (c.ipfs p.cid ≡ body content true))
      × (c.indexes (pack_path dir p.name) ≡ true)
      × Stored d (pack_path dir p.name)

  -- A repository and those that it was forked from, up to the first that was cached.
  abbrev pub Lineage : Disk → ℕ → ℕ → Type 0
  Lineage d zero id = ⊥
  Lineage d (suc n) id =
      (r : Repository) × (c.repository id ≡ some r)
      × Fetched d (repo_dir c r.id) (c.packfile id)
      × ((r.fork ≡ false)
          ⊎ (Stored d (alternates_path (repo_dir c r.id))
              × (InCache d r.parent ⊎ Lineage d n r.parent)))

  pub fetch_packfile-Fetched :
      (q : Query Packfile) (dir : Bytes) (s : Cache)
      → (fetch_packfile c q dir s).0 ≡ none
      → Fetched (fetch_packfile c q dir s).1.files dir q
  unfolding fetch_packfile download_packfile
  fetch_packfile-Fetched (failed text) dir s h = tt
  fetch_packfile-Fetched (answered p) dir s h =
      let path = pack_path dir p.name in
      let saved = save (c.mkdir_works path) (c.create_works path) path (c.ipfs p.cid) s.files in
      let (works, fine) = indexed-fine (c.indexes path) s saved h in
      let (content, whole, after) =
        save-Stored (c.mkdir_works path) (c.create_works path) path (c.ipfs p.cid) s.files fine in
      (
        (content, whole),
        works,
        subst (λ d. Stored d path) (sym (indexed-files (c.indexes path) s saved ∙ after))
            (content, write-same path content s.files),
      )

  there : (o : Option Bytes) → is_there o ≡ true → (content : Bytes) × (o ≡ some content)
  there none h = ground (arith, h)
  there (some content) h = (content, refl)

  nothing-or : (cid : Bytes) (b : Bool) → (is_nothing cid || b) ≡ true → (cid ≡ []) ⊎ (b ≡ true)
  nothing-or [] b h = inl refl
  nothing-or (x ∷ cid) b h = inr h

  answer-InCache :
      (id : ℕ) (q : Query Packfile) (s : Cache)
      → c.packfile id ≡ q
      → cached_answer c id q s ≡ ok true
      → InCache s.files id
  unfolding cached_answer
  answer-InCache id (failed text) s e h =
      elim (Bool-cases (contains text (codes "packfile not found"))) [
        | inl k ↦ ground (arith, rw k at h)
        | inr k ↦ ground (arith, rw k at h)
      ]
  answer-InCache id (answered p) s e h = (
    p,
    e,
    elim (nothing-or p.cid _ (ok-inj h)) [
      | inl k ↦ inl k
      | inr k ↦ inr (there (s.files (pack_path (repo_dir c id) p.name)) k)
    ],
  )

  true_branch :
      {A : Type 0} (b : Bool) (m : Result CacheError A) (x : CacheError) {a : A}
      → (if b then m else err x) ≡ ok a
      → m ≡ ok a
  true_branch true m x h = h
  true_branch false m x h = ground (arith, h)

  pub cached-InCache :
      (id : ℕ) (s : Cache) → is_repository_packfile_cached c id s ≡ ok true → InCache s.files id
  unfolding is_repository_packfile_cached
  cached-InCache id s h = answer-InCache id (c.packfile id) s refl (true_branch c.connects _ _ h)

  pub alternates-there :
      (r : Repository) (dir : Bytes) (s : Cache)
      → (write_alternates c r dir s).0 ≡ none
      → Stored (write_alternates c r dir s).1.files (alternates_path dir)
  unfolding write_alternates
  alternates-there r dir s h = elim (Bool-cases (is_there (s.files (alternates_path dir)))) [
    | inl e ↦ rw e (there (s.files (alternates_path dir)) e)
    | inr e ↦ elim (Bool-cases (c.write_works (alternates_path dir))) [
      | inl k ↦ rw (e, k) (_, write-same (alternates_path dir) _ s.files)
      | inr k ↦ ground (arith, rw (e, k) at h)
    ]
  ]
