-- ===== src/Download/Origins.antt =====
-- utils/cache.go, DownloadRepositoryPackfile: where each file comes from that it changes, and which
-- parent a fork is linked with.
use gitopia_storage.Prelude.{
  ℕ, zero, suc, ◌≡◌, refl, sym, subst, ◌∙◌, ◌⊎◌, inl, inr, Bool, true, false, Option, none, some,
  [], ◌∷◌, ◌++◌, Result, ok, err, Bool-cases, if◌then◌else◌,
}
use gitopia_storage.Text.{Bytes, codes, bytes_eq}
use gitopia_storage.Text.Equality.{bytes_eq_iff}
use gitopia_storage.App.{Query, answered, failed, contains}
use gitopia_storage.Lfs.{Disk, write_file}
use gitopia_storage.Download.{Outcome, Response, bad_status, body, unreachable, is_there, save}
use gitopia_storage.Download.Packfiles.{
  Act, Cache, CacheError, Env, Packfile, Repository, alternates_path, download_found,
  download_packfile, failed_query, download_repository_packfile, fetch_packfile, fetch_parent,
  indexed, init_repository, is_repository_packfile_cached, link_parent, next, objects_dir,
  pack_path, repo_dir, then_act, write_alternates,
}
use gitopia_storage.Download.Forks.{Lineage}
use gitopia_storage.Download.Linked.{download_repository_packfile-Lineage}

-- A file is as it was, or has the given content at the given path.
abbrev Wrote : Disk → Disk → Bytes → Bytes → Bytes → Type 0
Wrote d f path content p = (f p ≡ d p) ⊎ ((p ≡ path) × (f p ≡ some content))

write-Wrote :
    (d : Disk) (path content p : Bytes) → Wrote d (write_file path content d) path content p
write-Wrote d path content p = elim (Bool-cases (bytes_eq p path)) [
  | inl e ↦ inr ((bytes_eq_iff p path).0 e, rw e refl)
  | inr e ↦ inl (rw e refl)
]

save-Wrote :
    (mkdir create : Bool) (path : Bytes) (a : Response) (d : Disk) (p : Bytes)
    → ((save mkdir create path a d).1 p ≡ d p)
      ⊎ ((content : Bytes) × (complete : Bool) × (a ≡ body content complete)
          × (p ≡ path)
          × ((save mkdir create path a d).1 p ≡ some content))
save-Wrote mkdir create path unreachable d p = inl refl
save-Wrote mkdir create path bad_status d p = inl refl
save-Wrote false create path (body content complete) d p = inl refl
save-Wrote true false path (body content complete) d p = inl refl
save-Wrote true true path (body content false) d p = elim (write-Wrote d path content p) [
  | inl e ↦ inl e
  | inr (q, e) ↦ inr (content, false, refl, q, e)
]
save-Wrote true true path (body content true) d p = elim (write-Wrote d path content p) [
  | inl e ↦ inl e
  | inr (q, e) ↦ inr (content, true, refl, q, e)
]

indexed-files : (b : Bool) (s : Cache) (o : Outcome) → (indexed b s o).1.files ≡ o.1
indexed-files b s (some e, d) = refl
indexed-files true s (none, d) = refl
indexed-files false s (none, d) = refl

either : {A : Type 0} (P : A → Type 0) (b : Bool) (x y : A) → P x → P y → P (if b then x else y)
either P true x y h k = h
either P false x y h k = k

in_branch :
    {A : Type 0} (P : A → Type 0) (b : Bool) (x y : A)
    → (b ≡ true → P x)
    → P y
    → P (if b then x else y)
in_branch P true x y h k = h refl
in_branch P false x y h k = k

module _ (c : Env) where
  -- The file is what IPFS delivered of the packfile of a repository.
  abbrev pub IsPackfile : Disk → Bytes → Type 0
  IsPackfile f path =
      (id : ℕ) × (r : Repository) × (p : Packfile) × (content : Bytes) × (complete : Bool)
      × (c.repository id ≡ some r)
      × (c.packfile id ≡ answered p)
      × (path ≡ pack_path (repo_dir c r.id) p.name)
      × (c.ipfs p.cid ≡ body content complete)
      × (f path ≡ some content)

  -- The file names the objects of the parent of a fork.
  abbrev pub IsLink : Disk → Bytes → Type 0
  IsLink f path =
      (id : ℕ) × (r : Repository) × (c.repository id ≡ some r)
      × (r.fork ≡ true)
      × (path ≡ alternates_path (repo_dir c r.id))
      × (f path ≡ some (objects_dir (repo_dir c r.parent) ++ b'\n' ∷ []))

  -- Where the content of a path comes from, between two disks.
  abbrev pub Origin : Disk → Disk → Bytes → Type 0
  Origin d f path = (f path ≡ d path) ⊎ (IsPackfile f path ⊎ IsLink f path)

  moved : (d e f : Disk) (path : Bytes) → f path ≡ e path → Origin d e path → Origin d f path
  moved d e f path h (inl k) = inl (h ∙ k)
  moved d e f path h (inr (inl (id, r, p, content, complete, a, b, q, i, k))) =
      inr (inl (id, r, p, content, complete, a, b, q, i, h ∙ k))
  moved d e f path h (inr (inr (id, r, a, b, q, k))) = inr (inr (id, r, a, b, q, h ∙ k))

  then-Origin : (d e f : Disk) (path : Bytes) → Origin d e path → Origin e f path → Origin d f path
  then-Origin d e f path h (inl k) = moved d e f path k h
  then-Origin d e f path h (inr k) = inr k

  abbrev Traced : Act → Type 0
  Traced act = (s : Cache) (path : Bytes) → Origin s.files (act s).1.files path

  next-Traced :
      (d : Disk) (x : Option CacheError × Cache) (act : Act) (path : Bytes)
      → Traced act
      → Origin d x.1.files path
      → Origin d (next x act).1.files path
  next-Traced d (some e, s) act path k h = h
  next-Traced d (none, s) act path k h = then-Origin d s.files (act s).1.files path h (k s path)

  then-Traced : (f g : Act) → Traced f → Traced g → Traced (then_act f g)
  then-Traced f g k l s path = next-Traced s.files (f s) g path l (k s path)

  init-Traced : (dir : Bytes) → Traced (init_repository c dir)
  unfolding init_repository
  init-Traced dir s path =
      let Same : Option CacheError × Cache → Type 0 = λ x. Origin s.files x.1.files path in
      either Same (s.dirs (objects_dir dir)) _ _ (inl refl)
        (either Same (c.init_works dir) _ _ (inl refl) (inl refl))

  parent-Traced :
      (fetch : Act) (a : Result CacheError Bool) → Traced fetch → Traced (fetch_parent fetch a)
  parent-Traced fetch (err e) k s path = inl refl
  parent-Traced fetch (ok true) k s path = inl refl
  parent-Traced fetch (ok false) k s path = k s path

  alternates-Traced :
      (id : ℕ) (r : Repository)
      → c.repository id ≡ some r
      → r.fork ≡ true
      → Traced (write_alternates c r (repo_dir c r.id))
  unfolding write_alternates
  alternates-Traced id r e fork s path =
      let Same : Option CacheError × Cache → Type 0 = λ x. Origin s.files x.1.files path in
      let file = alternates_path (repo_dir c r.id) in
      let link = objects_dir (repo_dir c r.parent) ++ b'\n' ∷ [] in
      either Same (is_there (s.files file)) _ _ (inl refl) (
        either Same (c.write_works file) _ _
          (elim (write-Wrote s.files file link path) [
            | inl k ↦ inl k
            | inr (q, k) ↦ inr (inr (id, r, e, fork, q, k))
          ])
          (inl refl))

  link-Traced :
      (fetch : Act) (id : ℕ) (r : Repository)
      → c.repository id ≡ some r
      → Traced fetch
      → Traced (link_parent c fetch r (repo_dir c r.id))
  unfolding link_parent
  link-Traced fetch id r e k s path =
      in_branch (λ (x : Option CacheError × Cache). Origin s.files x.1.files path) r.fork _ _
        (λ fork.
          then-Traced (λ t. fetch_parent fetch (is_repository_packfile_cached c r.parent t) t)
            (write_alternates c r (repo_dir c r.id))
            (λ t. parent-Traced fetch (is_repository_packfile_cached c r.parent t) k t)
            (alternates-Traced id r e fork) s path)
        (inl refl)

  fetch-Traced :
      (id : ℕ) (r : Repository) (q : Query Packfile)
      → c.repository id ≡ some r
      → c.packfile id ≡ q
      → Traced (fetch_packfile c q (repo_dir c r.id))
  unfolding fetch_packfile download_packfile
  fetch-Traced id r (failed text) e a s path =
      either (λ (x : Option CacheError × Cache). Origin s.files x.1.files path)
        (contains text (codes "packfile not found")) (none, s) (some failed_query, s) (inl refl)
        (inl refl)
  fetch-Traced id r (answered p) e a s path =
      let file = pack_path (repo_dir c r.id) p.name in
      let saved = save (c.mkdir_works file) (c.create_works file) file (c.ipfs p.cid) s.files in
      subst (λ d. Origin s.files d path) (sym (indexed-files (c.indexes file) s saved))
        (elim (save-Wrote (c.mkdir_works file) (c.create_works file) file (c.ipfs p.cid) s.files
          path) [
            | inl k ↦ inl k
            | inr (content, complete, i, q, k) ↦
                inr (inl (id, r, p, content, complete, e, a, q, i, k))
          ])

  found-Traced :
      (fetch : ℕ → Act) (id : ℕ) (o : Option Repository)
      → c.repository id ≡ o
      → ((parent : ℕ) → Traced (fetch parent))
      → Traced (download_found c fetch id o)
  found-Traced fetch id none e k s path = inl refl
  found-Traced fetch id (some r) e k s path =
      let dir = repo_dir c r.id in
      then-Traced (init_repository c dir)
        (then_act (link_parent c (fetch r.parent) r dir) (fetch_packfile c (c.packfile id) dir))
        (init-Traced dir)
        (then-Traced (link_parent c (fetch r.parent) r dir) (fetch_packfile c (c.packfile id) dir)
          (link-Traced (fetch r.parent) id r e (k r.parent))
          (fetch-Traced id r (c.packfile id) e refl))
        s path

  repository-Traced : (n id : ℕ) → Traced (download_repository_packfile c n id)
  unfolding download_repository_packfile
  repository-Traced zero id s path = inl refl
  repository-Traced (suc n) id s path =
      either (λ (x : Option CacheError × Cache). Origin s.files x.1.files path) c.connects _ _
        (found-Traced (download_repository_packfile c n) id (c.repository id) refl
          (repository-Traced n) s path)
        (inl refl)

  -- However a download ends, each file that it changed is what IPFS delivered of the packfile of a
  -- repository of the chain, at its path, or the alternates file of a fork, which names the objects of
  -- that fork's parent. After a download without an error the packfile of the repository is there, if
  -- the chain has one; IPFS delivered it completely and git could index it. For a fork there is an
  -- alternates file then, and its parent was in the cache or is downloaded in the same way, with its
  -- own parents.
  pub download_repository_packfile-Linked :
      (n id : ℕ) (s : Cache)
      → ((path : Bytes) → Origin s.files (download_repository_packfile c n id s).1.files path)
        × ((download_repository_packfile c n id s).0 ≡ none
            → Lineage c (download_repository_packfile c n id s).1.files n id)
  download_repository_packfile-Linked n id s =
      (repository-Traced n id s, download_repository_packfile-Lineage c n id s)
