-- ===== src/Download/Depth.antt =====
-- The fuel of the download of a repository: more than its id is enough.
use gitopia_storage.Prelude.{
  ℕ, zero, suc, ◌<◌, ◌≤◌, ◌≡◌, refl, arith, sym, ap, ◌∙◌, Bool, true, false, Option, none, some,
  Result, ok, err, Bool-cases, some-inj, inl, inr, if◌then◌else◌,
}
use gitopia_storage.Text.{Bytes, codes}
use gitopia_storage.App.{Query, answered, failed, contains}
use gitopia_storage.Download.{Outcome, is_there}
use gitopia_storage.Download.Packfiles.{
  Act, Cache, CacheError, Env, Repository, alternates_path, cached_answer, download_found,
  download_repository_packfile, download_packfile, fetch_packfile, fetch_parent, indexed,
  init_repository, is_repository_packfile_cached, link_parent, next, no_connection, objects_dir,
  out_of_fuel, repo_dir, write_alternates,
}

-- A fork has been made behind its parent, as the chain gives ascending ids.
abbrev pub ForkedLater : Env → Type 0
ForkedLater c = (id : ℕ) (r : Repository) → c.repository id ≡ some r → r.fork ≡ true → r.parent < id

abbrev Fuelled : Option CacheError × Cache → Type 0
Fuelled x = ¬ (x.0 ≡ some out_of_fuel)

next-Fuelled :
    (x : Option CacheError × Cache) (act : Act)
    → Fuelled x
    → ((t : Cache) → Fuelled (act t))
    → Fuelled (next x act)
next-Fuelled (some e, s) act h k = h
next-Fuelled (none, s) act h k = k s

-- An answer of the chain is never the lack of fuel.
abbrev Plain : {A : Type 0} → Result CacheError A → Type 0
Plain a = ¬ (a ≡ err out_of_fuel)

picked : {A : Type 0} (P : A → Type 0) (b : Bool) (x y : A) → P x → P y → P (if b then x else y)
picked P true x y h k = h
picked P false x y h k = k

indexed-Fuelled : (b : Bool) (s : Cache) (o : Outcome) → Fuelled (indexed b s o)
indexed-Fuelled b s (some e, d) h = ground (arith, h)
indexed-Fuelled true s (none, d) h = ground (arith, h)
indexed-Fuelled false s (none, d) h = ground (arith, h)

parent-Fuelled :
    (fetch : Act) (a : Result CacheError Bool) (s : Cache)
    → Plain a
    → Fuelled (fetch s)
    → Fuelled (fetch_parent fetch a s)
parent-Fuelled fetch (err e) s p h k = p (ap err (some-inj k))
parent-Fuelled fetch (ok true) s p h k = ground (arith, k)
parent-Fuelled fetch (ok false) s p h k = h k

module _ (c : Env) where
  init-Fuelled : (dir : Bytes) (s : Cache) → Fuelled (init_repository c dir s)
  unfolding init_repository
  init-Fuelled dir s =
      picked Fuelled (s.dirs (objects_dir dir)) _ _ (λ h. ground (arith, h))
        (picked Fuelled (c.init_works dir) _ _ (λ h. ground (arith, h)) (λ h. ground (arith, h)))

  alternates-Fuelled :
      (r : Repository) (dir : Bytes) (s : Cache) → Fuelled (write_alternates c r dir s)
  unfolding write_alternates
  alternates-Fuelled r dir s =
      picked Fuelled (is_there (s.files (alternates_path dir))) _ _ (λ h. ground (arith, h))
        (picked Fuelled (c.write_works (alternates_path dir)) _ _ (λ h. ground (arith, h))
          (λ h. ground (arith, h)))

  answer-Plain : (id : ℕ) (q : Query _) (s : Cache) → Plain (cached_answer c id q s)
  unfolding cached_answer
  answer-Plain id (failed text) s h =
      picked Plain (contains text (codes "packfile not found")) _ _ (λ k. ground (arith, k))
        (λ k. ground (arith, k)) h
  answer-Plain id (answered p) s h = ground (arith, h)

  cached-Plain : (id : ℕ) (s : Cache) → Plain (is_repository_packfile_cached c id s)
  unfolding is_repository_packfile_cached
  cached-Plain id s =
      picked Plain c.connects _ _ (answer-Plain id (c.packfile id) s) (λ h. ground (arith, h))

  fetch-Fuelled : (q : Query _) (dir : Bytes) (s : Cache) → Fuelled (fetch_packfile c q dir s)
  unfolding fetch_packfile download_packfile
  fetch-Fuelled (failed text) dir s =
      picked Fuelled (contains text (codes "packfile not found")) _ _ (λ h. ground (arith, h))
        (λ h. ground (arith, h))
  fetch-Fuelled (answered p) dir s = indexed-Fuelled _ s _

  -- The two fetch the same for the parent of a fork, and do not lack fuel.
  abbrev Alike : Act → Act → Type 0
  Alike f g = (t : Cache) → (f t ≡ g t) × Fuelled (f t)

  parent-same :
      (f g : Act) (a : Result CacheError Bool) (s : Cache)
      → f s ≡ g s
      → fetch_parent f a s ≡ fetch_parent g a s
  parent-same f g (err e) s h = refl
  parent-same f g (ok true) s h = refl
  parent-same f g (ok false) s h = h

  link-Alike :
      (f g : Act) (r : Repository) (dir : Bytes)
      → (r.fork ≡ true → Alike f g)
      → Alike (link_parent c f r dir) (link_parent c g r dir)
  unfolding link_parent
  link-Alike f g r dir k s = elim (Bool-cases r.fork) [
    | inl e ↦ rw e (
      ap (λ x. next x (write_alternates c r dir))
          (parent-same f g (is_repository_packfile_cached c r.parent s) s (k e s).0),
      next-Fuelled _ (write_alternates c r dir)
          (parent-Fuelled f (is_repository_packfile_cached c r.parent s) s (cached-Plain r.parent s)
            (k e s).1)
          (alternates-Fuelled r dir),
    )
    | inr e ↦ rw e (refl, λ h. ground (arith, h))
  ]

  next-Alike :
      (x y : Option CacheError × Cache) (f g : Act)
      → x ≡ y
      → Fuelled x
      → Alike f g
      → (next x f ≡ next y g) × Fuelled (next x f)
  next-Alike (some e, s) y f g same h k = (ap (λ z. next z g) same, h)
  next-Alike (none, s) y f g same h k = ((k s).0 ∙ ap (λ z. next z g) same, (k s).1)

  found-Alike :
      (f g : ℕ → Act) (id : ℕ) (o : Option Repository)
      → ((r : Repository) → o ≡ some r → r.fork ≡ true → Alike (f r.parent) (g r.parent))
      → Alike (download_found c f id o) (download_found c g id o)
  found-Alike f g id none k s = (refl, λ h. ground (arith, h))
  found-Alike f g id (some r) k s =
      let dir = repo_dir c r.id in
      next-Alike (init_repository c dir s) (init_repository c dir s) _ _ refl (init-Fuelled dir s)
        (λ t.
          let (same, fuelled) = link-Alike (f r.parent) (g r.parent) r dir (k r refl) t in
          next-Alike _ _ (fetch_packfile c (c.packfile id) dir)
            (fetch_packfile c (c.packfile id) dir) same fuelled
            (λ u. (refl, fetch-Fuelled (c.packfile id) dir u)))

  depth :
      (n m id : ℕ)
      → ForkedLater c
      → id < n
      → id < m
      → Alike (download_repository_packfile c n id) (download_repository_packfile c m id)
  unfolding download_repository_packfile
  depth zero m id later h k s = absurd (omega (arith, h))
  depth (suc n) zero id later h k s = absurd (omega (arith, k))
  depth (suc n) (suc m) id later h k s =
      let (same, fuelled) =
        found-Alike (download_repository_packfile c n) (download_repository_packfile c m) id
          (c.repository id)
          (λ r e fork.
            depth n m r.parent later (omega (arith, h, later id r e fork))
              (omega (arith, k, later id r e fork)))
          s in
      (
        ap (λ z. if c.connects then z else (some no_connection, s)) same,
        picked Fuelled c.connects _ _ fuelled (λ x. ground (arith, x)),
      )

  -- Where forks have greater ids than their parents, fuel greater than the id does not run out, and
  -- more of it changes nothing.
  pub download_repository_packfile-Fuelled :
      (n m id : ℕ) (s : Cache)
      → ForkedLater c
      → id < n
      → n ≤ m
      → ¬ ((download_repository_packfile c n id s).0 ≡ some out_of_fuel)
        × (download_repository_packfile c m id s ≡ download_repository_packfile c n id s)
  download_repository_packfile-Fuelled n m id s later h k =
      let (same, fuelled) = depth n m id later h (omega (arith, h, k)) s in (fuelled, sym same)
