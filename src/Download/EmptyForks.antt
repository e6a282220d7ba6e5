-- ===== src/Download/EmptyForks.antt =====
-- A fork whose packfile has no cid, for the two functions that cache a repository.
use gitopia_storage.Prelude.{
  ℕ, zero, suc, ◌≡◌, refl, arith, sym, subst, Bool, true, false, Option, none, some, List, [],
  Result, ok, if◌then◌else◌,
}
use gitopia_storage.Text.{Bytes}
use gitopia_storage.App.{answered}
use gitopia_storage.Download.{LfsObject, Response, Source, bad_status, save}
use gitopia_storage.Sync.{Git, Ref, Refs, SyncError, sync_repository_refs}
use gitopia_storage.Download.Packfiles.{
  Act, Cache, CacheError, Cached, Env, Packfile, Repository, cache_repository, download_found,
  download_packfile, download_repository_packfile, fetch_packfile, fetch_server, indexed,
  init_repository, is_repository_packfile_cached, cached_answer, link_parent, next, pack_path,
  repo_dir, server_cache_repository, synced, then_objects,
}

abbrev Fails : Option CacheError × Cache → Type 0
Fails x = ¬ (x.0 ≡ none)

next-Fails :
    (x : Option CacheError × Cache) (act : Act) → ((t : Cache) → Fails (act t)) → Fails (next x act)
next-Fails (some e, s) act k h = ground (arith, h)
next-Fails (none, s) act k h = k s h

indexed-Fails :
    (b : Bool) (s : Cache) (mkdir create : Bool) (path : Bytes) (r : Response)
    → r ≡ bad_status
    → Fails (indexed b s (save mkdir create path r s.files))
indexed-Fails b s mkdir create path r e = rw e (λ h. ground (arith, h))

refused : {A : Type 0} (b : Bool) (P : A → Type 0) (x y : A) → P x → P y → P (if b then x else y)
refused true P x y h k = h
refused false P x y h k = k

synced-Fails :
    (a : Result SyncError (Refs × List Bytes)) (refs : Refs) (x : Option CacheError × Cache)
    → Fails x
    → ¬ ((synced a refs x).0 ≡ none)
synced-Fails a refs (some e, s) h k = ground (arith, k)
synced-Fails a refs (none, s) h k = h refl

objects-Fails :
    (source : Source) (objects : Option (List LfsObject)) (x : Cached)
    → ¬ (x.0 ≡ none)
    → ¬ ((then_objects source objects x).0 ≡ none)
objects-Fails source objects (some e, s) h k = ground (arith, k)
objects-Fails source objects (none, s) h k = h refl

module _ (c : Env) (id : ℕ) (p : Packfile) (r : Repository) where
  download-Fails :
      (n : ℕ) (s : Cache)
      → c.repository id ≡ some r
      → c.packfile id ≡ answered p
      → c.ipfs p.cid ≡ bad_status
      → Fails (download_repository_packfile c n id s)
  unfolding download_repository_packfile fetch_packfile download_packfile
  download-Fails zero s e k l = λ h. ground (arith, h)
  download-Fails (suc n) s e k l =
      refused c.connects Fails _ _
        (subst (λ o. Fails (download_found c (download_repository_packfile c n) id o s)) (sym e)
          (next-Fails (init_repository c (repo_dir c r.id) s) _ (λ t.
            next-Fails
              (link_parent c (download_repository_packfile c n r.parent) r (repo_dir c r.id) t) _
              (λ u.
                subst (λ q. Fails (fetch_packfile c q (repo_dir c r.id) u)) (sym k)
                  (indexed-Fails (c.indexes (pack_path (repo_dir c r.id) p.name)) u _ _ _
                    (c.ipfs p.cid) l)))))
        (λ h. ground (arith, h))

  empty-cached :
      (s : Cache)
      → c.connects ≡ true
      → c.packfile id ≡ answered p
      → p.cid ≡ []
      → is_repository_packfile_cached c id s ≡ ok true
  unfolding is_repository_packfile_cached cached_answer
  empty-cached s on e k = rw (on, e, k) refl

  server-Fails :
      (n : ℕ) (s : Cache)
      → c.repository id ≡ some r
      → r.fork ≡ true
      → c.packfile id ≡ answered p
      → p.cid ≡ []
      → c.ipfs p.cid ≡ bad_status
      → Fails (fetch_server c n id (c.repository id) s)
  unfolding fetch_server
  server-Fails n s e fork k empty l =
      let failing = download-Fails n s e k l in
      subst (λ o. Fails (fetch_server c n id o s)) (sym e) (rw (fork, k, empty) failing)

  -- A fork whose packfile on the chain has no cid, for which IPFS has nothing: where the branches and
  -- tags can be read, CacheRepository of the utilities takes it for cached and ends without an error, and that of the
  -- server ends with one, whatever is cached.
  pub empty_fork-refused :
      (g : Git) (source : Source) (branches tags : List Ref) (objects : Option (List LfsObject))
      (n : ℕ) (s : Cache) (refs : Refs)
      → c.connects ≡ true
      → c.repository id ≡ some r
      → r.fork ≡ true
      → c.packfile id ≡ answered p
      → p.cid ≡ []
      → c.ipfs [] ≡ bad_status
      → ((cache_repository c g (some branches) (some tags) n id s refs).0 ≡ none)
        × ¬ (
            (server_cache_repository c g source (some branches) (some tags) objects n id s refs).0
            ≡ none)
  unfolding cache_repository server_cache_repository sync_repository_refs
  empty_fork-refused g source branches tags objects n s refs on e fork k empty none_there =
      let done : Result SyncError (Refs × List Bytes) =
        sync_repository_refs g (some branches) (some tags) refs in
      let fetched = fetch_server c n id (c.repository id) s in
      (
        rw (empty-cached s on k empty) refl,
        rw k (
            objects-Fails source objects (synced done refs fetched) (
              synced-Fails done refs fetched (
                server-Fails n s e fork k empty
                  (subst (λ z. c.ipfs z ≡ bad_status) (sym empty) none_there)))),
      )
