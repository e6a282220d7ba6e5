-- ===== src/Lib.antt =====
-- Gitopia storage: the server that keeps the git repositories, release assets and LFS objects of
-- Gitopia, with a cache on disk in front of IPFS and of the pinning services. This library models
-- its parts as functions and step relations, and proves what they promise each other.
--
-- The parts, and the files that model them:
--
--   * Prelude, Text: Boolean tests, lists and errors, and what the code uses of Go's strings and
--     strconv packages. Texts that the code takes apart are lists of bytes.
--   * Locks (utils/cache.go, from RefCountedRWMutex to IsLFSObjectInUse): the registry of
--     reference-counted read-write locks. A registry is a heap of mutexes and a map from keys to
--     them, as in the sync.Map; taking and releasing a lock are two steps each, so that goroutines
--     interleave (Locks.System). The three families of locks are Locks.Families. Locks.Balance,
--     Tidy, Kept and Invariant carry the invariant that counts the goroutines in each phase.
--     The timer that deletes a released mutex is a step of its own (CleanupStep).
--   * Cache (utils/cache_manager.go): the clearing of the three caches by age and size. A cache is a
--     list of entries; what the operating system answers is a record (Os), the order that
--     sort.Slice gives is an argument. Cache.Lfs has the variant for LFS objects and the sequence
--     clearCache, Cache.Lifecycle Start and Stop. The clearing asks Locks whether an entry is in
--     use, once in its first loop and once for the removal by size; the answers are an argument of the
--     policies (repo_policy, file_policy), and can differ.
--   * Events (handler/storage/manager.go, and Process in handler/packfileUpdated.go,
--     lfsObjectUpdated.go, releaseAssetsUpdated.go, repositoryDeleted.go): what an event of the
--     chain makes the process do, as the list of its calls and an error. The reference counts of the
--     chain, the caching and the providers are a record (Env). Events.Paths has path.Join,
--     path.Clean, filepath.Base and the decimal text of an id. Events.Extract unmarshals the events
--     of LFS objects and packfiles (handler/util.go); the JSON parser is an argument.
--   * Batch (app/batch_tx_manager.go): the queue of messages, with the regions under its mutex
--     and the broadcasts as steps of two goroutines.
--   * Page (utils/pagination.go, common.go, content.go, diff.go, commits.go, git.go): the three listings in
--     pages. The loops of a listing are structural recursion over its entries; the reader that
--     follows next_key (Page.Walk.follow) has as many pages of fuel as there are entries, which is
--     enough by Page.Walk.follow_all. Page.Commits also has CommitHistory of utils/git.go, with the
--     conversions to int; the output of git and its lines are arguments.
--   * Cost (utils/storage_fee.go): the charge for storage, with the wrap-around of uint64 and the
--     rounding of float64.
--
--   * Auth (utils/auth.go): the credentials of a request (decode_basic, with base64 in Auth.Base64),
--     the repository of a path, who may push (Auth.Permission.have_push_permission) and whom a
--     signed token authorises (Auth.Validate). The decoder and verifier of the token and the chain
--     are records.
--   * Lfs (lfs/oid.go, lfs/storage.go, route/lfs/batch.go, route/lfs/basic.go): the storage of LFS
--     objects over a disk, which is a map from paths to contents, and the endpoints over it
--     (Lfs.Batch, Lfs.Basic, Lfs.Upload), whose answers are Lfs.Http. What the system refuses is a
--     record (Faults), and so are the chain and the IPFS cluster (Services). The upload asks Auth for
--     the address and Cost for the charge.
--   * App (app/gitopia.go): the wait for an update (poll_for_update), with the times of its checks, the end
--     of the caller's context and its fuel, which is enough by App.Deadline; the checks; and all pages of the release assets,
--     with one round of fuel for each page.
--   * Merkle (pkg/merkleproof/merkleproof.go): the chunks of a file, the root and the proof of a
--     chunk. The loop has as many rounds of fuel as there are chunks, and one more.
--
--   * Sync (utils/cache.go, SyncRepositoryRefs and what it calls): the branches and tags of the chain
--     in the cached repository, whose references are a map. How the git processes end is a record.
--   * Handlers (handler/deleteStorageObject.go, proposalTimeout.go, deleteRepository.go, challenge.go):
--     the events that give up content and the challenges, unmarshalled (Handlers.Unmarshal) and
--     processed. A challenge (Handlers.Challenge) is answered with a proof of Merkle.
--   * Hooks (hooks/utils/input.go, hooks/gitopia-pre-receive, hooks/gitopia-post-receive): the parsing
--     of a push and the decision on it.
--   * Download (utils/cache.go, from IsReleaseAssetCached to CacheLFSObjects): release assets and LFS
--     objects fetched from IPFS into the disk of Lfs. What IPFS delivers, completely or not, and what
--     the system refuses is a record (Source). The locks around a download are those of Locks and are
--     not in this model. Download.Packfiles (utils/cache.go, 276-446, and internal/app/common.go) has the packfiles
--     of a repository and of those it was forked from; its fuel bounds the depth of the forks, and more than the
--     id is enough by Download.Depth. It calls Sync for the references.
--   * Server (internal/app/server.go, auth.go, helpers.go): the routes of the HTTP server, from the text of
--     the path to the handler and the directory, and the request for credentials before a push. The
--     token is that of Auth; whether a directory exists is an argument.
--   * Calls: a run as the list of its calls and a result, with the lemmas on what a run without an error has
--     done; Push and Merge are written with it.
--   * Push (internal/app/git_http.go): what becomes of a push behind git (handle_git_receive_pack), and in
--     Push.Rpc the endpoints around it with their locks, texts and statuses, among them the text of an error
--     behind the output of git. The answers of the chain, of IPFS
--     and of the disk are a record (Env), those of the git processes another (Git).
--   * Release (handler/release.go): the proposal for the attachments of a release. A Go map is a list
--     of assets; the order of a walk over it is an argument. Release.View has what the chain makes of a proposal.
--   * Merge (handler/mergePullRequest.go, utils/pull.go): the quarantine repository and the merge
--     commands as the git processes that are run (Merge.Quarantine), and the handler around them with its locks
--     (Merge.Process), which pins and proposes as Push does, over the same record of answers. Merge.Crossed lets
--     two handlers take turns on the locks.
--
-- Numbers are natural numbers; an integer of the machine keeps its wrap-around written out. Ages
-- and times are in nanoseconds.
--
-- Not modelled: logging; the HTTP servers, the git subprocesses and the clients of the chain, of
-- IPFS and of the providers, which are arguments where a model needs their answers; the uploads of attachments
-- (internal/app/handler/attachment.go), the endpoints that only read a repository, the quarantine of the
-- merge check (CreateReadOnlyQuarantineRepo), the task updates (handler/pinata.go), the unmarshalling of the
-- other two storage events and the worker limit of the handlers, the locks of LFS objects
-- (route/lfs/locks.go), the wiring of the commands; and the generated mocks.
mod Prelude
pub mod Cost
mod Text
pub mod Page
pub mod Locks
pub mod Calls
pub mod Push
pub mod Merge
pub mod Release
pub mod Server
pub mod Sync
pub mod Merkle
pub mod Cache
pub mod Events
pub mod Download
pub mod Handlers
pub mod Hooks
pub mod Batch
pub mod App
pub mod Auth
pub mod Lfs
