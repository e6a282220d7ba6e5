-- ===== src/Events.antt =====
-- handler/storage: the pin and unpin calls of the manager over its providers, and what the handlers
-- of the chain's events see of their surroundings. A run is the list of the calls that leave the
-- process, in order, and an error. What the chain, the git cache and the providers answer is an
-- argument (`Env`); it is fixed while one event is processed. Logging is left out.
pub mod Paths
pub mod Packfile
pub mod Extract
pub mod Lfs
pub mod Assets
pub mod Deleted
pub mod Pinning
pub mod Justified
mod Safe
pub mod Unpins
pub mod Replace
mod Tests
use gitopia_storage.Prelude.{
  ℕ, zero, suc, ◌+◌, Bool, true, false, not, ◌&&◌, Option, none, some, List, [], ◌∷◌, ◌++◌, Result,
  ok, err, ltb, ◌==◌, if◌then◌else◌,
}
use gitopia_storage.Text.{Bytes, codes}

-- A provider is a service on the network: it answers an error as text.
pub record Provider : Type 0 where
  pub name : Bytes
  pub pin_file : Bytes → Bytes → Result Bytes Bytes
  pub unpin_file : Bytes → Option Bytes

pub data Call : Type 0 where
  pinned : Bytes → Bytes → Bytes → Call
  unpinned : Bytes → Bytes → Call
  counted : Bytes → Option ℕ → Call
  rlocked runlocked : ℕ → Call
  cached_repository : ℕ → Call
  downloaded_lfs : Bytes → Bytes → Call
  cached_asset : ℕ → Bytes → Bytes → Call

-- `strings.Join(errors, "; ")`.
unfoldable pub join_errors : List Bytes → Bytes
join_errors [] = []
join_errors (e ∷ []) = e
join_errors (e ∷ es) = e ++ codes "; " ++ join_errors es

-- `fmt.Sprintf("%s: %v", provider.Name(), err)`.
unfoldable pub error_msg : Provider → Bytes → Bytes
error_msg p e = p.name ++ codes ": " ++ e

abbrev add_pin : Provider → Result Bytes Bytes → ℕ × List Bytes → ℕ × List Bytes
add_pin p (ok id) (successes, errors) = (suc successes, errors)
add_pin p (err e) (successes, errors) = (successes, errors ++ error_msg p e ∷ [])

unfoldable pub pin_each :
    Bytes → Bytes → List Provider → ℕ × List Bytes → List Call × (ℕ × List Bytes)
unfolding error_msg
pin_each path name [] s = ([], s)
pin_each path name (p ∷ ps) s =
    let (calls, t) = pin_each path name ps (add_pin p (p.pin_file path name) s) in
    (pinned p.name path name ∷ calls, t)

abbrev pub is_nil : {A : Type 0} → List A → Bool
is_nil [] = true
is_nil (x ∷ xs) = false

-- `Manager.PinFile`.
unfoldable pub pin_file : List Provider → Bytes → Bytes → List Call × Option Bytes
unfolding pin_each join_errors
pin_file providers path name =
    let (calls, (successes, errors)) = pin_each path name providers (0, []) in
    if is_nil providers then ([], none) else (
      calls,
      if successes == 0 && not (is_nil errors)
          then some (codes "all storage providers failed: " ++ join_errors errors)
          else none,
    )

-- `Manager.UnpinFile`: the errors are logged only.
unfoldable pub unpin_file : List Provider → Bytes → List Call × Option Bytes
unpin_file [] name = ([], none)
unpin_file (p ∷ ps) name = let rest = unpin_file ps name in (unpinned p.name name ∷ rest.0, none)

unfoldable pub has_providers : List Provider → Bool
has_providers [] = false
has_providers (p ∷ ps) = true

pub record Env : Type 0 where
  pub providers : List Provider
  pub ref_count : Bytes → Option ℕ
  pub cache_repository : ℕ → Bool
  pub is_lfs_cached : Bytes → Bool
  pub repos_dir : Bytes
  pub lfs_dir : Bytes
  pub attachment_dir : Bytes

pub data HandlerError : Type 0 where
  ref_count_failed cache_failed : HandlerError

abbrev pub Run : Type 0
Run = List Call × Option HandlerError

abbrev pub done : Run
done = ([], none)

-- One call, and what follows.
abbrev pub calls_first : List Call → Run → Run
calls_first calls (more, e) = (calls ++ more, e)

-- What follows, unless there was an error: the early return.
abbrev pub and_then : Run → Run → Run
and_then (calls, some e) next = (calls, some e)
and_then (calls, none) (more, e) = (calls ++ more, e)

abbrev counted_then : Bytes → Option ℕ → (ℕ → Run) → Run
counted_then cid none next = (counted cid none ∷ [], some ref_count_failed)
counted_then cid (some n) next = calls_first (counted cid (some n) ∷ []) (next n)

-- `StorageCidReferenceCount`, with an early return where it fails.
unfoldable pub with_count : Env → Bytes → (ℕ → Run) → Run
with_count env cid next = counted_then cid (env.ref_count cid) next

-- A pin or an unpin whose error is logged only.
unfoldable pub pin_logged : Env → Bytes → Bytes → Run
unfolding pin_file
pin_logged env path name = ((pin_file env.providers path name).0, none)

unfoldable pub unpin_logged : Env → Bytes → Run
unfolding unpin_file
unpin_logged env name = ((unpin_file env.providers name).0, none)
