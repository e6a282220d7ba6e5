-- ===== src/Cache/Lifecycle.antt =====
-- utils/cache_manager.go: starting and stopping the routine that clears the caches. The channel that
-- stops it is made once, by `NewCacheManager`.
use gitopia_storage.Prelude.{
  ◌≡◌, refl, sym, ap, Bool, true, false, Option, none, some, Result, ok, err,
}

pub record CacheManager : Type 0 where
  pub stop_closed : Bool
  pub is_running : Bool

pub data StartError : Type 0 where
  already_running : StartError

unfoldable pub new_cache_manager : CacheManager
new_cache_manager = record { stop_closed = false; is_running = false }

unfoldable pub start : CacheManager → Result StartError CacheManager
start cm = elim cm.is_running [
  | true ↦ err already_running
  | false ↦ ok (record cm { is_running = true })
]

-- `none` is the panic of closing a closed channel.
unfoldable pub stop : CacheManager → Option CacheManager
stop cm = elim cm.is_running [
  | false ↦ some cm
  | true ↦ elim cm.stop_closed [
    | true ↦ none
    | false ↦ some (record { stop_closed = true; is_running = false })
  ]
]

-- Whether the routine, at its `select`, can only return: its channel is closed.
unfoldable pub routine_returns : CacheManager → Bool
routine_returns cm = cm.stop_closed

value_or : CacheManager → Result StartError CacheManager → CacheManager
value_or cm (ok started) = started
value_or cm (err e) = cm

-- A manager that is started once runs, refuses a second start, and stops, also twice. But if it is
-- started again after that, it counts as running while its routine can return at once, and the next
-- stop panics.
pub restart_lem :
    (first : CacheManager)
    → start new_cache_manager ≡ ok first
    → (routine_returns first ≡ false)
      × (start first ≡ err already_running)
      × ((stopped : CacheManager) × (stop first ≡ some stopped)
          × (stop stopped ≡ some stopped)
          × ((again : CacheManager) × (start stopped ≡ ok again)
              × (again.is_running ≡ true)
              × (routine_returns again ≡ true)
              × (stop again ≡ none)))
unfolding start stop new_cache_manager routine_returns value_or
restart_lem first h =
    let running : CacheManager = record { stop_closed = false; is_running = true } in
    let stopped : CacheManager = record { stop_closed = true; is_running = false } in
    let again : CacheManager = record { stop_closed = true; is_running = true } in
    let e : running ≡ first = ap (value_or first) h in
    rw (sym e) (refl, refl, (stopped, refl, refl, (again, refl, refl, refl, refl)))
