-- ===== src/Push/Answers.antt =====
-- What a client is told of its push, PostRPC of internal/app/git_http.go.
use gitopia_storage.Prelude.{
  ℕ, ◌≡◌, refl, ◌⊎◌, inl, inr, Bool, true, false, ◌&&◌, Option, none, some, List, [], ◌∷◌, ◌++◌,
  Result, ok, err, if◌then◌else◌,
}
use gitopia_storage.Text.{Bytes, codes, bytes_eq}
use gitopia_storage.Auth.{AuthError, parse_repository_id_from_uri}
use gitopia_storage.Push.{Env, Push, handle_git_receive_pack}
use gitopia_storage.Push.Rpc.{
  Effect, Git, Reply, effects_of, finish, internal_error, late_error, locked, post_rpc, run_service,
  settled, sub_command, under_lock, unlocked, with_id,
}
use gitopia_storage.Server.{GitRequest, receive_pack}

-- The push was not looked at: at most the lock was taken.
abbrev pub Unhandled : List Effect → Type 0
Unhandled effects = (effects ≡ []) ⊎ ((id : ℕ) × (effects ≡ locked id ∷ unlocked id ∷ []))

-- The push was handled under the lock, and the client is answered with the output of git and, behind it,
-- the text of an error; the status says nothing of that error unless git wrote nothing.
abbrev pub Told : Bytes → Push Unit → ℕ → List Effect × Reply → Type 0
Told output m id x =
    (x.0 ≡ locked id ∷ effects_of m.0 ++ unlocked id ∷ [])
    × (x.1.body ≡ output ++ late_error m)
    × ((x.1.status ≡ 200) ⊎ (output ≡ []))

settled-Told :
    (output : Bytes) (m : Push Unit) (id : ℕ) → Told output m id (under_lock id (settled output m))
settled-Told [] (calls, ok tt) id = (refl, refl, inl refl)
settled-Told [] (calls, err e) id = (refl, refl, inr refl)
settled-Told (c ∷ output) (calls, ok tt) id = (refl, refl, inl refl)
settled-Told (c ∷ output) (calls, err e) id = (refl, refl, inl refl)

unless_done :
    {A : Type 0} (P : A → Type 0) (b : Bool) (x y : A) → P x → P y → P (if b then x else y)
unless_done P true x y h k = h
unless_done P false x y h k = k

module _ {T P : Type 0} (e : Env T P) (g : Git) where
  abbrev pub handled : GitRequest → ℕ → Push Unit
  handled r id = handle_git_receive_pack e r.address id r.repo_path

  abbrev pub git_output : Bytes
  git_output = (g.serves (codes "receive-pack")).output

  -- One of the two.
  abbrev pub Outcome : GitRequest → Bytes → List Effect × Reply → Type 0
  Outcome r path x =
      Unhandled x.0
      ⊎ ((id : ℕ) × (parse_repository_id_from_uri path ≡ ok id)
          × Told git_output (handled r id) id x)

  run_service-Outcome :
      (r : GitRequest) (path : Bytes) (id : ℕ)
      → parse_repository_id_from_uri path ≡ ok id
      → Outcome r path (under_lock id (run_service e g receive_pack r id))
  unfolding run_service sub_command finish bytes_eq
  run_service-Outcome r path id h =
      let p = g.serves (codes "receive-pack") in
      unless_done (λ (x : List Effect × Reply). Outcome r path (under_lock id x))
        (g.caches id && (p.created && (p.started && g.reads_body))) _ _
        (unless_done (λ (x : List Effect × Reply). Outcome r path (under_lock id x))
          (p.copied && p.exits) _ _ (inr (id, h, settled-Told p.output (handled r id) id))
          (inl (inr (id, refl))))
        (inl (inr (id, refl)))

  with_id-Outcome :
      (r : GitRequest) (path : Bytes) (a : Result AuthError ℕ)
      → parse_repository_id_from_uri path ≡ a
      → Outcome r path
          (with_id internal_error a (λ id. under_lock id (run_service e g receive_pack r id)))
  with_id-Outcome r path (err x) h = inl (inl refl)
  with_id-Outcome r path (ok id) h = run_service-Outcome r path id h

  -- For every push, either it is not handled, where at most the lock is taken, or it is handled under
  -- the lock of the repository of the path, and the body of the answer is the output of git, followed by the text of an
  -- error where the handling failed; the status is then 200 also for a failed push, unless git wrote nothing.
  pub post_rpc-Outcome :
      (r : GitRequest) (path : Bytes) (compressed : Option Bool)
      → Outcome r path (post_rpc e g receive_pack r path compressed)
  unfolding post_rpc
  post_rpc-Outcome r path (some false) = inl (inl refl)
  post_rpc-Outcome r path (some true) =
      with_id-Outcome r path (parse_repository_id_from_uri path) refl
  post_rpc-Outcome r path none = with_id-Outcome r path (parse_repository_id_from_uri path) refl
