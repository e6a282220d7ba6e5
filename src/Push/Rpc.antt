-- ===== src/Push/Rpc.antt =====
-- GetInfoRefs and PostRPC of internal/app/git_http.go, with packLine, packFlush and subCommand of
-- helpers.go. How git and the reading of the body end is an argument; the lock of the repository is
-- a call. The status is that of the first write, as an answer cannot change it.
use gitopia_storage.Prelude.{
  ℕ, ◌+◌, ◌/◌, ◌%◌, Bool, true, false, ◌&&◌, ◌||◌, Option, none, some, List, [], ◌∷◌, ◌++◌, Result,
  ok, err, length, ltb, if◌then◌else◌,
}
use gitopia_storage.Text.{Bytes, codes, bytes_eq, cut_prefix}
use gitopia_storage.Auth.{AuthError, parse_repository_id_from_uri}
use gitopia_storage.Push.{Call, Env, Push, handle_git_receive_pack}
use gitopia_storage.Server.{GitRequest, receive_pack}

-- How a git process ends: what it wrote, whether all of it was read, and its exit.
pub record Process : Type 0 where
  pub created : Bool
  pub started : Bool
  pub output : Bytes
  pub copied : Bool
  pub exits : Bool

pub record Git : Type 0 where
  pub caches : ℕ → Bool
  pub advertises : Bytes → Process
  pub serves : Bytes → Process
  pub reads_body : Bool

pub data Effect : Type 0 where
  locked : ℕ → Effect
  unlocked : ℕ → Effect
  pushed : Call → Effect

pub record Reply : Type 0 where
  pub status : ℕ
  pub body : Bytes

-- `fail500`: the text of http.Error, with its newline.
abbrev pub error_text : Bytes
error_text = codes "Internal server error\n"

abbrev pub internal_error : Reply
internal_error = record { status = 500; body = error_text }

abbrev hex_digit : ℕ → ℕ
hex_digit n = if ltb n 10 then 48 + n else 87 + n

-- `%04x` of a length below 65536, and the text.
unfoldable pub pack_line : Bytes → Bytes
pack_line s =
    let n = length s + 4 in
    hex_digit (n / 4096 % 16)
    ∷ hex_digit (n / 256 % 16)
    ∷ hex_digit (n / 16 % 16)
    ∷ hex_digit (n % 16)
    ∷ s

abbrev pub pack_flush : Bytes
pack_flush = codes "0000"

abbrev rest_or : Bytes → Option Bytes → Bytes
rest_or s none = s
rest_or s (some rest) = rest

-- `strings.TrimPrefix(rpc, "git-")`.
unfoldable pub sub_command : Bytes → Bytes
unfolding cut_prefix
sub_command rpc = rest_or rpc (cut_prefix (codes "git-") rpc)

-- The lock is held until the handler returns.
abbrev pub under_lock : ℕ → List Effect × Reply → List Effect × Reply
under_lock id (effects, reply) = (locked id ∷ effects ++ unlocked id ∷ [], reply)

-- What follows an id that can be read.
abbrev pub with_id : Reply → Result AuthError ℕ → (ℕ → List Effect × Reply) → List Effect × Reply
with_id failed (err e) f = ([], failed)
with_id failed (ok id) f = f id

abbrev advertise_error : Reply
advertise_error = record { status = 500; body = codes "Internal Server Error\n" }

unfoldable pub advertise : Git → Bytes → ℕ → List Effect × Reply
unfolding pack_line sub_command
advertise g rpc id =
    let process = g.advertises (sub_command rpc) in
    if g.caches id && (process.created && process.started)
    then (
      [],
      record {
        status = 200;
        body = pack_line (codes "# service=" ++ rpc ++ 10 ∷ []) ++ pack_flush ++ process.output;
      },
    )
    else ([], advertise_error)

unfoldable pub get_info_refs : Git → Bytes → Bytes → List Effect × Reply
unfolding bytes_eq parse_repository_id_from_uri advertise
get_info_refs g rpc path =
    if bytes_eq rpc (codes "git-upload-pack") || bytes_eq rpc receive_pack
    then with_id advertise_error (parse_repository_id_from_uri path)
        (λ id. under_lock id (advertise g rpc id))
    else ([], record { status = 404; body = codes "Not Found\n" })

abbrev pub effects_of : List Call → List Effect
effects_of [] = []
effects_of (c ∷ calls) = pushed c ∷ effects_of calls

-- What `fail500` writes behind the output of git.
abbrev pub late_error : Push Unit → Bytes
late_error (calls, ok tt) = []
late_error (calls, err e) = error_text

-- The status is that of the first write: an error sets it only where git wrote nothing.
abbrev pub settled : Bytes → Push Unit → List Effect × Reply
settled [] (calls, err e) = (effects_of calls, internal_error)
settled output (calls, r) =
    (effects_of calls, record { status = 200; body = output ++ late_error (calls, r) })

module _ {T P : Type 0} (e : Env T P) (g : Git) where
  -- After the output of git.
  unfoldable pub finish : Bytes → GitRequest → ℕ → Bytes → List Effect × Reply
  unfolding handle_git_receive_pack bytes_eq
  finish service r id output =
      if bytes_eq service receive_pack
      then settled output (handle_git_receive_pack e r.address id r.repo_path)
      else ([], record { status = 200; body = output })

  unfoldable pub run_service : Bytes → GitRequest → ℕ → List Effect × Reply
  unfolding sub_command finish
  run_service service r id =
      let process = g.serves (sub_command service) in
      if g.caches id && (process.created && (process.started && g.reads_body))
      then (if process.copied && process.exits
          then finish service r id process.output
          else ([], record { status = 200; body = process.output }))
      else ([], internal_error)

  -- `gzip` is whether the body is compressed and can be read.
  unfoldable pub post_rpc : Bytes → GitRequest → Bytes → Option Bool → List Effect × Reply
  unfolding run_service parse_repository_id_from_uri
  post_rpc service r path (some false) = ([], internal_error)
  post_rpc service r path (some true) =
      with_id internal_error (parse_repository_id_from_uri path)
        (λ id. under_lock id (run_service service r id))
  post_rpc service r path none =
      with_id internal_error (parse_repository_id_from_uri path)
        (λ id. under_lock id (run_service service r id))
