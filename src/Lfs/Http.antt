-- ===== src/Lfs/Http.antt =====
-- What a handler of route/lfs answers: a status and a body, or the panic that net/http recovers.
use gitopia_storage.Prelude.{ℕ, String, Option, List}
use gitopia_storage.Text.{Bytes}

pub record BatchError : Type 0 where
  pub code : ℕ
  pub message : String

pub record BatchAction : Type 0 where
  pub href : Bytes
  pub header : List (String × String)

pub record BatchActions : Type 0 where
  pub download : Option BatchAction
  pub upload : Option BatchAction
  pub verify : Option BatchAction
  pub error : Option BatchError

pub record BatchObject : Type 0 where
  pub oid : Bytes
  pub size : ℕ
  pub actions : BatchActions

-- `error_text` is the text of an error of a library.
pub data Body : Type 0 where
  empty_body : Body
  message_body : String → Body
  error_text : Body
  object_body : Bytes → Body
  truncated_body : Body
  batch_body : List BatchObject → Body

pub data Reply : Type 0 where
  response : ℕ → Body → Reply
  reply_panics : Reply

abbrev pub status_ok : ℕ
status_ok = 200

abbrev pub status_bad_request : ℕ
status_bad_request = 400

abbrev pub status_unauthorized : ℕ
status_unauthorized = 401

abbrev pub status_payment_required : ℕ
status_payment_required = 402

abbrev pub status_not_found : ℕ
status_not_found = 404

abbrev pub status_unprocessable : ℕ
status_unprocessable = 422

abbrev pub status_internal : ℕ
status_internal = 500

abbrev pub internal_server_error : Reply
internal_server_error = response status_internal (message_body "Internal server error")
