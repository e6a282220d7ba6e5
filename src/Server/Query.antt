-- ===== src/Server/Query.antt =====
-- A push with a query in its URI, for which ServeHTTP of internal/app/server.go asks for nothing.
use gitopia_storage.Prelude.{[], ◌∷◌, ◌++◌}
use gitopia_storage.Text.{Bytes, codes, remove_first}
use gitopia_storage.Server.{
  Request, Server, Service, get_namespace_and_repo, post_rpc, receive_pack, service,
}

abbrev pub push_suffix : Bytes
push_suffix = b'/' ∷ receive_pack

-- A POST without credentials.
abbrev pub anonymous : Bytes → Bytes → Request
anonymous path uri = record {
  method = codes "POST";
  path = path;
  request_uri = uri;
  authorization = [];
}

abbrev upload_suffix : Bytes
upload_suffix = codes "/git-upload-pack"

abbrev pub push_service : Service
push_service = service (codes "POST") push_suffix post_rpc receive_pack

module _ {Tx : Type 0} (s : Server Tx) where
  -- The directory and the name that the server finds in the path.
  abbrev pub names : Bytes → Bytes × Bytes
  names x = get_namespace_and_repo (remove_first push_suffix (x ++ push_suffix))
