-- ===== src/Server/Tests.antt =====
-- Requests to the server, and the properties at concrete ones.
use gitopia_storage.Prelude.{◌≡◌, refl, true, false, none, some, [], ◌∷◌, ◌++◌}
use gitopia_storage.Text.{Bytes, codes, bytes_eq, cut_prefix}
use gitopia_storage.Auth.Permission.{user_owner}
use gitopia_storage.Auth.Validate.{Accepted}
use gitopia_storage.Server.{
  GitRequest, Request, Server, forbidden, post_rpc, receive_pack, serve_git, serve_http,
}
use gitopia_storage.Server.Authorised.{serve_http-Authorised, token}

abbrev server : Server Bytes
server = record {
  dir = codes "/repos";
  auth = true;
  auto_create = false;
  tokens = record {
    decode_tx = λ s. some s;
    verify = λ tx. bytes_eq tx (codes "{}");
    signers = λ tx. (codes "al" ∷ []) ∷ [];
  };
  chain = record {
    dials = true;
    repository =
        λ id. some (record { owner_type = user_owner; owner_id = codes "al"; collaborators = [] });
    dao_member_all = λ dao. none;
    collaborator_exists = λ collaborators address. none;
    push_branch = 2;
  };
  repo_exists = λ path. bytes_eq path (codes "/repos/3.git");
  init_works = λ name. false;
}

-- "al:{}" in base64
abbrev push : Bytes → Request
push query = record {
  method = codes "POST";
  path = codes "/3.git/git-receive-pack";
  request_uri = codes "/3.git/git-receive-pack" ++ query;
  authorization = codes "Basic YWw6e30=";
}

abbrev pushed : Bytes → GitRequest
pushed address = record {
  repo_name = codes "3.git";
  repo_path = codes "/repos/3.git";
  address = address;
}

served : serve_http server (push []) ≡ serve_git post_rpc receive_pack (pushed (codes "al"))
unfolding serve_http bytes_eq cut_prefix
served = refl

-- The route of an unlock is a text with a star, which no path of a lock has.
unlock_is_forbidden :
    serve_http server (record {
      method = codes "POST";
      path = codes "/3.git/info/lfs/locks/7/unlock";
      request_uri = [];
      authorization = [];
    })
    ≡ forbidden
unfolding serve_http bytes_eq cut_prefix
unlock_is_forbidden = refl

serve_http-Authorised_example :
    Accepted server.tokens server.chain
      (codes "/3.git/git-receive-pack")
      (token server (push []))
      (codes "al")
serve_http-Authorised_example =
    serve_http-Authorised server (push []) {g = pushed (codes "al")} refl refl served
