-- ===== src/Cli/Transport.antt =====
-- internal/cli/transport.go: where oak finds oakd, and the token that it sends.
use oakberryio.Prelude.{Bool, Option, none, some, ◌++◌, Text, t, ◌==◌, text_eq, if◌then◌else◌}
use oakberryio.Prelude.Results.{Result, ok, err, no_home, no_token, request_failed, ◌>>=◌}
use oakberryio.Text.Trim.{trim_space, trim_slashes}
use oakberryio.Paths.{join}
use oakberryio.Wire.{Method, Request, Response}

-- What the process finds around it: os.Getenv, os.UserHomeDir, os.ReadFile, and what net/url and
-- net/http do with a request.
pub record Surroundings : Type 0 where
  pub getenv : Text → Text
  pub home : Option Text
  pub read_file : Text → Option Text
  pub valid_url : Text → Bool
  pub path_escape : Text → Text
  pub send : Request → Option Response

-- `socket` is empty where oak speaks HTTPS.
pub record Transport : Type 0 where
  pub base_url : Text
  pub token : Text
  pub socket : Text

unfoldable pub remote : Text → Text → Transport
remote api token = record { base_url = trim_slashes api; token = token; socket = t "" }

unfoldable pub local_socket : Text → Transport
local_socket socket = record {
  base_url = t "http://unix";
  token = t "";
  socket = if socket == t "" then t "/run/oak/oak.sock" else socket;
}

-- The header Authorization, where a token is configured
unfoldable pub authorization : Text → Text
authorization token = if token == t "" then t "" else t "Bearer " ++ token

module _ (here : Surroundings) where
  unfoldable pub token_file : Text → Result Text
  token_file home = elim (here.read_file (join home (t ".oak/token"))) [
    | none ↦ err no_token
    | some bytes ↦ ok (trim_space bytes)
  ]

  unfoldable pub api_token : Result Text
  unfolding token_file
  api_token =
      if here.getenv (t "OAK_TOKEN") == t ""
      then elim here.home [ none ↦ err no_home | some home ↦ token_file home ]
      else ok (here.getenv (t "OAK_TOKEN"))

  unfoldable pub new_transport : Result Transport
  new_transport =
      if here.getenv (t "OAK_API") == t ""
      then ok (local_socket (here.getenv (t "OAK_SOCKET")))
      else api_token >>= λ token. ok (remote (here.getenv (t "OAK_API")) token)

  unfoldable pub new_request : Transport → Method → Text → Text → Result Request
  new_request tr method path body =
      if here.valid_url (tr.base_url ++ path)
      then ok (record {
        method = method;
        path = path;
        query = t "";
        authorization = authorization tr.token;
        dockerfile = t "";
        build_args = t "";
        body = body;
      })
      else err request_failed

  -- Do
  unfoldable pub do_request : Request → Result Response
  do_request req = elim (here.send req) [ none ↦ err request_failed | some resp ↦ ok resp ]
