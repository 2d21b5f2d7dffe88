-- ===== src/Tests/RestTests.antt =====
-- Runs of the model of control/rest/server.go at concrete inputs.
use zju_portal_core.Base.{
  ℕ, ◌≡◌, refl, true, false, none, some, [], ◌∷◌, String, ◌⊎◌, ◌==◌, string_eq, inr, if◌then◌else◌,
}
use zju_portal_core.Core.Error.{wrap_error, invalid_request}
use zju_portal_core.Control.Calls.{
  session_stopped, call, call_method, find_method, with_params, done_with,
}
use zju_portal_core.Control.Rest.{
  get, put, delete, handles_session, Request, Server, json_reply, end_of_body, write_error, replied,
  call_context, call_session, handle_one_session, handle_parts, with_session_id, handle_split,
  handle_session, handle, authorized, same_origin, serve_http, handlers,
}
use zju_portal_core.Control.Rest.Guarded.{IsAdmitted, IsDenied, serve_http-IsAdmitted}
use zju_portal_core.Control.Rest.Reading.{serve_http-get}
use zju_portal_core.Control.Rest.Replies.{IsReply}
use zju_portal_core.Control.Rest.Served.{serve_http-IsReply}
use zju_portal_core.Tests.ControlTests.{manager, decoder, info}

-- A library that knows the paths of one session.
abbrev server : Server ℕ String
server = record {
  manager = manager;
  decoder = decoder;
  info = info;
  library = record {
    mux = λ registered path.
        if path == "/api/v1/sessions/default" then some handles_session else none;
    trim_prefix = λ text prefix.
        if text == "Bearer secret"
        then "secret"
        else if prefix == "Bearer "
        then text
        else "default";
    split = λ text separator. text ∷ [];
    path_unescape = λ text. inr text;
    parse_origin = λ text. inr ("http", text);
    decode_first = λ target body. inr (body, "");
    decode_rest = λ rest. end_of_body;
    encode = λ params. "params";
  };
  token = "secret";
}

abbrev stop_request : Request
stop_request = record {
  method = delete;
  path = "/api/v1/sessions/default";
  host = "localhost:8080";
  origin = "";
  authorization = "Bearer secret";
  access_token = "";
  body = "";
  has_flusher = true;
}

-- A DELETE stops the session; without the token it does not.
session-stopped : serve_http server stop_request 4 ≡ (
  5,
  json_reply (record {
    status = 200;
    allow = [];
    no_store = false;
    result = some session_stopped;
    error = none;
  }),
)
unfolding serve_http authorized same_origin handle handle_session handle_split with_session_id
    handle_parts handle_one_session call_session call_context call call_method find_method
    with_params done_with replied
session-stopped = refl

without-token :
    serve_http server (record stop_request { authorization = "Bearer guess" }) 4
    ≡ (4, write_error 401 (wrap_error invalid_request "unauthorized control request" false none))
unfolding serve_http authorized
without-token = refl

serve_http-IsAdmitted_example :
    (IsAdmitted server stop_request
      × (serve_http server stop_request 4
          ≡ handle server (server.library.mux handlers stop_request.path) stop_request 4))
    ⊎ (¬ IsAdmitted server stop_request × IsDenied 4 (serve_http server stop_request 4))
serve_http-IsAdmitted_example = serve_http-IsAdmitted server stop_request 4

serve_http-get_example : (serve_http server (record stop_request { method = get }) 4).0 ≡ 4
serve_http-get_example = serve_http-get server 4 (record stop_request { method = get }) refl

serve_http-IsReply_example :
    IsReply put (serve_http server (record stop_request { method = put }) 4).1
serve_http-IsReply_example = serve_http-IsReply server 4 (record stop_request { method = put })
