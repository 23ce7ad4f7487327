-- ===== src/Dispatcher/Forward.antt =====
-- `_send_and_stream`: what httpx is given to send, and what goes back to the client. The request
-- that httpx makes of its arguments is its own; a body is the list of its chunks.
use adaptive_admission_contr.Base.{
  ℕ, ◌≡◌, if◌then◌else◌, Option, none, some, List, [], ◌∷◌, Text, ◌==◌, codes, any, lower,
}
use adaptive_admission_contr.Dispatcher.{strip_hop_by_hop}
use adaptive_admission_contr.Dispatcher.Headers.{values}

pub record ClientRequest : Type 0 where
  pub method : Text
  pub path : Text
  pub query : Text
  pub headers : List (Text × Text)
  pub body : List Text

-- What the client of httpx is given: the url of the instance, the path and the query for
-- `copy_with`, and the arguments of `build_request` besides the url.
pub record UpstreamArguments : Type 0 where
  pub instance_url : Text
  pub method : Text
  pub path : Text
  pub query : Option Text
  pub headers : List (Text × Text)
  pub content : List Text

-- `request.url.query.encode() if request.url.query else None`
query_of : Text → Option Text
query_of [] = none
query_of (c ∷ s) = some (c ∷ s)

-- The arguments of `httpx.URL(instance.url).copy_with(…)` and of `build_request`.
pub upstream_arguments : (instance_url : Text) → ClientRequest → UpstreamArguments
unfolding query_of strip_hop_by_hop
upstream_arguments instance_url r = record {
  instance_url = instance_url;
  method = r.method;
  path = r.path;
  query = query_of r.query;
  headers = strip_hop_by_hop r.headers;
  content = r.body;
}

-- What the instance answers, with repeated headers apart, and what the client gets.
pub record Streamed : Type 0 where
  pub status_code : ℕ
  pub headers : List (Text × Text)
  pub body : List Text

pub stream_response : Streamed → Streamed
unfolding strip_hop_by_hop
stream_response upstream = record upstream { headers = strip_hop_by_hop upstream.headers }

-- The names of the headers that belong to one connection.
abbrev pub connection_names : List Text
connection_names =
    codes "connection"
    ∷ codes "keep-alive"
    ∷ codes "proxy-authenticate"
    ∷ codes "proxy-authorization"
    ∷ codes "te"
    ∷ codes "trailer"
    ∷ codes "transfer-encoding"
    ∷ codes "upgrade"
    ∷ codes "host"
    ∷ []

-- Under the name k, no value if the name is one of them, in any case of its letters, and else all.
abbrev pub passed_on : Text → List (Text × Text) → List Text
passed_on k items = if any (λ h. h == lower k) connection_names then [] else values k items

-- The request is the client's. No query is an empty one.
pub record IsForwarded (instance_url : Text) (r : ClientRequest) (u : UpstreamArguments) (k : Text)
    : Type 0 where
  pub at_instance : u.instance_url ≡ instance_url
  pub method : u.method ≡ r.method
  pub path : u.path ≡ r.path
  pub query : elim u.query [ none ↦ [] | some q ↦ q ] ≡ r.query
  pub content : u.content ≡ r.body
  pub values_of : values k u.headers ≡ passed_on k r.headers

-- An answer is the instance's, but for the headers of the connection.
pub record IsReturned (upstream to_client : Streamed) (k : Text) : Type 0 where
  pub status_code : to_client.status_code ≡ upstream.status_code
  pub body : to_client.body ≡ upstream.body
  pub values_of : values k to_client.headers ≡ passed_on k upstream.headers
