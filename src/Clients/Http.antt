-- ===== src/Clients/Http.antt =====
-- HTTP as the clients use it, and the packages that they call (clients.go, lines 478 to 522). A header is a map, set
-- under canonical names only. `W` is the state of the world outside.
use swf4go.Prelude.{ℕ, String, []}
use swf4go.Prelude.Map.{Map, insert}
use swf4go.Go.{Result, ok, err, Attempt, returned}

pub record HttpRequest : Type 0 where
  pub method : String
  pub url : String
  pub header : Map String
  pub body : String

pub record HttpResponse : Type 0 where
  pub status_code : ℕ
  pub body : String

-- *http.Client
pub record HttpClient {ℓ} (W : Type ℓ) : Type ℓ where
  pub send : HttpRequest → W → Attempt HttpResponse × W

-- aws4.Keys and aws4.Service
pub record Keys : Type 0 where
  pub access_key : String
  pub secret_key : String

pub record Service : Type 0 where
  pub name : String
  pub region : String

-- What is called of the packages outside: the clock, the parser of URLs, aws4's Sign, and the dumps of
-- `httputil`.
pub record Outside {ℓ} (W : Type ℓ) : Type ℓ where
  pub date : W → String
  pub parse_url : String → Attempt String
  pub sign : Service → Keys → HttpRequest → Attempt HttpRequest
  pub dump_request_out : HttpRequest → Attempt String
  pub dump_response : HttpResponse → Attempt String

-- if err != nil { return nil, err }
infixl 5 ◌>>=◌
abbrev pub ◌>>=◌ {κ ℓ} :
    {Later : Type κ} {Now : Type ℓ} → Result Now → (Now → Result Later) → Result Later
err problem >>= next = err problem
ok value >>= next = next value

-- http.NewRequest
unfoldable pub new_request {ℓ} :
    {W : Type ℓ} → Outside W → String → String → String → Result HttpRequest
new_request outside method url body = do
  parsed ← returned (outside.parse_url url)
  ok (record { method = method; url = parsed; header = []; body = body })

-- req.Header.Set
unfoldable pub set_header : String → String → HttpRequest → HttpRequest
unfolding insert
set_header key value r = record {
  method = r.method;
  url = r.url;
  header = insert key value r.header;
  body = r.body;
}
