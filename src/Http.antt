-- ===== src/Http.antt =====
-- Of net/http, what handler.go and net.go use, and headers.go: a request by what is read of it, and
-- the writer of a response. Header names are canonical, as the methods of http.Header make them; a
-- header's value is kept as what it is printed from.
pub mod Sent
use inngestgo.Prelude.{
  ℕ, String, Bool, Option, none, some, List, [], ◌∷◌, ◌++◌, ℤ, pos, negsuc, Map, lookup, insert,
  ltb, length, or_else, if◌then◌else◌,
}
use inngestgo.Errors.{Error, text}
use inngestgo.Results.{Result, ok, err}
use inngestgo.Signature.Query.{Bytes}

pub data HeaderValue : Type 0 where
  words : String → HeaderValue
  -- a signature, or a key behind "Bearer "
  bytes : Bytes → HeaderValue
  -- a time, printed by time.RFC3339
  time : ℕ → HeaderValue

abbrev pub Headers : Type 0
Headers = Map (List HeaderValue)

-- Header.Set, Header.Add
unfoldable pub set_header : String → HeaderValue → Headers → Headers
set_header key v hs = insert key (v ∷ []) hs

unfoldable pub add_header : String → HeaderValue → Headers → Headers
add_header key v hs = insert key (or_else (lookup key hs) [] ++ v ∷ []) hs

abbrev pub authorization : String
authorization = "Authorization"

abbrev pub content_type : String
content_type = "Content-Type"

abbrev pub env_header : String
env_header = "X-Inngest-Env"

abbrev pub expected_server_kind : String
expected_server_kind = "X-Inngest-Expected-Server-Kind"

abbrev pub no_retry_header : String
no_retry_header = "X-Inngest-No-Retry"

abbrev pub retry_after_header : String
retry_after_header = "Retry-After"

abbrev pub sdk_header : String
sdk_header = "X-Inngest-Sdk"

abbrev pub signature_header : String
signature_header = "X-Inngest-Signature"

abbrev pub sync_kind_header : String
sync_kind_header = "X-Inngest-Sync-Kind"

abbrev pub user_agent : String
user_agent = "User-Agent"

abbrev pub header_value_sdk : String
header_value_sdk = "go:v0.8.0"

-- SetBasicRequestHeaders, and SetBasicResponseHeaders on the headers of the writer.
unfoldable pub set_basic_headers : Headers → Headers
unfolding set_header
set_basic_headers hs = set_header user_agent (words header_value_sdk) (
    set_header sdk_header (words header_value_sdk)
      (set_header content_type (words "application/json") hs))

-- http.ResponseWriter: the headers so far, the status with the headers that were sent with it, and
-- the parts of the body.
pub record ResponseWriter {ℓ} (P : Type ℓ) : Type ℓ where
  pub headers : Headers
  pub sent : Option (ℕ × Headers)
  pub body : List P

module _ {ℓ} {P : Type ℓ} where
  abbrev pub new_writer : ResponseWriter P
  new_writer = record { headers = []; sent = none; body = [] }

  -- WriteHeader: only the first call counts.
  unfoldable pub write_header : ℕ → ResponseWriter P → ResponseWriter P
  write_header status w = elim w.sent [
    | none ↦ record w { sent = some (status, w.headers) }
    | some s ↦ w
  ]

  -- Write, which sends 200 first if no status was sent.
  unfoldable pub write : P → ResponseWriter P → ResponseWriter P
  unfolding write_header
  write p w = let opened = write_header 200 w in record opened { body = opened.body ++ p ∷ [] }

  -- json.NewEncoder(w).Encode(v), by what the marshalling and the writing come to.
  unfoldable pub encode :
      Result (Unit {0})
      → Result (Unit {0})
      → P
      → ResponseWriter P
      → Result (Unit {0}) × ResponseWriter P
  unfolding write
  encode (err e) written p w = (err e, w)
  encode (ok t) (err e) p w = (err e, write_header 200 w)
  encode (ok t) (ok u) p w = (ok tt, write p w)

  -- w.Header().Set(key, v), w.Header().Add(key, v)
  abbrev pub set : String → HeaderValue → ResponseWriter P → ResponseWriter P
  set key v w = record w { headers = set_header key v w.headers }

  abbrev pub add : String → HeaderValue → ResponseWriter P → ResponseWriter P
  add key v w = record w { headers = add_header key v w.headers }

-- http.Request: the signature is empty if the header is missing, `path` is the escaped path, and a
-- body gives its bytes and then the error of its reader, if there is one.
pub record HttpRequest : Type 0 where
  pub method : String
  pub signature : Bytes
  pub sync_kind : String
  pub server_kind : String
  pub tls : Bool
  pub host : String
  pub path : String
  pub request_uri : String
  pub query : Map (List String)
  pub body : Bytes
  pub body_error : Option Error

-- Values.Get
unfoldable pub get_query : String → Map (List String) → String
get_query key q = elim (or_else (lookup key q) []) [ [] ↦ "" | v ∷ vs ↦ v ]

abbrev pub limit_of : ℤ → ℕ
limit_of (pos n) = n
limit_of (negsuc n) = 0

-- io.ReadAll(http.MaxBytesReader(w, r.Body, limit))
unfoldable pub read_limited : ℤ → HttpRequest → Result Bytes
read_limited limit r =
    if ltb (limit_of limit) (length r.body)
    then err (text "http: request body too large")
    else elim r.body_error [ none ↦ ok r.body | some e ↦ err e ]
