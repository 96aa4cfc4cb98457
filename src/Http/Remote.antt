-- ===== src/Http/Remote.antt =====
-- r402-http/src/server/facilitator.rs: a client of a remote facilitator, with its cache of what that
-- facilitator supports.
pub mod Caching
pub mod Answers
use Prim.Native.Char.{Char, code}
use Prim.Native.String.{◌++◌}
use r.Base.{
  String, ℕ, ◌+◌, Bool, true, false, ◌&&◌, Option, none, some, List, [], Outcome, ok, err, map_err,
  ltb, ◌==◌, if◌then◌else◌,
}
use r.Base
use mathlib.Core.List
use r.Base.Text.{is_empty}
use r.Base.Actions.{Action, ◌>>=◌, lift, with_error}
use r.Proto.V2.{SupportedResponse}
use r.Proto.Verify.{VerifyResponse}
use r.Proto.Settle.{SettleResponse}
use r.Facilitator.{Facilitator, other}

-- `FacilitatorClientError`; the errors of the libraries count by their texts.
pub data FacilitatorClientError : Type 0 where
  -- the context and the source
  url_parse http json_deserialization response_body_read : String → String → FacilitatorClientError
  -- the context, the status and the body
  http_status : String → ℕ → String → FacilitatorClientError

pub data Method : Type 0 where
  get post : Method

-- A request as `reqwest` builds it; timeouts are in nanoseconds.
pub record Request (Url Value : Type 0) : Type 0 where
  pub method : Method
  pub url : Url
  pub json : Option Value
  pub headers : List (String × String)
  pub timeout : Option ℕ

-- What the code calls of `reqwest`, `url` and `http`, with the clock.
pub record Network (World Value : Type 0) : Type 1 where
  pub Url : Type 0
  pub Response : Type 0
  pub parse : String → Outcome Url String
  pub join : Url → String → Outcome Url String
  pub send : Request Url Value → Action World String Response
  pub status : Response → ℕ
  pub text : Response → Action World String String
  -- the types that a response's body is read as, and `Response::json`
  pub DeserializeOwned : Type 0 → Type 0
  pub verify_response : DeserializeOwned VerifyResponse
  pub settle_response : DeserializeOwned (SettleResponse Value)
  pub supported_response : DeserializeOwned (SupportedResponse Value)
  pub json : {R : Type 0} → DeserializeOwned R → Response → Action World String R
  -- `Display` of a status code
  pub status_text : ℕ → String
  pub now : World → ℕ

-- `SupportedCacheState`, with times in nanoseconds
pub record SupportedCacheState (Value : Type 0) : Type 0 where
  pub response : SupportedResponse Value
  pub expires_at : ℕ

-- The state that the clones of a cache share.
abbrev pub Cached : Type 0 → Type 0
Cached Value = Option (SupportedCacheState Value)

-- `FacilitatorClient`; its cache stands apart, but for the time to live.
pub record FacilitatorClient (Url : Type 0) : Type 0 where
  pub base_url : Url
  pub verify_url : Url
  pub settle_url : Url
  pub supported_url : Url
  pub headers : List (String × String)
  pub timeout : Option ℕ
  pub ttl : ℕ

-- `DEFAULT_SUPPORTED_CACHE_TTL`: ten minutes
abbrev pub default_supported_cache_ttl : ℕ
default_supported_cache_ttl = 600000000000

-- `str::trim_end_matches` at a character
unfoldable pub trim_end_matches : Char → String → String
trim_end_matches c String.[] = String.[]
trim_end_matches c (String.◌∷◌ d s) =
    let rest = trim_end_matches c s in
    if is_empty rest && code c == code d then String.[] else String.◌∷◌ d rest

-- `if let Some(a) = …`, else what there was
abbrev or_else : Option ℕ → Option ℕ → Option ℕ
or_else none old = old
or_else (some a) old = some a

-- An operation that leaves the cache alone.
abbrev pub on_world :
    {World Value E A : Type 0} → Action World E A → Action (Cached Value × World) E A
on_world m (state, w) = let done = m w in (done.0, (state, done.1))

-- the status 200
abbrev pub status_ok : ℕ
status_ok = 200

module _ {World Value : Type 0} (network : Network World Value) where
  open network use {Url, Response, DeserializeOwned, status}

  -- `SupportedCache::get`, `set` and `clear`
  abbrev unexpired : ℕ → Cached Value → Option (SupportedResponse Value)
  unexpired now none = none
  unexpired now (some cache) = if ltb now cache.expires_at then some cache.response else none

  unfoldable pub cache_get : Cached Value → World → Option (SupportedResponse Value)
  cache_get state w = unexpired (network.now w) state

  unfoldable pub cache_set : ℕ → SupportedResponse Value → World → Cached Value
  cache_set ttl response w = some (record { response = response; expires_at = network.now w + ttl })

  unfoldable pub cache_clear : Cached Value → Cached Value
  cache_clear state = none

  -- A new client's cache is empty.
  unfoldable pub try_new : Url → Outcome (FacilitatorClient Url) FacilitatorClientError
  try_new base_url =
      Base.◌>>=◌
        (map_err (url_parse "Failed to construct ./verify URL") (network.join base_url "./verify"))
        (λ verify_url.
          Base.◌>>=◌
            (map_err (url_parse "Failed to construct ./settle URL")
              (network.join base_url "./settle"))
            (λ settle_url.
              Base.◌>>=◌
                (map_err (url_parse "Failed to construct ./supported URL")
                  (network.join base_url "./supported"))
                (λ supported_url. ok (record {
                  base_url = base_url;
                  verify_url = verify_url;
                  settle_url = settle_url;
                  supported_url = supported_url;
                  headers = [];
                  timeout = none;
                  ttl = default_supported_cache_ttl;
                }))))

  -- `TryFrom<&str>`
  unfoldable pub try_from : String → Outcome (FacilitatorClient Url) FacilitatorClientError
  try_from value =
      Base.◌>>=◌
        (map_err (url_parse "Failed to parse base url")
          (network.parse (trim_end_matches "/" value ++ "/")))
        try_new

  unfoldable pub with_headers :
      FacilitatorClient Url → List (String × String) → FacilitatorClient Url
  with_headers client headers = record client { headers = headers }

  unfoldable pub with_timeout : FacilitatorClient Url → ℕ → FacilitatorClient Url
  with_timeout client timeout = record client { timeout = some timeout }

  unfoldable pub with_supported_cache_ttl : FacilitatorClient Url → ℕ → FacilitatorClient Url
  with_supported_cache_ttl client ttl = record client { ttl = ttl }

  unfoldable pub without_supported_cache : FacilitatorClient Url → FacilitatorClient Url
  without_supported_cache client = with_supported_cache_ttl client 0

  -- The request with the client's headers and timeout
  abbrev pub with_settings : FacilitatorClient Url → Request Url Value → Request Url Value
  with_settings client req = record req {
    headers = List.◌++◌ req.headers client.headers;
    timeout = or_else client.timeout req.timeout;
  }

  -- How a response is read
  unfoldable pub read_response :
      {R : Type 0} → DeserializeOwned R → String → Response → Action World FacilitatorClientError R
  read_response decode context res =
      if status res == status_ok
      then with_error (json_deserialization context) (network.json decode res)
      else (do
        body ← with_error (response_body_read context) (network.text res)
        lift (err (http_status context (status res) body)))

  unfoldable pub send_and_parse :
      {R : Type 0}
      → FacilitatorClient Url
      → DeserializeOwned R
      → Request Url Value
      → String
      → Action World FacilitatorClientError R
  send_and_parse client decode req context = do
    res ← with_error (http context) (network.send (with_settings client req))
    read_response decode context res

  -- `verify` and `settle`, by `post_json`
  unfoldable pub verify :
      FacilitatorClient Url → Value → Action World FacilitatorClientError VerifyResponse
  verify client request =
      send_and_parse client network.verify_response
        (record {
          method = post;
          url = client.verify_url;
          json = some request;
          headers = [];
          timeout = none;
        })
        "POST /verify"

  unfoldable pub settle :
      FacilitatorClient Url → Value → Action World FacilitatorClientError (SettleResponse Value)
  settle client request =
      send_and_parse client network.settle_response
        (record {
          method = post;
          url = client.settle_url;
          json = some request;
          headers = [];
          timeout = none;
        })
        "POST /settle"

  -- by `get_json`
  unfoldable pub supported_inner :
      FacilitatorClient Url → Action World FacilitatorClientError (SupportedResponse Value)
  supported_inner client =
      send_and_parse client network.supported_response
        (record {
          method = get;
          url = client.supported_url;
          json = none;
          headers = [];
          timeout = none;
        })
        "GET /supported"

  abbrev stored :
      ℕ
      → Cached Value
      → Outcome (SupportedResponse Value) FacilitatorClientError × World
      → Outcome (SupportedResponse Value) FacilitatorClientError × (Cached Value × World)
  stored ttl state (ok response, w) = (ok response, (cache_set ttl response w, w))
  stored ttl state (err e, w) = (err e, (state, w))

  abbrev or_fetched :
      FacilitatorClient Url
      → Option (SupportedResponse Value)
      → Action (Cached Value × World) FacilitatorClientError (SupportedResponse Value)
  or_fetched client (some response) s = (ok response, s)
  or_fetched client none (state, w) = stored client.ttl state (supported_inner client w)

  unfoldable pub supported :
      FacilitatorClient Url
      → Action (Cached Value × World) FacilitatorClientError (SupportedResponse Value)
  supported client (state, w) = or_fetched client (cache_get state w) (state, w)

  -- `Display`, as derived from the `#[error]` attributes.
  unfoldable pub to_string : FacilitatorClientError → String
  to_string (url_parse context source) = "URL parse error: " ++ (context ++ (": " ++ source))
  to_string (http context source) = "HTTP error: " ++ (context ++ (": " ++ source))
  to_string (json_deserialization context source) =
      "Failed to deserialize JSON: " ++ (context ++ (": " ++ source))
  to_string (response_body_read context source) =
      "Failed to read response body as text: " ++ (context ++ (": " ++ source))
  to_string (http_status context code body) =
      "Unexpected HTTP status "
      ++ (network.status_text code ++ (": " ++ (context ++ (": " ++ body))))

  -- The implementation of the trait: every error is boxed.
  unfoldable pub as_facilitator : FacilitatorClient Url → Facilitator (Cached Value × World) Value
  as_facilitator client = record {
    verify = λ request. with_error (λ e. other (to_string e)) (on_world (verify client request));
    settle = λ request. with_error (λ e. other (to_string e)) (on_world (settle client request));
    supported = with_error (λ e. other (to_string e)) (supported client);
  }
