-- ===== src/Tests/Asking.antt =====
-- The client of a remote facilitator at concrete inputs.
use Prim.Native.String.{◌++◌}
use r.Base.{String, ℕ, suc, ◌+◌, ◌≡◌, ◌<◌, ◌↔◌, ◌⊎◌, refl, none, some, [], ◌∷◌, Memᴰ, ok}
use r.Proto.V2.{SupportedResponse}
use r.Proto.Verify.{valid}
use r.Proto.Settle.{SettleResponse}
use r.Http.Remote.{
  Network, Request, get, FacilitatorClient, Cached, cache_get, cache_set, supported,
  supported_inner, send_and_parse, read_response,
}
use r.Http.Remote.Answers.{Answers, send_and_parse_iff}
use r.Http.Remote.Caching.{Reaches, supported-ok-Reaches}

abbrev nothing : SupportedResponse String
nothing = record { kinds = []; extensions = []; signers = [] }

-- How a type is read from a body: one value of it.
abbrev DeserializeOwned : Type 0 → Type 0
DeserializeOwned R = R

-- The world is the clock; a response is its status.
abbrev network : Network ℕ String
network = record {
  Url = String;
  Response = ℕ;
  parse = λ text. ok text;
  join = λ base path. ok (base ++ path);
  send = λ req w. (ok 200, suc w);
  status = λ res. res;
  text = λ res w. (ok "body", w);
  DeserializeOwned = DeserializeOwned;
  verify_response = valid "0x3";
  settle_response = SettleResponse.success "0x3" "0x77" "eip155:8453" none;
  supported_response = nothing;
  json = λ decode res w. (ok decode, w);
  status_text = λ code. "200 OK";
  now = λ w. w;
}

abbrev client : FacilitatorClient String
client = record {
  base_url = "f/";
  verify_url = "f/verify";
  settle_url = "f/settle";
  supported_url = "f/supported";
  headers = [];
  timeout = none;
  ttl = 600;
}

abbrev question : Request String String
question = record { method = get; url = "f/supported"; json = none; headers = []; timeout = none }

send_and_parse_iff_example :
    (send_and_parse network client nothing question "GET /supported" 1000 ≡ (ok nothing, 1001))
    ↔ Answers network client nothing question "GET /supported" 1000 (ok nothing, 1001)
send_and_parse_iff_example =
    send_and_parse_iff network client nothing question "GET /supported" 1000 (ok nothing, 1001)

abbrev cached : Cached String
cached = some (record { response = nothing; expires_at = 1601 })

fetches : Reaches network client cached 1001 ((nothing, 1001) ∷ [])
unfolding supported supported_inner send_and_parse read_response cache_get cache_set
fetches = Reaches.fetches none 1000 [] nothing 1001 (Reaches.starts 1000) refl refl

recalls : supported network client (cached, 1200) ≡ (ok nothing, (cached, 1200))
unfolding supported cache_get
recalls = refl

supported-ok-Reaches_example :
    (supported_inner network client 1200 ≡ (ok nothing, 1200))
    ⊎ ((t : ℕ) × Memᴰ {A = SupportedResponse String × ℕ} (nothing, t) ((nothing, 1001) ∷ [])
        × (1200 < t + 600))
supported-ok-Reaches_example =
    supported-ok-Reaches network client cached 1200 ((nothing, 1001) ∷ [])
      (Reaches.waits cached 1001 1200 ((nothing, 1001) ∷ []) fetches) nothing (cached, 1200) recalls
