-- ===== src/Http/Remote/Answers.antt =====
-- How the client of a remote facilitator reads an answer, and the URLs that it asks.
use Prim.Native.Char.{Char, code}
use Prim.Native.String.{◌++◌}
use text.Mathlib.TextLemmas.{nil-append, cons-append}
use mathlib.Core.Path.{subst}
use r.Base.{
  String, ◌≡◌, ◌≢◌, refl, sym, ap, ◌↔◌, inl, inr, false, Bool-cases, Outcome, ok, err, ◌==◌, ==_iff,
  ne_of_==-eq-false, ◌&&◌, arith, if◌then◌else◌,
}
use r.Base.Text.{is_empty}
use r.Base.Actions.{Action-cases}
use r.Http.Remote.{
  FacilitatorClientError, http, json_deserialization, response_body_read, http_status, Request,
  Network, FacilitatorClient, trim_end_matches, with_settings, read_response, send_and_parse,
  status_ok, try_from,
}

module _ {World Value : Type 0} (network : Network World Value) {R : Type 0}
    (client : FacilitatorClient network.Url) (decode : network.DeserializeOwned R)
    (req : Request network.Url Value) (context : String) (w : World) where
  open network use {Response, status}

  abbrev Result : Type 0
  Result = Outcome R FacilitatorClientError × World

  abbrev Sends : Response → World → Type 0
  Sends res v = network.send (with_settings network client req) w ≡ (ok res, v)

  -- A request is not answered; the body of a refusal cannot be read; it is refused with a status; the
  -- body of an answer cannot be read; or it is answered.
  pub data Answers (result : Result) : Type 0 where
    is_unanswered :
        (e : String) (v : World)
        → network.send (with_settings network client req) w ≡ (err e, v)
        → result ≡ (err (http context e), v)
        → Answers result
    is_unreadable :
        (res : Response) (e : String) (v u : World)
        → network.send (with_settings network client req) w ≡ (ok res, v)
        → status res ≢ status_ok
        → network.text res v ≡ (err e, u)
        → result ≡ (err (response_body_read context e), u)
        → Answers result
    is_refused :
        (res : Response) (body : String) (v u : World)
        → network.send (with_settings network client req) w ≡ (ok res, v)
        → status res ≢ status_ok
        → network.text res v ≡ (ok body, u)
        → result ≡ (err (http_status context (status res) body), u)
        → Answers result
    is_malformed :
        (res : Response) (e : String) (v u : World)
        → network.send (with_settings network client req) w ≡ (ok res, v)
        → status res ≡ status_ok
        → network.json decode res v ≡ (err e, u)
        → result ≡ (err (json_deserialization context e), u)
        → Answers result
    is_answered :
        (res : Response) (answer : R) (v u : World)
        → network.send (with_settings network client req) w ≡ (ok res, v)
        → status res ≡ status_ok
        → network.json decode res v ≡ (ok answer, u)
        → result ≡ (ok answer, u)
        → Answers result

  complete :
      {result : Result}
      → Answers result
      → send_and_parse network client decode req context w ≡ result
  unfolding send_and_parse read_response
  complete (is_unanswered e v s q) = rw (s, q) refl
  complete (is_unreadable res e v u s n t q) =
      let other : (status res == status_ok) ≡ false = ground arith in rw (s, other, t, q) refl
  complete (is_refused res body v u s n t q) =
      let other : (status res == status_ok) ≡ false = ground arith in rw (s, other, t, q) refl
  complete (is_malformed res e v u s n t q) = rw (s, (==_iff (status res) status_ok).1 n, t, q) refl
  complete (is_answered res answer v u s n t q) =
      rw (s, (==_iff (status res) status_ok).1 n, t, q) refl

  Final : Type 0
  Final = Answers (send_and_parse network client decode req context w)

  finally : {result : Result} → Answers result → Final
  unfolding Final
  finally p = subst Answers (sym (complete p)) p

  sound : Final
  sound = elim (Action-cases (network.send (with_settings network client req) w)) [
    | inr (e, v, s) ↦ finally (is_unanswered e v s refl)
    | inl (res, v, s) ↦ elim (Bool-cases (status res == status_ok)) [
      | inl same ↦
          let accepted = (==_iff (status res) status_ok).0 same in
          elim (Action-cases (network.json decode res v)) [
            | inr (e, u, t) ↦ finally (is_malformed res e v u s accepted t refl)
            | inl (answer, u, t) ↦ finally (is_answered res answer v u s accepted t refl)
          ]
      | inr other ↦
          let refused = ne_of_==-eq-false (status res) status_ok other in
          elim (Action-cases (network.text res v)) [
            | inr (e, u, t) ↦ finally (is_unreadable res e v u s refused t refl)
            | inl (body, u, t) ↦ finally (is_refused res body v u s refused t refl)
          ]
    ]
  ]

  -- A request to the facilitator ends in one of the ways of the relation, and in no other: what it
  -- returns was read from a response with status 200, and any other response is an error.
  pub send_and_parse_iff :
      (result : Result)
      → (send_and_parse network client decode req context w ≡ result) ↔ Answers result
  unfolding Final
  send_and_parse_iff result = ((λ e. subst Answers e sound), complete)

trim_end_matches-append :
    (c : Char) (s : String)
    → trim_end_matches c (s ++ String.◌∷◌ c String.[]) ≡ trim_end_matches c s
unfolding trim_end_matches
trim_end_matches-append c String.[] =
    let gone : trim_end_matches c (String.◌∷◌ c String.[]) ≡ String.[] =
      rw (trim_end_matches, (==_iff (code c) (code c)).1 refl) refl in
    rw nil-append gone
trim_end_matches-append c (String.◌∷◌ d s) = rw (cons-append d s (String.◌∷◌ c String.[])) (
    ap (λ rest. if is_empty rest && code c == code d then String.[] else String.◌∷◌ d rest)
      (trim_end_matches-append c s))

-- A client is made from a URL that ends in a slash as from the URL without it.
pub try_from-append :
    {World Value : Type 0} (network : Network World Value) (value : String)
    → try_from network (value ++ "/") ≡ try_from network value
unfolding try_from
try_from-append network value = rw (trim_end_matches-append "/" value) refl
