-- ===== src/Client/Payment/Handling.antt =====
-- How the middleware handles a request.
use mathlib.Core.Path.{subst}
use r.Base.{
  ◌≡◌, ◌≢◌, refl, inl, inr, ◌↔◌, false, Bool-cases, Option, none, some, Option-cases, Outcome, ok,
  err, ◌==◌, ==_iff, ne_of_==-eq-false, arith,
}
use r.Base.Actions.{Action, Action-cases}
use r.Http.Platform.{Platform}
use r.Client.Selection.{ClientError}
use r.Client.Payment.{
  X402Client, Headers, MiddlewareError, transport, payment, make_payment_headers, handle,
}
use mathlib.Core.Path.{sym}

module _ (platform : Platform) {World Failure : Type 0}
    (run_next : platform.Request → Action World Failure platform.Response)
    (client : X402Client World platform.Value platform.Bytes) (req : platform.Request)
    (w : World) where
  open platform use {Bytes, Request, Response, status, try_clone, extend_headers}

  abbrev Result : Type 0
  Result = Outcome (Option Response) (MiddlewareError Failure) × World

  -- The request was sent once and answered with status 402, and it can be repeated.
  pub record Asked (res : Response) (retry : Request) (v : World) : Type 0 where
    pub answered : run_next req w ≡ (ok res, v)
    pub unpaid : status res ≡ 402
    pub cloned : try_clone req ≡ some retry

  -- The ways to handle a request: it cannot be sent; it is answered with another status than 402; it
  -- cannot be repeated; its payment fails or panics; or it is sent again, once, with the payment's
  -- headers.
  pub data Pays (result : Result) : Type 0 where
    is_unsent :
        (e : Failure) (v : World)
        → run_next req w ≡ (err e, v)
        → result ≡ (err (transport e), v)
        → Pays result
    is_answered :
        (res : Response) (v : World)
        → run_next req w ≡ (ok res, v)
        → status res ≢ 402
        → result ≡ (ok (some res), v)
        → Pays result
    is_unrepeatable :
        (res : Response) (v : World)
        → run_next req w ≡ (ok res, v)
        → status res ≡ 402
        → try_clone req ≡ none
        → result ≡ (ok (some res), v)
        → Pays result
    payment_fails :
        (res : Response) (retry : Request) (e : ClientError) (v u : World)
        → Asked res retry v
        → make_payment_headers platform client res v ≡ (err e, u)
        → result ≡ (err (payment e), u)
        → Pays result
    payment_panics :
        (res : Response) (retry : Request) (v u : World)
        → Asked res retry v
        → make_payment_headers platform client res v ≡ (ok none, u)
        → result ≡ (ok none, u)
        → Pays result
    is_lost :
        (res : Response) (retry : Request) (headers : Headers Bytes) (e : Failure) (v u t : World)
        → Asked res retry v
        → make_payment_headers platform client res v ≡ (ok (some headers), u)
        → run_next (extend_headers headers retry) u ≡ (err e, t)
        → result ≡ (err (transport e), t)
        → Pays result
    is_repeated :
        (res answer : Response) (retry : Request) (headers : Headers Bytes) (v u t : World)
        → Asked res retry v
        → make_payment_headers platform client res v ≡ (ok (some headers), u)
        → run_next (extend_headers headers retry) u ≡ (ok answer, t)
        → result ≡ (ok (some answer), t)
        → Pays result

  complete : {result : Result} → Pays result → handle platform run_next client req w ≡ result
  unfolding handle
  complete (is_unsent e v i q) = rw (i, q)
  complete (is_answered res v i s q) =
      let other : (status res == 402) ≡ false = ground arith in rw (i, other, q)
  complete (is_unrepeatable res v i s c q) = rw (i, (==_iff (status res) 402).1 s, c, q)
  complete (payment_fails res retry e v u a m q) =
      rw (a.answered, (==_iff (status res) 402).1 a.unpaid, a.cloned, m, q)
  complete (payment_panics res retry v u a m q) =
      rw (a.answered, (==_iff (status res) 402).1 a.unpaid, a.cloned, m, q)
  complete (is_lost res retry headers e v u t a m i q) =
      rw (a.answered, (==_iff (status res) 402).1 a.unpaid, a.cloned, m, i, q)
  complete (is_repeated res answer retry headers v u t a m i q) =
      rw (a.answered, (==_iff (status res) 402).1 a.unpaid, a.cloned, m, i, q)

  Final : Type 0
  Final = Pays (handle platform run_next client req w)

  finally : {result : Result} → Pays result → Final
  unfolding Final
  finally p = subst Pays (sym (complete p)) p

  after_payment : (res : Response) (retry : Request) (v : World) → Asked res retry v → Final
  after_payment res retry v a = elim (Action-cases (make_payment_headers platform client res v)) [
    | inr (e, u, m) ↦ finally (payment_fails res retry e v u a m refl)
    | inl (none, u, m) ↦ finally (payment_panics res retry v u a m refl)
    | inl (some headers, u, m) ↦ elim (Action-cases (run_next (extend_headers headers retry) u)) [
      | inr (e, t, i) ↦ finally (is_lost res retry headers e v u t a m i refl)
      | inl (answer, t, i) ↦ finally (is_repeated res answer retry headers v u t a m i refl)
    ]
  ]

  sound : Final
  sound = elim (Action-cases (run_next req w)) [
    | inr (e, v, i) ↦ finally (is_unsent e v i refl)
    | inl (res, v, i) ↦ elim (Bool-cases (status res == 402)) [
      | inr other ↦ finally (is_answered res v i (ne_of_==-eq-false (status res) 402 other) refl)
      | inl same ↦
          let unpaid = (==_iff (status res) 402).0 same in
          elim (Option-cases (try_clone req)) [
            | inl c ↦ finally (is_unrepeatable res v i unpaid c refl)
            | inr (retry, c) ↦
                after_payment res retry v (record { answered = i; unpaid = unpaid; cloned = c })
          ]
    ]
  ]

  -- The middleware handles a request in one of the ways of the relation, and in no other.
  pub handle_iff :
      (result : Result) → (handle platform run_next client req w ≡ result) ↔ Pays result
  unfolding Final
  handle_iff result = ((λ e. subst Pays e sound), complete)
