-- ===== src/Http/Remote/Caching.antt =====
-- How long the client of a remote facilitator trusts what that facilitator supports.
use mathlib.Core.Path.{subst}
use mathlib.Core.Option.{some-injective}
use r.Base.{
  ℕ, ◌+◌, ◌≡◌, refl, sym, ap, ◌∙◌, ◌<◌, ◌⊎◌, inl, inr, Bool-cases, none, some, Option-cases, List,
  [], ◌∷◌, Memᴰ, ok, err, ltb, ltb→lt, arith,
}
use r.Base.Actions.{Action-cases}
use r.Proto.V2.{SupportedResponse}
use r.Http.Remote.{
  FacilitatorClientError, Network, Cached, FacilitatorClient, cache_get, cache_set, cache_clear,
  supported_inner, supported,
}

module _ {World Value : Type 0} (network : Network World Value)
    (client : FacilitatorClient network.Url) where
  open network use {now}

  -- The answers that the remote facilitator gave, each with its time.
  abbrev pub Log : Type 0
  Log = List (SupportedResponse Value × ℕ)

  -- The states of a client's cache: it starts empty; the world changes; the cache is cleared; and a
  -- call is answered from the cache, fetches an answer, or fails.
  pub data Reaches : Cached Value → World → Log → Type 0 where
    starts : (w : World) → Reaches none w []
    waits :
        (state : Cached Value) (w v : World) (log : Log) → Reaches state w log → Reaches state v log
    clears :
        (state : Cached Value) (w : World) (log : Log)
        → Reaches state w log
        → Reaches (cache_clear network state) w log
    recalls :
        (state : Cached Value) (w : World) (log : Log) (response : SupportedResponse Value)
        → Reaches state w log
        → cache_get network state w ≡ some response
        → Reaches
            (supported network client (state, w)).1.0
            (supported network client (state, w)).1.1
            log
    fetches :
        (state : Cached Value) (w : World) (log : Log) (response : SupportedResponse Value)
        (v : World)
        → Reaches state w log
        → cache_get network state w ≡ none
        → supported_inner network client w ≡ (ok response, v)
        → Reaches
            (supported network client (state, w)).1.0
            (supported network client (state, w)).1.1
            ((response, now v) ∷ log)
    fails :
        (state : Cached Value) (w : World) (log : Log) (e : FacilitatorClientError) (v : World)
        → Reaches state w log
        → cache_get network state w ≡ none
        → supported_inner network client w ≡ (err e, v)
        → Reaches
            (supported network client (state, w)).1.0
            (supported network client (state, w)).1.1
            log

  -- What is cached was an answer, and expires when the time to live has passed since.
  abbrev IsHonest : Cached Value → Log → Type 0
  IsHonest none log = Unit
  IsHonest (some cache) log =
      (t : ℕ) × Memᴰ (cache.response, t) log × (cache.expires_at ≡ t + client.ttl)

  IsHonest-more :
      (state : Cached Value) (log : Log) (x : SupportedResponse Value × ℕ)
      → IsHonest state log
      → IsHonest state (x ∷ log)
  IsHonest-more none log x h = tt
  IsHonest-more (some cache) log x (t, m, e) = (t, Memᴰ.tail m, e)

  supported-recalls :
      (state : Cached Value) (w : World) (response : SupportedResponse Value)
      → cache_get network state w ≡ some response
      → supported network client (state, w) ≡ (ok response, (state, w))
  unfolding supported
  supported-recalls state w response g = rw g refl

  supported-fetches :
      (state : Cached Value) (w : World) (response : SupportedResponse Value) (v : World)
      → cache_get network state w ≡ none
      → supported_inner network client w ≡ (ok response, v)
      → supported network client (state, w)
        ≡ (ok response, (cache_set network client.ttl response v, v))
  unfolding supported
  supported-fetches state w response v g f = rw (g, f) refl

  supported-fails :
      (state : Cached Value) (w : World) (e : FacilitatorClientError) (v : World)
      → cache_get network state w ≡ none
      → supported_inner network client w ≡ (err e, v)
      → supported network client (state, w) ≡ (err e, (state, v))
  unfolding supported
  supported-fails state w e v g f = rw (g, f) refl

  Reaches-IsHonest :
      (state : Cached Value) (w : World) (log : Log) → Reaches state w log → IsHonest state log
  unfolding cache_clear cache_set
  Reaches-IsHonest _ w log (Reaches.starts _) = tt
  Reaches-IsHonest _ _ log (Reaches.waits state w v _ r) = Reaches-IsHonest state w log r
  Reaches-IsHonest _ w log (Reaches.clears state _ _ r) = tt
  Reaches-IsHonest _ _ log (Reaches.recalls state w _ response r g) =
      rw (supported-recalls state w response g) (Reaches-IsHonest state w log r)
  Reaches-IsHonest _ _ _ (Reaches.fetches state w log response v r g f) =
      rw (supported-fetches state w response v g f) (now v, Memᴰ.head refl, refl)
  Reaches-IsHonest _ _ log (Reaches.fails state w _ e v r g f) =
      rw (supported-fails state w e v g f) (Reaches-IsHonest state w log r)

  cached_within :
      (state : Cached Value) (w : World) (log : Log) (response : SupportedResponse Value)
      → IsHonest state log
      → cache_get network state w ≡ some response
      → (t : ℕ) × Memᴰ (response, t) log × (now w < t + client.ttl)
  unfolding cache_get
  cached_within none w log response h g = cc
  cached_within (some cache) w log response (t, m, e) g =
      elim (Bool-cases (ltb (now w) cache.expires_at)) [
        | inl fresh ↦
            let read : cache_get network (some cache) w ≡ some cache.response = rw fresh refl in
            let same : cache.response ≡ response = some-injective _ _ (sym read ∙ g) in
            let early : now w < cache.expires_at = ltb→lt (now w) cache.expires_at fresh in
            (t, subst (λ r. Memᴰ (r, t) log) same m, omega (arith, e, early))
        | inr stale ↦
            let missed : cache_get network (some cache) w ≡ none = rw stale refl in
            cc (sym missed ∙ g)
      ]

  -- In every state that a client reaches, an answer to the question what is supported was fetched by
  -- this call or is one that was fetched before, less than the time to live ago.
  pub supported-ok-Reaches :
      (state : Cached Value) (w : World) (log : Log)
      → Reaches state w log
      → (response : SupportedResponse Value) (s : Cached Value × World)
      → supported network client (state, w) ≡ (ok response, s)
      → (supported_inner network client w ≡ (ok response, s.1))
        ⊎ ((t : ℕ) × Memᴰ (response, t) log × (now w < t + client.ttl))
  supported-ok-Reaches state w log r response s h =
      elim (Option-cases (cache_get network state w)) [
        | inr (cached, g) ↦
            let same : cached ≡ response =
              cc (ap (λ x. x.0) (sym (supported-recalls state w cached g) ∙ h)) in
            inr (
              cached_within state w log response (Reaches-IsHonest state w log r)
                (g ∙ ap some same))
        | inl g ↦ elim (Action-cases (supported_inner network client w)) [
          | inr (e, v, f) ↦ cc (ap (λ x. x.0) (sym (supported-fails state w e v g f) ∙ h))
          | inl (fetched, v, f) ↦
              inl (f ∙ ap (λ x. (x.0, x.1.1)) (sym (supported-fetches state w fetched v g f) ∙ h))
        ]
      ]
