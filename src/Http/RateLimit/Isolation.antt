-- ===== src/Http/RateLimit/Isolation.antt =====
-- The buckets of the clients of internal/api/middleware/ratelimit.go.
use onwapp.Base.{
  ltb, leb, if◌then◌else◌, Bool-cases, take, keep, Str, is_empty, str_eq, str_eq_refl, str_eq_iff,
  is_empty_iff, lookup-insert, lookup-insert_self, HasDistinctKeys, lookup-retain, lookup, insert,
  ℕ, ◌+◌, ◌≡◌, refl, sym, ap, ap₂, subst, ◌∙◌, ◌≢◌, inl, inr, Bool, true, not, ◌&&◌, none, some,
  List, [], ◌∷◌, arith,
}
use mathlib.Core.Path.{fun_ext}
use onwapp.Http.RateLimit.Keys.{get_client_key_iff}
use onwapp.Http.RateLimit.{
  RateLib, Request, get_client_key, Client, RateLimiter, get_client, keep_limiter, handle, cleanup,
}

-- Two requests count as one client's: both have an Authorization header and its first 16 bytes agree,
-- or neither has one and both come from one address.
unfoldable pub is_same_client : Request → Request → Bool
is_same_client q r =
    if is_empty q.authorization
    then is_empty r.authorization && str_eq q.client_ip r.client_ip
    else not (is_empty r.authorization)
      && str_eq (take 16 q.authorization) (take 16 r.authorization)

is_same_client_lem :
    (q r : Request) → str_eq (get_client_key r) (get_client_key q) ≡ is_same_client q r
unfolding is_same_client
is_same_client_lem q r = ground (
  arith,
  get_client_key_iff r q,
  str_eq_iff (get_client_key r) (get_client_key q),
  str_eq_iff q.client_ip r.client_ip,
  str_eq_iff (take 16 q.authorization) (take 16 r.authorization),
  is_empty_iff q.authorization,
  is_empty_iff r.authorization,
)

module _ {lib : RateLib} where
  -- The limiter of a client as the next request will find it.
  abbrev pub limiter_of : RateLimiter lib → Str → lib.Limiter
  limiter_of rl key = elim (lookup key rl.clients) [
    | some c ↦ c.limiter
    | none ↦ lib.new_limiter rl.config.requests_per_second rl.config.burst
  ]

  -- The client's entry once `getClient` has returned.
  abbrev refreshed : ℕ → Str → RateLimiter lib → Client lib
  refreshed now key rl = record { limiter = limiter_of rl key; last_seen = now }

  get_client_lem :
      (now : ℕ) (key : Str) (rl : RateLimiter lib)
      → get_client now key rl
        ≡ (record rl { clients = insert key (refreshed now key rl) rl.clients }, limiter_of rl key)
  unfolding get_client
  get_client_lem now key rl = ground arith

  limiter_of_eq :
      (rl alone : RateLimiter lib) (key : Str)
      → rl.config ≡ alone.config
      → lookup key rl.clients ≡ lookup key alone.clients
      → limiter_of rl key ≡ limiter_of alone key
  limiter_of_eq rl alone key c h = ground arith

  stored :
      (rl : RateLimiter lib) (key : Str) (c1 : Client lib) (l : lib.Limiter) (now : ℕ)
      → let rl1 = record rl { clients = insert key c1 rl.clients } in
        let rl2 = keep_limiter key (lib.allow now l).0 rl1 in
        ((lib.allow now l).1 ≡ (lib.allow now l).1)
        × (lookup key rl2.clients ≡ some (record c1 { limiter = (lib.allow now l).0 }))
        × (rl2.config ≡ rl.config)
        × ((k : Str) → k ≢ key → lookup k rl2.clients ≡ lookup k rl.clients)
  unfolding keep_limiter
  stored rl key c1 l now =
      rw (lookup-insert_self key c1 rl.clients, keep_limiter)
        (
          refl,
          lookup-insert_self key _ _,
          refl,
          λ k h. ground (
            arith,
            lookup-insert k key c1 rl.clients,
            lookup-insert k key (record c1 { limiter = (lib.allow now l).0 })
                (insert key c1 rl.clients),
            str_eq_iff key k,
          ),
        )

  handle_parts :
      (now : ℕ) (q : Request) (rl : RateLimiter lib)
      → let key = get_client_key q in
        let (rl', allowed) = handle now q rl in
        let (l, answer) = lib.allow now (limiter_of rl key) in
        (allowed ≡ answer)
        × (lookup key rl'.clients ≡ some (record { limiter = l; last_seen = now }))
        × (rl'.config ≡ rl.config)
        × ((k : Str) → k ≢ key → lookup k rl'.clients ≡ lookup k rl.clients)
  unfolding handle
  handle_parts now q rl =
      let key = get_client_key q in
      rw (get_client_lem now key rl) (stored rl key (refreshed now key rl) (limiter_of rl key) now)

  -- A request is decided by its client's bucket alone, and takes from that bucket; every other client
  -- has the entry that it had.
  handle_lem :
      (now : ℕ) (q : Request) (rl : RateLimiter lib) (k : Str)
      → let key = get_client_key q in
        let (rl', allowed) = handle now q rl in
        let (l, answer) = lib.allow now (limiter_of rl key) in
        (allowed ≡ answer)
        × (rl'.config ≡ rl.config)
        × (lookup k rl'.clients ≡ (
            if str_eq key k
            then some (record { limiter = l; last_seen = now })
            else lookup k rl.clients))
  handle_lem now q rl k =
      let key = get_client_key q in
      let parts = handle_parts now q rl in
      elim (Bool-cases (str_eq key k)) [
        | inl hit ↦ rw hit (
          parts.0,
          parts.2,
          subst
              (λ j.
                lookup j (handle now q rl).0.clients
                ≡ some
                    (record { limiter = (lib.allow now (limiter_of rl key)).0; last_seen = now }))
              ((str_eq_iff key k).0 hit) parts.1,
        )
        | inr miss ↦ rw miss (
          parts.0,
          parts.2,
          parts.3 k (λ e. cc (subst (λ j. str_eq j k ≡ true) e (str_eq_refl k), miss)),
        )
      ]

  -- The answers that the requests of one client get in a run.
  abbrev pub answers : Str → List (ℕ × Request) → RateLimiter lib → List Bool
  answers k [] rl = []
  answers k ((now, q) ∷ qs) rl =
      let rest = answers k qs (handle now q rl).0 in
      if str_eq (get_client_key q) k then (handle now q rl).1 ∷ rest else rest

  answers_alone :
      (k : Str) (qs : List (ℕ × Request)) (rl alone : RateLimiter lib)
      → rl.config ≡ alone.config
      → lookup k rl.clients ≡ lookup k alone.clients
      → answers k qs rl ≡ answers k (keep (λ r. str_eq (get_client_key r.1) k) qs) alone
  answers_alone k [] rl alone c h = refl
  answers_alone k ((now, q) ∷ qs) rl alone c h =
      let key = get_client_key q in
      let mine = handle_parts now q rl in
      let its = handle_parts now q alone in
      elim (Bool-cases (str_eq key k)) [
        | inl hit ↦
            let same : key ≡ k = (str_eq_iff key k).0 hit in
            let here : lookup key rl.clients ≡ lookup key alone.clients = rw same h in
            let bucket : limiter_of rl key ≡ limiter_of alone key =
              limiter_of_eq rl alone key c here in
            let tail =
              answers_alone k qs (handle now q rl).0 (handle now q alone).0 (mine.2 ∙ c ∙ sym its.2)
                (subst
                  (λ j.
                    lookup j (handle now q rl).0.clients ≡ lookup j (handle now q alone).0.clients)
                  same
                  (mine.1
                    ∙ ap (λ l. some (record { limiter = (lib.allow now l).0; last_seen = now }))
                        bucket
                    ∙ sym its.1)) in
            rw (hit, hit)
              (ap₂ (λ b t. b ∷ t) (mine.0 ∙ ap (λ l. (lib.allow now l).1) bucket ∙ sym its.0) tail)
        | inr miss ↦
            let other : k ≢ key =
              λ e. cc (subst (λ j. str_eq j k ≡ true) e (str_eq_refl k), miss) in
            rw miss (answers_alone k qs (handle now q rl).0 alone (mine.2 ∙ c) (mine.3 k other ∙ h))
      ]

  answers_isolated_by_key :
      (k : Str) (qs : List (ℕ × Request)) (rl : RateLimiter lib)
      → answers k qs rl ≡ answers k (keep (λ r. str_eq (get_client_key r.1) k) qs) rl
  answers_isolated_by_key k qs rl = answers_alone k qs rl rl refl refl

  -- The answers that the requests of one client get in a run.
  abbrev pub answers_of : Request → List (ℕ × Request) → RateLimiter lib → List Bool
  answers_of who [] rl = []
  answers_of who ((now, q) ∷ qs) rl =
      let rest = answers_of who qs (handle now q rl).0 in
      if is_same_client who q then (handle now q rl).1 ∷ rest else rest

  answers_of_key :
      (who : Request) (qs : List (ℕ × Request)) (rl : RateLimiter lib)
      → answers_of who qs rl ≡ answers (get_client_key who) qs rl
  answers_of_key who [] rl = refl
  answers_of_key who ((now, q) ∷ qs) rl =
      rw (is_same_client_lem who q, answers_of_key who qs (handle now q rl).0) refl

  -- In any run of requests from any state, a client gets the answers that it would get if only its
  -- own requests were made, at the same times. A client is here what the code takes for one: all
  -- requests whose Authorization headers agree in their first 16 bytes, whatever their addresses,
  -- or all requests without that header from one address.
  pub answers_isolated :
      (who : Request) (qs : List (ℕ × Request)) (rl : RateLimiter lib)
      → answers_of who qs rl ≡ answers_of who (keep (λ r. is_same_client who r.1) qs) rl
  answers_isolated who qs rl =
      let key = get_client_key who in
      let test : (λ (r : ℕ × Request). str_eq (get_client_key r.1) key)
          ≡ (λ r. is_same_client who r.1) =
        fun_ext λ r. is_same_client_lem who r.1 in
      answers_of_key who qs rl
      ∙ answers_isolated_by_key key qs rl
      ∙ ap (λ f. answers key (keep f qs) rl) test
      ∙ sym (answers_of_key who (keep (λ r. is_same_client who r.1) qs) rl)

  -- In a map with distinct keys, `cleanup` keeps the bucket of a client seen within the TTL as it
  -- is and forgets any other.
  lookup-cleanup :
      (now : ℕ) (rl : RateLimiter lib) (k : Str) (c : Client lib)
      → HasDistinctKeys rl.clients
      → lookup k rl.clients ≡ some c
      → lookup k (cleanup now rl).clients
        ≡ (if leb now (c.last_seen + rl.config.ttl) then some c else none)
  unfolding cleanup
  lookup-cleanup now rl k c d h = ground (
    arith,
    lookup-retain (λ key b. not (ltb (b.last_seen + rl.config.ttl) now)) k c rl.clients d h,
  )
