-- ===== src/Http/RateLimit.antt =====
-- internal/api/middleware/ratelimit.go: one token bucket for each client.
pub mod Keys
pub mod Isolation
use onwapp.Base.{
  ltb, if◌then◌else◌, length, take, Str, is_empty, lit, Dict, lookup, insert, retain, ℤ, ℕ, ◌+◌,
  Bool, not, none, some, [], ◌++◌,
}

-- What is used of golang.org/x/time/rate. Times are numbers of nanoseconds.
pub record RateLib : Type 1 where
  pub Limit : Type 0
  pub Limiter : Type 0
  pub new_limiter : Limit → ℤ → Limiter
  pub allow : ℕ → Limiter → Limiter × Bool

-- The fields of a request that the middleware reads.
pub record Request : Type 0 where
  pub authorization : Str
  pub client_ip : Str

-- `getClientKey`
unfoldable pub get_client_key : Request → Str
get_client_key q =
    if not (is_empty q.authorization)
    then if ltb 16 (length q.authorization)
      then lit "auth:" ++ take 16 q.authorization
      else lit "auth:" ++ q.authorization
    else lit "ip:" ++ q.client_ip

module _ (lib : RateLib) where
  -- `RateLimiterConfig`, less the interval between two runs of `cleanup`.
  pub record RateLimiterConfig : Type 0 where
    pub requests_per_second : lib.Limit
    pub burst : ℤ
    pub ttl : ℕ

  pub record Client : Type 0 where
    pub limiter : lib.Limiter
    pub last_seen : ℕ

module _ (lib : RateLib) where
  -- `RateLimiter`
  pub record RateLimiter : Type 0 where
    pub config : RateLimiterConfig lib
    pub clients : Dict (Client lib)

module _ {lib : RateLib} where
  -- `NewRateLimiter`, less the goroutine that calls `cleanup`
  pub new_rate_limiter : RateLimiterConfig lib → RateLimiter lib
  new_rate_limiter config = record { config = config; clients = [] }

  -- `getClient`: the limiter of the key, a new one for a key not seen before.
  unfoldable pub get_client : ℕ → Str → RateLimiter lib → RateLimiter lib × lib.Limiter
  get_client now key rl = elim (lookup key rl.clients) [
    | some c ↦
        (record rl { clients = insert key (record c { last_seen = now }) rl.clients }, c.limiter)
    | none ↦
        let l = lib.new_limiter rl.config.requests_per_second rl.config.burst in
        (record rl { clients = insert key (record { limiter = l; last_seen = now }) rl.clients }, l)
  ]

  -- `Allow` on the limiter of a key: the map holds a pointer to it, so the entry changes.
  keep_limiter : Str → lib.Limiter → RateLimiter lib → RateLimiter lib
  keep_limiter key l rl = elim (lookup key rl.clients) [
    | some c ↦ record rl { clients = insert key (record c { limiter = l }) rl.clients }
    | none ↦ rl
  ]

  -- `Middleware` for one request: the state, and whether the request goes on (else 429).
  unfoldable pub handle : ℕ → Request → RateLimiter lib → RateLimiter lib × Bool
  unfolding keep_limiter
  handle now q rl =
      let key = get_client_key q in
      let (rl1, limiter) = get_client now key rl in
      let (limiter', allowed) = lib.allow now limiter in (keep_limiter key limiter' rl1, allowed)

  -- `cleanup`: forgets the clients not seen since `now - ttl`.
  unfoldable pub cleanup : ℕ → RateLimiter lib → RateLimiter lib
  cleanup now rl = record rl {
    clients = retain (λ key c. not (ltb (c.last_seen + rl.config.ttl) now)) rl.clients;
  }
