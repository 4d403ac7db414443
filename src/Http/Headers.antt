-- ===== src/Http/Headers.antt =====
-- internal/api/middleware/middleware.go and security.go: CORS and the security headers.
use onwapp.Base.{
  leb, if◌then◌else◌, Bool-cases, length, take, drop, length-append, take-append-drop, take-append,
  Str, lit, str_eq, str_eq_refl, str_eq_iff, Dict, lookup, insert, ◌≡◌, refl, ◌≢◌, ◌↔◌, ◌⊎◌, inl,
  inr, Bool, true, false, not, ◌&&◌, ◌||◌, none, some, List, [], ◌∷◌, ◌++◌, arith,
}

-- The headers set so far, last value first.
abbrev pub HeaderList : Type 0
HeaderList = Dict Str

-- `o == "*" || o == origin` for some allowed origin
unfoldable pub origin_listed : List Str → Str → Bool
origin_listed [] origin = false
origin_listed (o ∷ os) origin = str_eq o (lit "*") || str_eq o origin || origin_listed os origin

-- `len(allowedOrigins) == 0 || allowedOrigins[0] == "*"`
unfoldable pub any_origin : List Str → Bool
any_origin [] = true
any_origin (o ∷ os) = str_eq o (lit "*")

-- The headers of `CORS`.
cors_headers : HeaderList → HeaderList
cors_headers h = insert (lit "Access-Control-Expose-Headers") (lit "Content-Length, Content-Type") (
    insert (lit "Access-Control-Max-Age") (lit "86400") (
      insert (lit "Access-Control-Allow-Headers")
        (lit "Origin, Content-Type, Accept, Authorization, Cache-Control")
        (insert (lit "Access-Control-Allow-Methods") (lit "GET, POST, PUT, PATCH, DELETE, OPTIONS")
          (insert (lit "Access-Control-Allow-Origin") (lit "*") h))))

-- `CORS`: the headers, and whether the request goes on (else the answer is 204).
pub cors : List Str → Str → Str → HeaderList → HeaderList × Bool
unfolding origin_listed any_origin cors_headers
cors allowed origin method h =
    let h1 = if origin_listed allowed origin || any_origin allowed then cors_headers h else h in
    (h1, not (str_eq method (lit "OPTIONS")))

-- An origin is admitted.
abbrev pub IsAdmitted : List Str → Str → Type 0
IsAdmitted allowed origin = (origin_listed allowed origin || any_origin allowed) ≡ true

unfoldable pub protected_prefixes : List Str
protected_prefixes =
    lit "/sessions" ∷ lit "/webhook" ∷ lit "/chatwoot" ∷ lit "/profile" ∷ lit "/settings" ∷ []

-- `len(path) >= len(prefix) && path[:len(prefix)] == prefix`
begins_with : Str → Str → Bool
begins_with path prefix =
    leb (length prefix) (length path) && str_eq (take (length prefix) path) prefix

begins_with_any : Str → List Str → Bool
unfolding begins_with
begins_with_any path [] = false
begins_with_any path (q ∷ qs) = begins_with path q || begins_with_any path qs

-- `isProtectedEndpoint`
pub is_protected_endpoint : Str → Bool
unfolding begins_with_any protected_prefixes
is_protected_endpoint path = begins_with_any path protected_prefixes

-- The headers of `SecurityHeaders` for every path.
common_headers : HeaderList → HeaderList
common_headers h =
    insert (lit "Permissions-Policy") (lit "geolocation=(), microphone=(), camera=()") (
      insert (lit "Referrer-Policy") (lit "strict-origin-when-cross-origin") (
        insert (lit "X-XSS-Protection") (lit "1; mode=block") (
          insert (lit "X-Frame-Options") (lit "DENY")
            (insert (lit "X-Content-Type-Options") (lit "nosniff") h))))

no_cache_headers : HeaderList → HeaderList
no_cache_headers h = insert (lit "Expires") (lit "0") (
    insert (lit "Pragma") (lit "no-cache")
      (insert (lit "Cache-Control") (lit "no-store, no-cache, must-revalidate, private") h))

-- `SecurityHeaders`
pub security_headers : Str → HeaderList → HeaderList
unfolding is_protected_endpoint common_headers no_cache_headers
security_headers path h =
    if is_protected_endpoint path then no_cache_headers (common_headers h) else common_headers h

-- `StrictTransportSecurity`: by whether the request came over TLS, and the forwarded protocol.
pub strict_transport_security : Bool → Str → HeaderList → HeaderList
strict_transport_security tls proto h =
    if tls || str_eq proto (lit "https")
    then insert (lit "Strict-Transport-Security")
        (lit "max-age=31536000; includeSubDomains; preload") h
    else h

-- Whether a path begins with one of the protected prefixes.
abbrev pub HasProtectedPrefix : Str → List Str → Type 0
HasProtectedPrefix path [] = ⊥
HasProtectedPrefix path (q ∷ qs) = ((rest : Str) × (path ≡ q ++ rest)) ⊎ HasProtectedPrefix path qs

begins_with_sound :
    (path prefix : Str)
    → begins_with path prefix ≡ true
    → path ≡ prefix ++ drop (length prefix) path
unfolding begins_with
begins_with_sound path prefix h =
    ground
      (arith, str_eq_iff (take (length prefix) path) prefix, take-append-drop (length prefix) path)

begins_with_complete : (prefix rest : Str) → begins_with (prefix ++ rest) prefix ≡ true
unfolding begins_with
begins_with_complete prefix rest =
    ground (arith, take-append prefix rest, str_eq_refl prefix, length-append prefix rest)

begins_with_any_sound :
    (path : Str) (qs : List Str) → begins_with_any path qs ≡ true → HasProtectedPrefix path qs
unfolding begins_with_any
begins_with_any_sound path [] h = cc
begins_with_any_sound path (q ∷ qs) h = elim (Bool-cases (begins_with path q)) [
  | inl hit ↦ inl (drop (length q) path, begins_with_sound path q hit)
  | inr miss ↦ inr (begins_with_any_sound path qs (ground arith))
]

begins_with_any_complete :
    (path : Str) (qs : List Str) → HasProtectedPrefix path qs → begins_with_any path qs ≡ true
unfolding begins_with_any
begins_with_any_complete path [] h = absurd h
begins_with_any_complete path (q ∷ qs) (inl (rest, e)) = rw e (rw (begins_with_complete q rest))
begins_with_any_complete path (q ∷ qs) (inr h) = ground (arith, begins_with_any_complete path qs h)

-- A path is protected exactly when it begins with one of the protected prefixes.
pub is_protected_endpoint_iff :
    (path : Str) → (is_protected_endpoint path ≡ true) ↔ HasProtectedPrefix path protected_prefixes
unfolding is_protected_endpoint
is_protected_endpoint_iff path = (
  begins_with_any_sound path protected_prefixes,
  begins_with_any_complete path protected_prefixes,
)

-- Some allowed origin is "*" or the request's own.
abbrev pub IsListed : List Str → Str → Type 0
IsListed [] origin = ⊥
IsListed (o ∷ os) origin = (o ≡ lit "*") ⊎ (o ≡ origin) ⊎ IsListed os origin

origin_listed_iff :
    (allowed : List Str) (origin : Str)
    → (origin_listed allowed origin ≡ true) ↔ IsListed allowed origin
unfolding origin_listed
origin_listed_iff [] origin = ground arith
origin_listed_iff (o ∷ os) origin =
    ground (arith, str_eq_iff o (lit "*"), str_eq_iff o origin, origin_listed_iff os origin)

cors_headers-origin : lookup (lit "Access-Control-Allow-Origin") (cors_headers []) ≡ some (lit "*")
unfolding cors_headers lookup insert str_eq lit
cors_headers-origin = refl

-- `CORS` answers exactly the requests whose origin is allowed, or all if no origin is configured,
-- with "Access-Control-Allow-Origin", and always with the value "*"; and it lets exactly the requests
-- go on that are not preflights.
cors_lem :
    (allowed : List Str) (origin method : Str)
    → ((lookup (lit "Access-Control-Allow-Origin") (cors allowed origin method []).0
          ≡ some (lit "*"))
        ↔ ((allowed ≡ []) ⊎ IsListed allowed origin))
      × (((cors allowed origin method []).1 ≡ true) ↔ (method ≢ lit "OPTIONS"))
unfolding cors any_origin lookup
cors_lem [] origin method = ground (arith, cors_headers-origin, str_eq_iff method (lit "OPTIONS"))
cors_lem (o ∷ os) origin method = ground (
  arith,
  cors_headers-origin,
  origin_listed_iff (o ∷ os) origin,
  str_eq_iff o (lit "*"),
  str_eq_iff method (lit "OPTIONS"),
)

no_cache-common :
    (lookup (lit "Cache-Control") (common_headers []) ≡ none)
    × (lookup (lit "Cache-Control") (no_cache_headers (common_headers []))
        ≡ some (lit "no-store, no-cache, must-revalidate, private"))
    × (lookup (lit "X-Frame-Options") (common_headers []) ≡ some (lit "DENY"))
    × (lookup (lit "X-Frame-Options") (no_cache_headers (common_headers [])) ≡ some (lit "DENY"))
unfolding no_cache_headers common_headers lookup insert str_eq lit
no_cache-common = (refl, refl, refl, refl)

-- Every response forbids framing, and a response forbids caching exactly when its path begins with
-- one of the protected prefixes.
security_headers_lem :
    (path : Str)
    → (lookup (lit "X-Frame-Options") (security_headers path []) ≡ some (lit "DENY"))
      × ((lookup (lit "Cache-Control") (security_headers path [])
            ≡ some (lit "no-store, no-cache, must-revalidate, private"))
          ↔ HasProtectedPrefix path protected_prefixes)
unfolding security_headers
security_headers_lem path =
    let (plain, strict, deny, deny_strict) = no_cache-common in
    let (to, from) = is_protected_endpoint_iff path in
    elim (Bool-cases (is_protected_endpoint path)) [
      | inl e ↦ rw (e, security_headers) (deny_strict, (λ h. to e, λ h. strict))
      | inr e ↦ rw (e, security_headers) (deny, (λ h. cc (plain, h), λ h. cc (from h, e)))
    ]
