-- ===== src/Http/Auth/Guard.antt =====
-- Who passes the API key check and the session guard behind it.
use onwapp.Base.{
  if◌then◌else◌, Bool-cases, Option-cases, Str, is_empty, str_eq, str_eq_refl, str_eq_iff,
  is_empty_iff, lookup, ◌≡◌, refl, ◌≢◌, ◌↔◌, ◌⊎◌, inl, inr, not, ◌&&◌, Option, none, some, [],
  arith,
}
use onwapp.Http.Auth.{
  Context, Verdict, next, abort, ◌>>=◌, SessionKeyLookup, token, auth, auth_check, session_auth,
}

-- `Auth` lets a request through exactly when `AuthCheck` says so, with the same context, and answers
-- 401 otherwise.
auth-auth_check :
    (key : Str) (lookup : SessionKeyLookup) (c : Context)
    → auth key lookup c
      ≡ (if (auth_check key lookup c).1 then next (auth_check key lookup c).0 else abort 401)
unfolding auth auth_check
auth-auth_check key none c = ground arith
auth-auth_check key (some f) c = ground arith

-- The routes below /:session: first `Auth`, then `SessionAuth`.
pub session_route : Str → SessionKeyLookup → Context → Verdict
session_route key lookup c = auth key lookup c >>= session_auth

-- A request that no middleware has marked yet.
abbrev pub IsUnmarked : Context → Type 0
IsUnmarked c = (c.auth_type ≡ none) × (c.auth_session ≡ none)

-- The token is the global key, or a session key of the session that the route names.
abbrev pub IsEntitled : Str → SessionKeyLookup → Context → Type 0
IsEntitled key lookup c =
    (token c ≢ [])
    × (((key ≢ []) × (token c ≡ key))
        ⊎ ((f : Str → Option Str) × (lookup ≡ some f) × (f (token c) ≡ some c.param_session)))

abbrev pub Passes : Verdict → Type 0
Passes (next c) = Unit
Passes (abort code) = ⊥

session_route_sound :
    (key : Str) (lookup : SessionKeyLookup) (c : Context)
    → IsUnmarked c
    → Passes (session_route key lookup c)
    → IsEntitled key lookup c
unfolding session_route auth session_auth
session_route_sound key none c u h = (
  λ e. ground (arith, is_empty_iff (token c)),
  inl (ground (arith, is_empty_iff key), ground (arith, str_eq_iff (token c) key)),
)
session_route_sound key (some f) c u h =
    elim (Bool-cases (not (is_empty key) && str_eq (token c) key)) [
      | inl m ↦ (
        λ e. ground (arith, is_empty_iff (token c)),
        inl (ground (arith, is_empty_iff key), ground (arith, str_eq_iff (token c) key)),
      )
      | inr m ↦ (
        λ e. ground (arith, is_empty_iff (token c)),
        inr (
          f,
          refl,
          elim (Option-cases (f (token c))) [
            | inl e ↦ ground arith
            | inr (name, e) ↦ ground (arith, str_eq_iff name c.param_session)
          ],
        ),
      )
    ]

session_route_complete :
    (key : Str) (lookup : SessionKeyLookup) (c : Context)
    → IsEntitled key lookup c
    → Passes (session_route key lookup c)
unfolding session_route auth session_auth
session_route_complete key none c h =
    ground (arith, is_empty_iff (token c), is_empty_iff key, str_eq_iff (token c) key)
session_route_complete key (some f) c h = ground (
  arith,
  is_empty_iff (token c),
  is_empty_iff key,
  str_eq_iff (token c) key,
  str_eq_refl c.param_session,
)

-- A request for a session's route that no middleware has marked yet is handled exactly when its
-- token is not empty and is the global key, which is not empty, or a key that the lookup maps to
-- that very session.
pub session_route_iff :
    (key : Str) (lookup : SessionKeyLookup) (c : Context)
    → IsUnmarked c
    → Passes (session_route key lookup c) ↔ IsEntitled key lookup c
session_route_iff key lookup c u =
    (session_route_sound key lookup c u, session_route_complete key lookup c)

-- A token that is not empty and is the key of another session is refused with 403, unless it is
-- also the global key.
session_route_foreign :
    (key : Str) (f : Str → Option Str) (c : Context) (name : Str)
    → token c ≢ []
    → token c ≢ key
    → f (token c) ≡ some name
    → name ≢ c.param_session
    → session_route key (some f) c ≡ abort 403
unfolding session_route auth session_auth
session_route_foreign key f c name h k e n =
    ground
      (arith, is_empty_iff (token c), str_eq_iff (token c) key, str_eq_iff name c.param_session)

-- Without a global key and without a lookup `Auth` lets every request through, and `SessionAuth`
-- then answers 401 to each.
open_server_rejects :
    (c : Context) → IsUnmarked c → (auth [] none c ≡ next c) × (session_route [] none c ≡ abort 401)
unfolding session_route auth session_auth
open_server_rejects c u = ground arith
