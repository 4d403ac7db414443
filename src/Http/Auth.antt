-- ===== src/Http/Auth.antt =====
-- internal/api/middleware/middleware.go: the API key and the session guard.
pub mod Guard
use onwapp.Base.{
  if◌then◌else◌, Str, is_empty, str_eq, lookup, ℕ, Bool, true, false, not, ◌&&◌, Option, none, some,
}

-- The values that the middleware stores under "auth_type".
pub data AuthType : Type 0 where
  global session : AuthType

-- What the middleware reads and writes of a `gin.Context`. A key that is not set reads as `none`; a
-- header or parameter that is missing reads as the empty text.
pub record Context : Type 0 where
  pub header_authorization : Str
  pub query_auth : Str
  pub param_session : Str
  pub auth_type : Option AuthType
  pub auth_session : Option Str

-- `c.Next()` on the context, or an abort with a status.
pub data Verdict : Type 0 where
  next : Context → Verdict
  abort : ℕ → Verdict

infixl 5 ◌>>=◌
abbrev pub ◌>>=◌ : Verdict → (Context → Verdict) → Verdict
next c >>= k = k c
abort code >>= k = abort code

-- A lookup that may be nil; a lookup that finds no session for a key answers `none`.
abbrev pub SessionKeyLookup : Type 0
SessionKeyLookup = Option (Str → Option Str)

-- `sessionLookup == nil`
abbrev is_nil : SessionKeyLookup → Bool
is_nil none = true
is_nil (some f) = false

-- The token of a request: the header's, else the query's.
unfoldable pub token : Context → Str
token c = if is_empty c.header_authorization then c.query_auth else c.header_authorization

abbrev as_global : Context → Context
as_global c = record c { auth_type = some global }

abbrev as_session : Str → Context → Context
as_session name c = record c { auth_type = some session; auth_session = some name }

-- The answer of a lookup that may be nil.
abbrev answer : SessionKeyLookup → Str → Option Str
answer none t = none
answer (some f) t = f t

-- `Auth`
unfoldable pub auth : Str → SessionKeyLookup → Context → Verdict
unfolding token
auth key lookup c =
    if is_empty key && is_nil lookup
    then next c
    else if is_empty (token c)
    then abort 401
    else if not (is_empty key) && str_eq (token c) key
    then next (as_global c)
    else elim (answer lookup (token c)) [ some name ↦ next (as_session name c) | none ↦ abort 401 ]

-- `AuthCheck`: the context as it is left, and the answer.
unfoldable pub auth_check : Str → SessionKeyLookup → Context → Context × Bool
unfolding token
auth_check key lookup c =
    if is_empty key && is_nil lookup
    then (c, true)
    else if is_empty (token c)
    then (c, false)
    else if not (is_empty key) && str_eq (token c) key
    then (as_global c, true)
    else elim (answer lookup (token c)) [
      | some name ↦ (as_session name c, true)
      | none ↦ (c, false)
    ]

-- `authSession == requestedSession`, false if the key is not set.
abbrev same_session : Option Str → Str → Bool
same_session none s = false
same_session (some t) s = str_eq t s

-- `SessionAuth`, by the value under "auth_type".
unfoldable pub session_auth : Context → Verdict
session_auth c = elim c.auth_type [
  | none ↦ abort 401
  | some t ↦ elim t [
    | global ↦ next c
    | session ↦ if same_session c.auth_session c.param_session then next c else abort 403
  ]
]
