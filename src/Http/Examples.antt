-- ===== src/Http/Examples.antt =====
-- The theorems on internal/api/middleware and the pagination at concrete requests.
use onwapp.Base.{
  ltb, ◌==◌, if◌then◌else◌, length, keep, Str, lit, ℤ, pos, pos_part, ℕ, ◌-◌, ◌≡◌, refl, ◌↔◌,
  Option, none, some, List, [], ◌∷◌,
}
use onwapp.Http.Validator.{
  Url, NetLib, IsWebhookUrl, validate_webhook_url, validate_webhook_url_iff,
}
use onwapp.Http.Auth.{Context}
use onwapp.Http.Auth.Guard.{session_route, session_route_iff, IsEntitled, Passes}
use onwapp.Http.RateLimit.{RateLib, Request, RateLimiter}
use onwapp.Http.RateLimit.Isolation.{is_same_client, answers_of, answers_isolated}

abbrev master : Str
master = b'M' ∷ []

-- The key "k" belongs to the session "s".
abbrev keys : Str → Option Str
keys [] = none
keys (c ∷ cs) = if c == b'k' then some (b's' ∷ []) else none

abbrev request_for : Str → Str → Context
request_for key name = record {
  header_authorization = key;
  query_auth = [];
  param_session = name;
  auth_type = none;
  auth_session = none;
}

abbrev k1 : Str
k1 = b'k' ∷ []

abbrev own : Context
own = request_for k1 (b's' ∷ [])

abbrev foreign : Context
foreign = request_for k1 (b't' ∷ [])

session_route_iff_example :
    Passes (session_route master (some keys) own) ↔ IsEntitled master (some keys) own
session_route_iff_example = session_route_iff master (some keys) own (refl, refl)

-- A bucket of a number of tokens that never fills again.
abbrev buckets : RateLib
buckets = record {
  Limit = ℕ;
  Limiter = ℕ;
  new_limiter = λ rate burst. pos_part burst;
  allow = λ now left. (left - 1, ltb 0 left);
}

abbrev limited : RateLimiter buckets
limited = record {
  config = record { requests_per_second = 1; burst = pos 2; ttl = 60 };
  clients = (b'x' ∷ [], record { limiter = 1; last_seen = 100 }) ∷ [];
}

abbrev from_ip : Str → Request
from_ip ip = record { authorization = []; client_ip = ip }

abbrev with_key : Str → Request
with_key key = record { authorization = key; client_ip = [] }

abbrev traffic : List (ℕ × Request)
traffic = (110, from_ip k1) ∷ (111, with_key k1) ∷ (112, from_ip k1) ∷ (113, from_ip k1) ∷ []

answers_isolated_example :
    answers_of (from_ip k1) traffic limited
    ≡ answers_of (from_ip k1) (keep (λ r. is_same_client (from_ip k1) r.1) traffic) limited
answers_isolated_example = answers_isolated (from_ip k1) traffic limited

-- Texts that stand for the number of their bytes.
abbrev unary : Str → Option ℤ
unary s = some (pos (length s))

abbrev hook_url : Url
hook_url = record { scheme = lit "https"; host = lit "a.com"; hostname = lit "a.com" }

-- A net with one host, of one public address.
abbrev net : NetLib
net = record {
  Ip = ℕ;
  parse = λ s. some hook_url;
  to_lower = λ s. s;
  lookup_ip = λ s. some (some 8 ∷ []);
  is_loopback = λ ip. ip == 127;
  private_ip_blocks = (λ ip. ip == 10) ∷ [];
}

validate_webhook_url_iff_example :
    (validate_webhook_url net (lit "https://a.com") ≡ none)
    ↔ ((u : Url) × (some hook_url ≡ some u) × IsWebhookUrl net (lit "https://a.com") u)
validate_webhook_url_iff_example = validate_webhook_url_iff net (lit "https://a.com")
