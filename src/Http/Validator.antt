-- ===== src/Http/Validator.antt =====
-- internal/validator/validator.go: which URLs a webhook may have. Parsing, DNS and the tests of
-- addresses of packages net and net/url are arguments.
use onwapp.Base.{
  if◌then◌else◌, Option-cases, all, any, Str, is_empty, lit, str_eq, one_of, contains, ◌≡◌, refl,
  ◌≢◌, ◌↔◌, inl, inr, Bool, true, false, not, ◌&&◌, ◌||◌, Option, none, some, List, [], ◌∷◌, arith,
}

-- `url.URL`: the scheme, the host as it is written, and `Hostname`.
pub record Url : Type 0 where
  pub scheme : Str
  pub host : Str
  pub hostname : Str

-- Packages net and net/url: an address may be nil, `none`; the blocks are those of `init`.
pub record NetLib : Type 1 where
  pub Ip : Type 0
  pub parse : Str → Option Url
  pub to_lower : Str → Str
  pub lookup_ip : Str → Option (List (Option Ip))
  pub is_loopback : Ip → Bool
  pub private_ip_blocks : List (Ip → Bool)

-- The messages of `ValidationError`.
pub data UrlError : Type 0 where
  url_required invalid_url scheme_not_allowed no_hostname localhost_not_allowed private_ip
        not_https :
      UrlError

-- `blockedHosts`
unfoldable pub blocked_hosts : List Str
unfolding lit
blocked_hosts = lit "localhost" ∷ lit "127.0.0.1" ∷ lit "0.0.0.0" ∷ lit "[::1]" ∷ lit "::1" ∷ []

-- A name of the host itself.
unfoldable pub is_local : Str → Bool
unfolding str_eq lit
is_local host =
    str_eq host (lit "localhost")
    || str_eq host (lit "127.0.0.1")
    || str_eq host (lit "0.0.0.0")
    || str_eq host (lit "[::1]")
    || str_eq host (lit "::1")

is_local_lem : (host : Str) → one_of host blocked_hosts ≡ is_local host
unfolding is_local blocked_hosts one_of
is_local_lem host = ground arith

module _ (p : NetLib) where
  -- `IsPrivateIP`
  unfoldable pub is_private_ip : Option p.Ip → Bool
  is_private_ip none = true
  is_private_ip (some ip) = p.is_loopback ip || any (λ contains_. contains_ ip) p.private_ip_blocks

  -- The addresses of a host; a failed lookup lets the URL pass.
  unfoldable pub check_ips : Str → Option UrlError
  unfolding is_private_ip
  check_ips hostname = elim (p.lookup_ip hostname) [
    | none ↦ none
    | some ips ↦ if any is_private_ip ips then some private_ip else none
  ]

  -- `ValidateURL` of a URL that parses.
  unfoldable pub check_url : Url → Option UrlError
  unfolding check_ips blocked_hosts one_of str_eq lit
  check_url u =
      if not (str_eq u.scheme (lit "http")) && not (str_eq u.scheme (lit "https"))
      then some scheme_not_allowed
      else if is_empty u.hostname
      then some no_hostname
      else if one_of (p.to_lower u.hostname) blocked_hosts
      then some localhost_not_allowed
      else check_ips u.hostname

  -- `ValidateURL` and `ValidateURLWithTimeout`: none is no error.
  unfoldable pub validate_url : Str → Option UrlError
  unfolding check_url
  validate_url raw =
      if is_empty raw
      then some url_required
      else elim (p.parse raw) [ none ↦ some invalid_url | some u ↦ check_url u ]

  -- The scheme of a webhook URL that is valid; it parses then.
  unfoldable pub check_https : Option Url → Option UrlError
  unfolding str_eq contains lit
  check_https none = none
  check_https (some u) =
      if not (str_eq u.scheme (lit "https")) && not (contains u.host (lit "localhost"))
      then some not_https
      else none

  -- `ValidateWebhookURL`
  unfoldable pub validate_webhook_url : Str → Option UrlError
  unfolding validate_url check_https
  validate_webhook_url raw = elim (validate_url raw) [
    | some e ↦ some e
    | none ↦ check_https (p.parse raw)
  ]

  -- An address that may be called.
  unfoldable pub is_public : Option p.Ip → Bool
  is_public none = false
  is_public (some ip) = not (p.is_loopback ip) && all (λ block. not (block ip)) p.private_ip_blocks

  outside_blocks :
      (ip : p.Ip) (blocks : List (p.Ip → Bool))
      → all (λ block. not (block ip)) blocks ≡ not (any (λ block. block ip) blocks)
  outside_blocks ip [] = refl
  outside_blocks ip (block ∷ blocks) = ground (arith, outside_blocks ip blocks)

  is_public_lem : (o : Option p.Ip) → is_public o ≡ not (is_private_ip o)
  unfolding is_public is_private_ip
  is_public_lem none = refl
  is_public_lem (some ip) = ground (arith, outside_blocks ip p.private_ip_blocks)

  all_public : (ips : List (Option p.Ip)) → all is_public ips ≡ not (any is_private_ip ips)
  all_public [] = refl
  all_public (o ∷ ips) = ground (arith, is_public_lem o, all_public ips)

  -- All addresses that the lookup of a host finds are public; it may fail.
  unfoldable pub is_reachable : Str → Bool
  unfolding is_public
  is_reachable hostname = elim (p.lookup_ip hostname) [ none ↦ true | some ips ↦ all is_public ips ]

  check_ips_iff : (hostname : Str) → (check_ips hostname ≡ none) ↔ (is_reachable hostname ≡ true)
  unfolding check_ips is_reachable
  check_ips_iff hostname = elim (Option-cases (p.lookup_ip hostname)) [
    | inl e ↦ ground arith
    | inr (ips, e) ↦ ground (arith, all_public ips)
  ]

  -- What a webhook URL has to be.
  abbrev pub IsWebhookUrl : Str → Url → Type 0
  IsWebhookUrl raw u =
      (is_empty raw ≡ false)
      × ((str_eq u.scheme (lit "http") || str_eq u.scheme (lit "https")) ≡ true)
      × (is_empty u.hostname ≡ false)
      × (is_local (p.to_lower u.hostname) ≡ false)
      × (is_reachable u.hostname ≡ true)
      × ((str_eq u.scheme (lit "https") || contains u.host (lit "localhost")) ≡ true)

  parsed :
      (raw : Str) (u : Url)
      → p.parse raw ≡ some u
      → (validate_webhook_url raw ≡ none) ↔ IsWebhookUrl raw u
  unfolding validate_webhook_url validate_url check_url check_https
  parsed raw u h = ground (arith, check_ips_iff u.hostname, is_local_lem (p.to_lower u.hostname))

  unparsed : (raw : Str) → p.parse raw ≡ none → validate_webhook_url raw ≢ none
  unfolding validate_webhook_url validate_url
  unparsed raw h k = ground arith

  -- A webhook URL is accepted exactly if it is not empty and parses to a URL of scheme http or
  -- https with a host that in lower case is not "localhost", "127.0.0.1", "0.0.0.0", "[::1]" or
  -- "::1", and that has scheme https or mentions localhost in its host, where the lookup of the host
  -- fails, or each address that it finds is given, is no loopback address and lies outside all
  -- private blocks.
  pub validate_webhook_url_iff :
      (raw : Str)
      → (validate_webhook_url raw ≡ none)
        ↔ ((u : Url) × (p.parse raw ≡ some u) × IsWebhookUrl raw u)
  validate_webhook_url_iff raw = elim (Option-cases (p.parse raw)) [
    | inl e ↦ (λ h. absurd (unparsed raw e h), λ (u, f, w). cc)
    | inr (u, e) ↦ (λ h. (u, e, (parsed raw u e).0 h), λ (v, f, w). (parsed raw v f).1 w)
  ]
