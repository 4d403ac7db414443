-- ===== src/Cache/Ttl.antt =====
-- The cache of internal/cache/cache.go and the session cache on it. Times are numbers of a
-- monotone clock; a loop over a Go map gets the order in which it meets the keys.
pub mod Bounds
pub mod Answers
use onwapp.Base.{
  ltb, leb, if◌then◌else◌, length, Str, lit, has_prefix, Dict, lookup, insert, delete, retain, ℕ,
  ◌+◌, ◌/◌, Bool, true, not, Option, none, some, List, [], ◌∷◌, ◌++◌,
}

pub record Item {ℓ} (V : Type ℓ) : Type ℓ where
  pub value : V
  pub expiration : ℕ

abbrev pub max_cache_size : ℕ
max_cache_size = 10000

module _ {ℓ} {V : Type ℓ} where
  -- `IsExpired`, at the time `now`.
  abbrev pub is_expired : ℕ → Item V → Bool
  is_expired now i = ltb i.expiration now

  -- One loop of `evictOldest`: it stops when `n` entries are gone, of which `count` are already.
  unfoldable pub sweep : (Item V → Bool) → ℕ → ℕ → List Str → Dict (Item V) → ℕ × Dict (Item V)
  unfolding lookup delete
  sweep p n count [] m = (count, m)
  sweep p n count (k ∷ ks) m = if leb n count then (count, m) else elim (lookup k m) [
    | none ↦ sweep p n count ks m
    | some i ↦ if p i then sweep p n (count + 1) ks (delete k m) else sweep p n count ks m
  ]

  -- `evictOldest`: the expired entries, in the order `first`, then any, in the order `then_`.
  unfoldable pub evict_oldest : ℕ → ℕ → List Str → List Str → Dict (Item V) → Dict (Item V)
  unfolding sweep
  evict_oldest now n first then_ m =
      let (count, left) = sweep (is_expired now) n 0 first m in
      (sweep (λ i. true) n count then_ left).1

  -- `Get`
  unfoldable pub get : ℕ → Str → Dict (Item V) → Option V
  unfolding lookup
  get now k m = elim (lookup k m) [
    | none ↦ none
    | some i ↦ if is_expired now i then none else some i.value
  ]

  -- `SetWithTTL`
  unfoldable pub set_with_ttl :
      ℕ → List Str → List Str → Str → V → ℕ → Dict (Item V) → Dict (Item V)
  unfolding evict_oldest insert
  set_with_ttl now first then_ k v ttl m =
      let room =
        if leb max_cache_size (length m)
        then evict_oldest now (max_cache_size / 10) first then_ m
        else m in
      insert k (record { value = v; expiration = now + ttl }) room

  -- `DeletePrefix`
  unfoldable pub delete_prefix : Str → Dict (Item V) → Dict (Item V)
  unfolding retain has_prefix
  delete_prefix prefix m = retain (λ k i. not (has_prefix k prefix)) m

  -- One tick of `cleanup`.
  unfoldable pub cleanup : ℕ → Dict (Item V) → Dict (Item V)
  unfolding retain
  cleanup now m = retain (λ k i. not (is_expired now i)) m

  -- `SessionCache`, whose cache has a lifetime of 30 seconds; times are in seconds here.
  unfoldable pub get_groups : ℕ → Str → Dict (Item V) → Option V
  unfolding get lit
  get_groups now id m = get now (lit "groups:" ++ id) m

  unfoldable pub set_groups : ℕ → List Str → List Str → Str → V → Dict (Item V) → Dict (Item V)
  unfolding set_with_ttl lit
  set_groups now first then_ id v m = set_with_ttl now first then_ (lit "groups:" ++ id) v 30 m

  unfoldable pub get_contacts : ℕ → Str → Dict (Item V) → Option V
  unfolding get lit
  get_contacts now id m = get now (lit "contacts:" ++ id) m

  unfoldable pub set_contacts : ℕ → List Str → List Str → Str → V → Dict (Item V) → Dict (Item V)
  unfolding set_with_ttl lit
  set_contacts now first then_ id v m = set_with_ttl now first then_ (lit "contacts:" ++ id) v 30 m

  -- `InvalidateGroups` and `InvalidateContacts`
  unfoldable pub invalidate_groups : Str → Dict (Item V) → Dict (Item V)
  unfolding delete lit
  invalidate_groups id m = delete (lit "groups:" ++ id) m

  unfoldable pub invalidate_contacts : Str → Dict (Item V) → Dict (Item V)
  unfolding delete lit
  invalidate_contacts id m = delete (lit "contacts:" ++ id) m

  -- `InvalidateSession`
  unfoldable pub invalidate_session : Str → Dict (Item V) → Dict (Item V)
  unfolding delete_prefix lit
  invalidate_session id m =
      delete_prefix (lit "contacts:" ++ id) (delete_prefix (lit "groups:" ++ id) m)
