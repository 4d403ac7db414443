-- ===== src/Cache/Ttl/Bounds.antt =====
-- The size of the cache of internal/cache/cache.go.
use onwapp.Base.{
  leb, leb→le, Bool-cases, Option-cases, length, Str, str_eq, one_of, str_eq_refl, str_eq_iff, Dict,
  lookup-delete, length-insert, HasDistinctKeys, insert-HasDistinctKeys, delete-HasDistinctKeys,
  lookup, delete, ℕ, ◌+◌, ◌-◌, ◌/◌, ◌≤◌, ◌≡◌, refl, subst, ◌⊎◌, inl, inr, Bool, true, none, some,
  List, [], ◌∷◌, arith,
}
use onwapp.Cache.Ttl.{Item, max_cache_size, is_expired, sweep, evict_oldest, set_with_ttl}

module _ {ℓ} {V : Type ℓ} where
  delete_of_none : (k : Str) (m : Dict V) → lookup k m ≡ none → delete k m ≡ m
  unfolding lookup delete
  delete_of_none k [] h = refl
  delete_of_none k ((i, w) ∷ m) h = ground (arith, delete_of_none k m)

  length-delete-some :
      (k : Str) (v : V) (m : Dict V)
      → HasDistinctKeys m
      → lookup k m ≡ some v
      → length (delete k m) + 1 ≡ length m
  unfolding lookup delete
  length-delete-some k v [] d h = cc
  length-delete-some k v ((i, w) ∷ m) d h = elim (Bool-cases (str_eq i k)) [
    | inl hit ↦
        let gone : lookup k m ≡ none =
          subst (λ t. lookup t m ≡ none) ((str_eq_iff i k).0 hit) d.0 in
        ground (arith, delete_of_none k m gone)
    | inr miss ↦ ground (arith, length-delete-some k v m d.1)
  ]

  -- The keys of a map are all in an order.
  abbrev pub Covers : List Str → Dict V → Type ℓ
  Covers ks m = (j : Str) (v : V) → lookup j m ≡ some v → one_of j ks ≡ true

  Covers-rest :
      (k : Str) (ks : List Str) (m : Dict V) → Covers (k ∷ ks) m → lookup k m ≡ none → Covers ks m
  unfolding one_of
  Covers-rest k ks m c h j v e = elim (Bool-cases (str_eq j k)) [
    | inl hit ↦ cc (subst (λ t. lookup t m ≡ some v) ((str_eq_iff j k).0 hit) e)
    | inr miss ↦ ground (arith, c j v e)
  ]

  Covers-delete :
      (k : Str) (ks : List Str) (m : Dict V) → Covers (k ∷ ks) m → Covers ks (delete k m)
  unfolding one_of
  Covers-delete k ks m c j v e =
      ground (arith, lookup-delete j k m, c j v, str_eq_iff j k, str_eq_iff k j)

  empty_of_Covers : (m : Dict V) → Covers [] m → length m ≡ 0
  unfolding one_of lookup
  empty_of_Covers [] c = refl
  empty_of_Covers ((k, v) ∷ m) c = ground (arith, str_eq_refl k, c k v)

module _ {ℓ} {V : Type ℓ} where
  -- A loop of the eviction drops as many entries as it counts, at most `n`.
  pub sweep_counts :
      (p : Item V → Bool) (n count : ℕ) (ks : List Str) (m : Dict (Item V))
      → HasDistinctKeys m
      → count ≤ n
      → ((sweep p n count ks m).0 + length (sweep p n count ks m).1 ≡ count + length m)
        × ((sweep p n count ks m).0 ≤ n)
        × HasDistinctKeys (sweep p n count ks m).1
  unfolding sweep
  sweep_counts p n count [] m d h = (refl, h, d)
  sweep_counts p n count (k ∷ ks) m d h = elim (Bool-cases (leb n count)) [
    | inl full ↦ rw (full, sweep) (refl, h, d)
    | inr room ↦ elim (Option-cases (lookup k m)) [
      | inl e ↦ rw (room, e, sweep) (sweep_counts p n count ks m d h)
      | inr (i, e) ↦ elim (Bool-cases (p i)) [
        | inr spare ↦ rw (room, e, spare, sweep) (sweep_counts p n count ks m d h)
        | inl expired ↦
            let rest =
              sweep_counts p n (count + 1) ks (delete k m) (delete-HasDistinctKeys k m d)
                (ground arith) in
            let less = length-delete-some k i m d e in
            rw (room, e, expired, sweep) (omega (arith, rest.0, less), rest.1, rest.2)
      ]
    ]
  ]

  -- A loop without a test that meets every key drops `n` entries in all, or each one.
  sweep_all :
      (n count : ℕ) (ks : List Str) (m : Dict (Item V))
      → Covers ks m
      → (n ≤ (sweep (λ i. true) n count ks m).0) ⊎ (length (sweep (λ i. true) n count ks m).1 ≡ 0)
  unfolding sweep
  sweep_all n count [] m c = inr (empty_of_Covers m c)
  sweep_all n count (k ∷ ks) m c = elim (Bool-cases (leb n count)) [
    | inl full ↦ rw (full, sweep) (inl (leb→le n count full))
    | inr room ↦ elim (Option-cases (lookup k m)) [
      | inl e ↦ rw (room, e, sweep) (sweep_all n count ks m (Covers-rest k ks m c e))
      | inr (i, e) ↦
          rw (room, e, sweep) (sweep_all n (count + 1) ks (delete k m) (Covers-delete k ks m c))
    ]
  ]

  -- `evictOldest` of `n` entries drops exactly `n`, or all if there are not as many, whatever the
  -- orders in which its loops meet the keys, if the second meets every key that the first left.
  length-evict_oldest :
      (now n : ℕ) (first then_ : List Str) (m : Dict (Item V))
      → HasDistinctKeys m
      → Covers then_ (sweep (is_expired now) n 0 first m).1
      → length (evict_oldest now n first then_ m) ≡ length m - n
  unfolding evict_oldest
  length-evict_oldest now n first then_ m d c =
      let one = sweep_counts (is_expired now) n 0 first m d (omega arith) in
      let left = (sweep (is_expired now) n 0 first m).1 in
      let count = (sweep (is_expired now) n 0 first m).0 in
      let two = sweep_counts (λ i. true) n count then_ left one.2 one.1 in
      elim (sweep_all n count then_ left c) [
        | inl enough ↦ omega (arith, one.0, one.1, two.0, two.1, enough)
        | inr empty ↦ omega (arith, one.0, one.1, two.0, two.1, empty)
      ]

  evict_oldest-HasDistinctKeys :
      (now n : ℕ) (first then_ : List Str) (m : Dict (Item V))
      → HasDistinctKeys m
      → HasDistinctKeys (evict_oldest now n first then_ m)
  unfolding evict_oldest
  evict_oldest-HasDistinctKeys now n first then_ m d =
      let one = sweep_counts (is_expired now) n 0 first m d (omega arith) in
      (sweep_counts (λ i. true) n _ then_ _ one.2 one.1).2

  -- A cache with distinct keys and at most 10000 entries has distinct keys and at most 10000
  -- entries after `SetWithTTL`, in whatever orders its eviction meets the keys, if the second
  -- loop meets every key that the first left.
  pub length-set_with_ttl :
      (now : ℕ) (first then_ : List Str) (k : Str) (v : V) (ttl : ℕ) (m : Dict (Item V))
      → HasDistinctKeys m
      → length m ≤ max_cache_size
      → Covers then_ (sweep (is_expired now) (max_cache_size / 10) 0 first m).1
      → (length (set_with_ttl now first then_ k v ttl m) ≤ max_cache_size)
        × HasDistinctKeys (set_with_ttl now first then_ k v ttl m)
  unfolding set_with_ttl
  length-set_with_ttl now first then_ k v ttl m d h c =
      let item : Item V = record { value = v; expiration = now + ttl } in
      elim (Bool-cases (leb max_cache_size (length m))) [
        | inl full ↦
            let n = max_cache_size / 10 in
            let left = evict_oldest now n first then_ m in
            rw (full, set_with_ttl)
              (
                omega (
                  arith,
                  length-insert k item left,
                  length-evict_oldest now n first then_ m d c,
                  h,
                ),
                insert-HasDistinctKeys k item left
                    (evict_oldest-HasDistinctKeys now n first then_ m d),
              )
        | inr room ↦
            rw (room, set_with_ttl)
              (ground (arith, length-insert k item m), insert-HasDistinctKeys k item m d)
      ]
