-- ===== src/Cache/Ttl/Answers.antt =====
-- What `Get` answers after the operations of internal/cache/cache.go.
use onwapp.Base.{
  leb, if◌then◌else◌, Bool-cases, Option-cases, length, Str, lit, str_eq, has_prefix,
  has_prefix-append, Dict, lookup-insert, lookup-insert_self, lookup-delete, HasDistinctKeys,
  retain-HasDistinctKeys, lookup-retain-none, lookup-retain, lookup, delete, ℕ, ◌+◌, ◌/◌, ◌≤◌, ◌≡◌,
  refl, ap, subst, ◌∙◌, ◌⊎◌, inl, inr, Bool, true, false, not, none, some, List, [], ◌∷◌, ◌++◌,
  append-nil, arith,
}
use onwapp.Cache.Ttl.{
  Item, max_cache_size, is_expired, sweep, evict_oldest, get, set_with_ttl, cleanup,
  invalidate_session, get_groups, get_contacts, delete_prefix,
}

has_prefix_self : (s : Str) → has_prefix s s ≡ true
has_prefix_self s = subst (λ t. has_prefix t s ≡ true) (append-nil s) (has_prefix-append s [])

module _ {ℓ} {V : Type ℓ} where
  lookup-sweep :
      (p : Item V → Bool) (n count : ℕ) (ks : List Str) (m : Dict (Item V)) (j : Str)
      → (lookup j (sweep p n count ks m).1 ≡ lookup j m)
        ⊎ (lookup j (sweep p n count ks m).1 ≡ none)
  unfolding sweep
  lookup-sweep p n count [] m j = inl refl
  lookup-sweep p n count (k ∷ ks) m j = ground (
    arith,
    lookup-sweep p n count ks m j,
    lookup-sweep p n (count + 1) ks (delete k m) j,
    lookup-delete j k m,
  )

  lookup-evict_oldest :
      (now n : ℕ) (first then_ : List Str) (m : Dict (Item V)) (j : Str)
      → (lookup j (evict_oldest now n first then_ m) ≡ lookup j m)
        ⊎ (lookup j (evict_oldest now n first then_ m) ≡ none)
  unfolding evict_oldest
  lookup-evict_oldest now n first then_ m j =
      let (count, left) = sweep (is_expired now) n 0 first m in
      ground (
        arith,
        lookup-sweep (is_expired now) n 0 first m j,
        lookup-sweep (λ i. true) n (sweep (is_expired now) n 0 first m).0 then_
            (sweep (is_expired now) n 0 first m).1 j,
      )

  -- `cleanup` changes no answer from its time on.
  get-cleanup :
      (now later : ℕ) (k : Str) (m : Dict (Item V))
      → HasDistinctKeys m
      → now ≤ later
      → get later k (cleanup now m) ≡ get later k m
  unfolding get cleanup
  get-cleanup now later k m d h = elim (Option-cases (lookup k m)) [
    | inl e ↦ ground (arith, lookup-retain-none (λ k i. not (is_expired now i)) k m e)
    | inr (i, e) ↦ ground (arith, lookup-retain (λ k i. not (is_expired now i)) k i m d e)
  ]

  lookup-delete_prefix :
      (k prefix : Str) (m : Dict (Item V))
      → HasDistinctKeys m
      → lookup k (delete_prefix prefix m) ≡ (if has_prefix k prefix then none else lookup k m)
  unfolding delete_prefix
  lookup-delete_prefix k prefix m d =
      let p : Str → Item V → Bool = λ k i. not (has_prefix k prefix) in
      elim (Option-cases (lookup k m)) [
        | inl e ↦ ground (arith, lookup-retain-none p k m e)
        | inr (i, e) ↦ ground (arith, lookup-retain p k i m d e)
      ]

  delete_prefix-HasDistinctKeys :
      (prefix : Str) (m : Dict (Item V))
      → HasDistinctKeys m
      → HasDistinctKeys (delete_prefix prefix m)
  unfolding delete_prefix
  delete_prefix-HasDistinctKeys prefix m d = retain-HasDistinctKeys _ m d

  -- The key `k` after the two deletions of `InvalidateSession`.
  lookup-invalidate_session :
      (k id : Str) (m : Dict (Item V))
      → HasDistinctKeys m
      → lookup k (invalidate_session id m) ≡ (
          if has_prefix k (lit "contacts:" ++ id)
          then none
          else if has_prefix k (lit "groups:" ++ id)
          then none
          else lookup k m)
  unfolding invalidate_session
  lookup-invalidate_session k id m d =
      let left = delete_prefix (lit "groups:" ++ id) m in
      let distinct = delete_prefix-HasDistinctKeys (lit "groups:" ++ id) m d in
      lookup-delete_prefix k (lit "contacts:" ++ id) left distinct
      ∙ ap (λ o. if has_prefix k (lit "contacts:" ++ id) then none else o)
          (lookup-delete_prefix k (lit "groups:" ++ id) m d)

  -- In a map with distinct keys, `InvalidateSession` leaves neither groups nor contacts of the
  -- session, and leaves those of a session whose ID does not begin with its ID.
  invalidate_session_lem :
      (now : ℕ) (id other : Str) (m : Dict (Item V))
      → HasDistinctKeys m
      → has_prefix other id ≡ false
      → let after = invalidate_session id m in
        (get_groups now id after ≡ none)
        × (get_contacts now id after ≡ none)
        × (get_groups now other after ≡ get_groups now other m)
        × (get_contacts now other after ≡ get_contacts now other m)
  unfolding get_groups get_contacts get lit has_prefix
  invalidate_session_lem now id other m d apart = ground (
    arith,
    lookup-invalidate_session (lit "groups:" ++ id) id m d,
    lookup-invalidate_session (lit "contacts:" ++ id) id m d,
    lookup-invalidate_session (lit "groups:" ++ other) id m d,
    lookup-invalidate_session (lit "contacts:" ++ other) id m d,
    has_prefix_self id,
  )

module _ {V : Type 0} where
  -- After `SetWithTTL` at `now`, `Get` at `later` answers the new value of that key up to the end of
  -- its lifetime and nothing after it. Of another key it answers what it did before, or nothing if
  -- the cache was full.
  pub get-set_with_ttl :
      (now later : ℕ) (first then_ : List Str) (k j : Str) (v : V) (ttl : ℕ) (m : Dict (Item V))
      → str_eq k j ≡ false
      → let after = set_with_ttl now first then_ k v ttl m in
        (get later k after ≡ (if leb later (now + ttl) then some v else none))
        × ((get later j after ≡ get later j m)
            ⊎ ((get later j after ≡ none) × (max_cache_size ≤ length m)))
  unfolding get set_with_ttl
  get-set_with_ttl now later first then_ k j v ttl m other =
      let item : Item V = record { value = v; expiration = now + ttl } in
      let left = evict_oldest now (max_cache_size / 10) first then_ m in
      elim (Bool-cases (leb max_cache_size (length m))) [
        | inl full ↦ ground (
          arith,
          lookup-insert_self k item left,
          lookup-insert j k item left,
          lookup-evict_oldest now (max_cache_size / 10) first then_ m j,
        )
        | inr room ↦ ground (arith, lookup-insert_self k item m, lookup-insert j k item m)
      ]
