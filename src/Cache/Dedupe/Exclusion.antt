-- ===== src/Cache/Dedupe/Exclusion.antt =====
-- Who gets a key of internal/integrations/chatwoot/service/cache.go.
use onwapp.Base.{
  ltb, Bool-cases, Option-cases, All, Str, str_eq, Dict, lookup-insert, lookup-insert_self,
  lookup-delete, HasDistinctKeys, insert-HasDistinctKeys, delete-HasDistinctKeys,
  retain-HasDistinctKeys, lookup-retain-none, lookup-retain, lookup, insert, ℕ, ◌+◌, ◌≤◌, ◌<◌, ◌≡◌,
  refl, ◌↔◌, inl, inr, Bool, true, false, not, some, List, [], ◌∷◌, arith,
}
use onwapp.Cache.Dedupe.{cleanup_locked, try_acquire, release, mark, exists}

-- What other callers do with the cache at one time.
pub data Op : Type 0 where
  acquires marks releases : Str → Op

-- The key of a release.
abbrev pub frees : Str → Op → Bool
frees key (releases k) = str_eq k key
frees key _ = false

unfoldable pub perform : ℕ → ℕ → Op → Dict ℕ → Dict ℕ
unfolding try_acquire mark release
perform ttl now (acquires k) items = (try_acquire ttl now k items).1
perform ttl now (marks k) items = mark ttl now k items
perform ttl now (releases k) items = release k items

-- Operations at given times, one after the other.
unfoldable pub perform_all : ℕ → List (ℕ × Op) → Dict ℕ → Dict ℕ
unfolding perform
perform_all ttl [] items = items
perform_all ttl ((now, op) ∷ ops) items = perform_all ttl ops (perform ttl now op items)

-- The operations lie between two times and none of them frees a key.
abbrev pub AreQuiet : Str → ℕ → ℕ → List (ℕ × Op) → Type 0
AreQuiet key from to ops = All (λ (now, op). (from ≤ now) × (now ≤ to) × (frees key op ≡ false)) ops

-- The key was taken at `from` or later.
abbrev IsHeld : Str → ℕ → Dict ℕ → Type 0
IsHeld key from items = HasDistinctKeys items × ((t : ℕ) × (from ≤ t) × (lookup key items ≡ some t))

cleanup_locked-IsHeld :
    (key : Str) (ttl from now : ℕ) (items : Dict ℕ)
    → now ≤ from + ttl
    → IsHeld key from items
    → IsHeld key from (cleanup_locked ttl now items)
unfolding cleanup_locked
cleanup_locked-IsHeld key ttl from now items h (d, (t, le, e)) =
    let p : Str → ℕ → Bool = λ k t. not (ltb (t + ttl) now) in
    (retain-HasDistinctKeys p items d, (t, le, ground (arith, lookup-retain p key t items d e)))

insert-IsHeld :
    (key k : Str) (from now : ℕ) (items : Dict ℕ)
    → from ≤ now
    → IsHeld key from items
    → IsHeld key from (insert k now items)
insert-IsHeld key k from now items h (d, (t, le, e)) = (
  insert-HasDistinctKeys k now items d,
  elim (Bool-cases (str_eq k key)) [
    | inl hit ↦ (now, h, ground (arith, lookup-insert key k now items))
    | inr miss ↦ (t, le, ground (arith, lookup-insert key k now items))
  ],
)

perform-IsHeld :
    (key : Str) (ttl from now : ℕ) (op : Op) (items : Dict ℕ)
    → from ≤ now
    → now ≤ from + ttl
    → frees key op ≡ false
    → IsHeld key from items
    → IsHeld key from (perform ttl now op items)
unfolding perform try_acquire mark release
perform-IsHeld key ttl from now (acquires k) items lo hi f held =
    let left = cleanup_locked-IsHeld key ttl from now items hi held in
    elim (Option-cases (lookup k (cleanup_locked ttl now items))) [
      | inl e ↦ rw (e, perform, try_acquire) (insert-IsHeld key k from now _ lo left)
      | inr (t, e) ↦ rw (e, perform, try_acquire) left
    ]
perform-IsHeld key ttl from now (marks k) items lo hi f held =
    insert-IsHeld key k from now _ lo (cleanup_locked-IsHeld key ttl from now items hi held)
perform-IsHeld key ttl from now (releases k) items lo hi f (d, (t, le, e)) =
    (delete-HasDistinctKeys k items d, (t, le, ground (arith, lookup-delete key k items)))

perform_all-IsHeld :
    (key : Str) (ttl from : ℕ) (ops : List (ℕ × Op)) (items : Dict ℕ)
    → AreQuiet key from (from + ttl) ops
    → IsHeld key from items
    → IsHeld key from (perform_all ttl ops items)
unfolding perform_all
perform_all-IsHeld key ttl from [] items q held = held
perform_all-IsHeld key ttl from ((now, op) ∷ ops) items q held =
    perform_all-IsHeld key ttl from ops (perform ttl now op items) q.1
      (perform-IsHeld key ttl from now op items q.0.0 q.0.1 q.0.2 held)

acquired-IsHeld :
    (key : Str) (ttl now : ℕ) (items : Dict ℕ)
    → HasDistinctKeys items
    → (try_acquire ttl now key items).0 ≡ true
    → IsHeld key now (try_acquire ttl now key items).1
unfolding try_acquire cleanup_locked
acquired-IsHeld key ttl now items d h =
    let left = cleanup_locked ttl now items in
    elim (Option-cases (lookup key left)) [
      | inr (t, e) ↦ cc (rw (e, try_acquire) at h)
      | inl e ↦
          rw (e, try_acquire)
            (
              insert-HasDistinctKeys key now left (retain-HasDistinctKeys _ items d),
              (now, omega arith, lookup-insert_self key now left),
            )
    ]

-- After a caller has taken a key of a map with distinct keys by `TryAcquire`, every other
-- `TryAcquire` of the key fails to the end of its lifetime, whatever calls come between in that
-- time, as long as none releases the key.
pub try_acquire-excludes :
    (key : Str) (ttl now later : ℕ) (ops : List (ℕ × Op)) (items : Dict ℕ)
    → HasDistinctKeys items
    → (try_acquire ttl now key items).0 ≡ true
    → AreQuiet key now (now + ttl) ops
    → later ≤ now + ttl
    → (try_acquire ttl later key (perform_all ttl ops (try_acquire ttl now key items).1)).0 ≡ false
unfolding try_acquire
try_acquire-excludes key ttl now later ops items d h q le =
    let start = acquired-IsHeld key ttl now items d h in
    let held = perform_all-IsHeld key ttl now ops _ q start in
    let (d2, (t, lo, e)) = cleanup_locked-IsHeld key ttl now later _ le held in
    rw (e, try_acquire) refl

-- In a map with distinct keys, `TryAcquire` fails exactly if the key was taken and its lifetime
-- is not over, and `Exists` holds exactly if the key was taken and its lifetime does not end
-- before or at this time: at the very end of the lifetime `TryAcquire` fails and `Exists` does
-- not hold.
try_acquire_iff :
    (key : Str) (ttl now : ℕ) (items : Dict ℕ)
    → HasDistinctKeys items
    → (((try_acquire ttl now key items).0 ≡ false)
        ↔ ((t : ℕ) × (lookup key items ≡ some t) × (now ≤ t + ttl)))
      × ((exists ttl now key items ≡ true)
          ↔ ((t : ℕ) × (lookup key items ≡ some t) × (now < t + ttl)))
unfolding try_acquire cleanup_locked exists
try_acquire_iff key ttl now items d =
    let p : Str → ℕ → Bool = λ k t. not (ltb (t + ttl) now) in
    elim (Option-cases (lookup key items)) [
      | inl e ↦ ground (arith, lookup-retain-none p key items e)
      | inr (t, e) ↦ ground (arith, lookup-retain p key t items d e)
    ]
