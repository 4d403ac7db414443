-- ===== src/Cache/Examples.antt =====
-- The theorems on the caches at small maps.
use onwapp.Base.{
  leb, if◌then◌else◌, length, Str, lit, str_eq, one_of, str_eq_iff, Dict, HasDistinctKeys, lookup,
  delete, ℕ, ◌+◌, ◌/◌, ◌≤◌, ◌≡◌, refl, false, none, some, List, [], ◌∷◌, arith,
}
use onwapp.Cache.Ttl.{Item, max_cache_size, is_expired, sweep, get, set_with_ttl}
use onwapp.Cache.Ttl.Bounds.{Covers, length-set_with_ttl}
use onwapp.Cache.Ttl.Answers.{get-set_with_ttl}
use onwapp.Cache.Dedupe.{try_acquire}
use onwapp.Cache.Dedupe.Exclusion.{Op, acquires, marks, releases, perform_all, try_acquire-excludes}

abbrev a : Str
a = b'a' ∷ []

abbrev b : Str
b = b'b' ∷ []

-- "a" has expired at 20, "b" has not.
abbrev items : Dict (Item ℕ)
items = (a, record { value = 1; expiration = 10 }) ∷ (b, record { value = 2; expiration = 30 }) ∷ []

items-HasDistinctKeys : HasDistinctKeys items
unfolding lookup str_eq
items-HasDistinctKeys = (refl, (refl, tt))

all_swept : Covers (a ∷ b ∷ []) (sweep (is_expired 20) (max_cache_size / 10) 0 (a ∷ b ∷ []) items).1
unfolding sweep lookup delete str_eq one_of
all_swept j v h = ground (arith, str_eq_iff b j, str_eq_iff j b)

length-set_with_ttl_example :
    length (set_with_ttl 20 (a ∷ b ∷ []) (a ∷ b ∷ []) a 3 30 items) ≤ max_cache_size
length-set_with_ttl_example =
    (length-set_with_ttl 20 (a ∷ b ∷ []) (a ∷ b ∷ []) a 3 30 items items-HasDistinctKeys
      (omega arith) all_swept).0

get-set_with_ttl_example :
    get 50 a (set_with_ttl 20 [] [] a 3 30 items) ≡ (if leb 50 (20 + 30) then some 3 else none)
unfolding str_eq
get-set_with_ttl_example = (get-set_with_ttl 20 50 [] [] a b 3 30 items refl).0

abbrev groups : Dict (Item ℕ)
groups = (lit "groups:s", record { value = 1; expiration = 10 }) ∷ []

-- Between two attempts at "a", "b" is taken, marked and released, and "a" is marked.
abbrev busy : List (ℕ × Op)
busy = (6, acquires b) ∷ (7, marks b) ∷ (8, marks a) ∷ (9, releases b) ∷ []

try_acquire-excludes_example :
    (try_acquire 10 15 a (perform_all 10 busy (try_acquire 10 5 a []).1)).0 ≡ false
unfolding try_acquire str_eq lookup
try_acquire-excludes_example =
    try_acquire-excludes a 10 5 15 busy [] tt refl
      (
        (omega arith, omega arith, refl),
        (
          (omega arith, omega arith, refl),
          ((omega arith, omega arith, refl), ((omega arith, omega arith, refl), tt)),
        ),
      )
      (omega arith)

abbrev taken : Dict ℕ
taken = (a, 5) ∷ []
