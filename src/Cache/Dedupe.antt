-- ===== src/Cache/Dedupe.antt =====
-- The caches against double processing of internal/integrations/chatwoot/service/cache.go. A map
-- holds the time at which each key was taken; times are numbers of a monotone clock.
pub mod Exclusion
use onwapp.Base.{
  ltb, any, Str, lit, has_prefix, Dict, lookup, insert, delete, retain, ℕ, ◌+◌, Bool, true, false,
  not, ◌&&◌, none, some, ◌++◌,
}

-- `cleanupLocked`
unfoldable pub cleanup_locked : ℕ → ℕ → Dict ℕ → Dict ℕ
unfolding retain
cleanup_locked ttl now items = retain (λ k t. not (ltb (t + ttl) now)) items

-- `TryAcquire`
unfoldable pub try_acquire : ℕ → ℕ → Str → Dict ℕ → Bool × Dict ℕ
unfolding cleanup_locked lookup insert
try_acquire ttl now key items =
    let left = cleanup_locked ttl now items in
    elim (lookup key left) [ some t ↦ (false, left) | none ↦ (true, insert key now left) ]

-- `Release` and `Clear`
unfoldable pub release : Str → Dict ℕ → Dict ℕ
unfolding delete
release key items = delete key items

-- `Mark`
unfoldable pub mark : ℕ → ℕ → Str → Dict ℕ → Dict ℕ
unfolding cleanup_locked insert
mark ttl now key items = insert key now (cleanup_locked ttl now items)

-- `Exists`
unfoldable pub exists : ℕ → ℕ → Str → Dict ℕ → Bool
unfolding lookup
exists ttl now key items = elim (lookup key items) [ none ↦ false | some t ↦ ltb now (t + ttl) ]

-- `IsPendingByChat`, for the keys "session:chat:message" that `MarkPending` writes.
unfoldable pub is_pending_by_chat : ℕ → ℕ → Str → Str → Dict ℕ → Bool
unfolding has_prefix lit
is_pending_by_chat ttl now session chat items =
    any (λ (k, t). has_prefix k (session ++ lit ":" ++ chat ++ lit ":") && ltb now (t + ttl)) items

-- `MarkPending`; `id` is the message's number in decimal.
unfoldable pub mark_pending : ℕ → ℕ → Str → Str → Str → Dict ℕ → Dict ℕ
unfolding mark lit
mark_pending ttl now session chat id items =
    mark ttl now (session ++ lit ":" ++ chat ++ lit ":" ++ id) items

-- `ClearPending`
unfoldable pub clear_pending : Str → Str → Str → Dict ℕ → Dict ℕ
unfolding release lit
clear_pending session chat id items = release (session ++ lit ":" ++ chat ++ lit ":" ++ id) items
