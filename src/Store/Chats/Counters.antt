-- ===== src/Store/Chats/Counters.antt =====
-- The counters and the timestamp of a chat over the statements of internal/db/repository/chat.go,
-- and the group test of internal/model/chat.go.
use onwapp.Base.{
  ltb, if◌then◌else◌, Bool-cases, Option-cases, length, drop, length-drop, Str, is_empty, lit,
  str_eq, str_eq_iff, ℕ, suc, ◌+◌, ◌-◌, ◌≤◌, ◌<◌, ◌≡◌, refl, ap, ◌∙◌, ◌≢◌, ◌↔◌, inl, inr, true,
  false, Option, none, some, List, [], ◌∷◌, arith,
}
use onwapp.Store.Chats.{
  Chat, Chats, is_chat, get_by_jid, update_chat, as_read, mark_as_read, increment_unread_count,
  is_before, with_timestamp, update_conversation_timestamp, is_group,
}

abbrev KeepsChat : (Chat → Chat) → Type 0
KeepsChat f = (c : Chat) → ((f c).session_id ≡ c.session_id) × ((f c).chat_jid ≡ c.chat_jid)

get_by_jid-update_chat :
    (s jid : Str) (f : Chat → Chat) (cs : Chats) (c : Chat)
    → KeepsChat f
    → get_by_jid s jid cs ≡ some c
    → get_by_jid s jid (update_chat s jid f cs) ≡ some (f c)
unfolding get_by_jid update_chat is_chat
get_by_jid-update_chat s jid f [] c k h = ground arith
get_by_jid-update_chat s jid f (d ∷ cs) c k h =
    ground (arith, k d, get_by_jid-update_chat s jid f cs c k)

-- The messages of a chat after its last reading: each gives its time and counts.
unfoldable pub receive_all : Str → Str → List (ℕ × ℕ) → Chats → Chats
unfolding increment_unread_count update_conversation_timestamp
receive_all s jid [] cs = cs
receive_all s jid ((now, t) ∷ ts) cs =
    receive_all s jid ts
      (increment_unread_count now s jid (update_conversation_timestamp now s jid t cs))

-- The latest of the times.
unfoldable pub latest : List (ℕ × ℕ) → Option ℕ → Option ℕ
latest [] o = o
latest ((now, t) ∷ ts) none = latest ts (some t)
latest ((now, t) ∷ ts) (some a) = latest ts (some (if ltb a t then t else a))

-- That a time, if it is known, is no later than another.
abbrev pub IsNotAfter : Option ℕ → Option ℕ → Type 0
IsNotAfter none b = Unit
IsNotAfter (some a) none = ⊥
IsNotAfter (some a) (some b) = a ≤ b

-- That each of the times is no later than another.
abbrev pub AreNotAfter : List (ℕ × ℕ) → Option ℕ → Type 0
AreNotAfter [] b = Unit
AreNotAfter ((now, t) ∷ ts) b = IsNotAfter (some t) b × AreNotAfter ts b

IsNotAfter-trans : (a b c : Option ℕ) → IsNotAfter a b → IsNotAfter b c → IsNotAfter a c
IsNotAfter-trans none b c h k = tt
IsNotAfter-trans (some a) none c h k = absurd h
IsNotAfter-trans (some a) (some b) none h k = absurd k
IsNotAfter-trans (some a) (some b) (some c) h k = omega arith

latest-IsNotAfter :
    (ts : List (ℕ × ℕ)) (o : Option ℕ) → IsNotAfter o (latest ts o) × AreNotAfter ts (latest ts o)
unfolding latest
latest-IsNotAfter [] none = (tt, tt)
latest-IsNotAfter [] (some a) = (omega arith, tt)
latest-IsNotAfter ((now, t) ∷ ts) none =
    let (above, each) = latest-IsNotAfter ts (some t) in (tt, (above, each))
latest-IsNotAfter ((now, t) ∷ ts) (some a) =
    let next = if ltb a t then t else a in
    let (above, each) = latest-IsNotAfter ts (some next) in
    let old : a ≤ next = ground arith in
    let new : t ≤ next = ground arith in
    (
      IsNotAfter-trans (some a) (some next) (latest ts (some next)) old above,
      (IsNotAfter-trans (some t) (some next) (latest ts (some next)) new above, each),
    )

with_timestamp-KeepsChat : (now t : ℕ) → KeepsChat (with_timestamp now t)
unfolding with_timestamp
with_timestamp-KeepsChat now t c = ground arith

received_one :
    (now t : ℕ) (s jid : Str) (cs : Chats) (c : Chat)
    → get_by_jid s jid cs ≡ some c
    → get_by_jid s jid
        (increment_unread_count now s jid (update_conversation_timestamp now s jid t cs))
      ≡ some (record (with_timestamp now t c) {
        unread_count = (with_timestamp now t c).unread_count + 1;
        updated_at = now;
      })
unfolding increment_unread_count update_conversation_timestamp
received_one now t s jid cs c h =
    get_by_jid-update_chat s jid _ _ (with_timestamp now t c) (λ d. (refl, refl))
      (get_by_jid-update_chat s jid (with_timestamp now t) cs c (with_timestamp-KeepsChat now t) h)

-- What a chat counts and when it was last active.
unfoldable pub counts : Option Chat → Option (ℕ × Option ℕ)
counts none = none
counts (some c) = some (c.unread_count, c.conversation_timestamp)

latest_next :
    (now t : ℕ) (ts : List (ℕ × ℕ)) (c : Chat)
    → latest ts (with_timestamp now t c).conversation_timestamp
      ≡ latest ((now, t) ∷ ts) c.conversation_timestamp
unfolding with_timestamp latest is_before
latest_next now t ts c = elim (Option-cases c.conversation_timestamp) [
  | inl e ↦ rw (e) refl
  | inr (a, e) ↦ elim (Bool-cases (ltb a t)) [ inl f ↦ rw (e, f) refl | inr f ↦ rw (e, f) refl ]
]

one_more :
    (now t : ℕ) (ts : List (ℕ × ℕ)) (c : Chat)
    → ◌≡◌ {A = Option (ℕ × Option ℕ)}
        (some (
          (with_timestamp now t c).unread_count + 1 + length ts,
          latest ts (with_timestamp now t c).conversation_timestamp,
        ))
        (some (c.unread_count + suc (length ts), latest ((now, t) ∷ ts) c.conversation_timestamp))
unfolding with_timestamp
one_more now t ts c = elim (Bool-cases (is_before c.conversation_timestamp t)) [
  | inl e ↦ ground (arith, latest_next now t ts c)
  | inr e ↦ ground (arith, latest_next now t ts c)
]

counts-receive_all :
    (s jid : Str) (ts : List (ℕ × ℕ)) (cs : Chats) (c : Chat)
    → get_by_jid s jid cs ≡ some c
    → counts (get_by_jid s jid (receive_all s jid ts cs))
      ≡ some (c.unread_count + length ts, latest ts c.conversation_timestamp)
unfolding receive_all latest counts
counts-receive_all s jid [] cs c h = ground arith
counts-receive_all s jid ((now, t) ∷ ts) cs c h =
    counts-receive_all s jid ts _ _ (received_one now t s jid cs c h) ∙ one_more now t ts c

-- After a chat is marked as read, its unread messages are those received since, whatever it counted
-- before, and its time is the latest of its own and of theirs: it is before none of them, and so
-- never goes back.
pub counts-mark_as_read :
    (now : ℕ) (s jid : Str) (ts : List (ℕ × ℕ)) (cs : Chats) {c : Chat}
    → get_by_jid s jid cs ≡ some c
    → let time = latest ts c.conversation_timestamp in
      (counts (get_by_jid s jid (receive_all s jid ts (mark_as_read now s jid cs)))
        ≡ some (length ts, time))
      × IsNotAfter c.conversation_timestamp time
      × AreNotAfter ts time
unfolding mark_as_read as_read
counts-mark_as_read now s jid ts cs {c} h =
    let from_zero : 0 + length ts ≡ length ts = omega arith in
    (
      counts-receive_all s jid ts (mark_as_read now s jid cs) (as_read now c)
            (get_by_jid-update_chat s jid (as_read now) cs c (λ d. (refl, refl)) h)
          ∙ ap (λ n. some (n, latest ts c.conversation_timestamp)) from_zero,
      (latest-IsNotAfter ts c.conversation_timestamp).0,
      (latest-IsNotAfter ts c.conversation_timestamp).1,
    )

at_group : length (lit "@g.us") ≡ 5
unfolding lit
at_group = refl

no_suffix :
    (jid : Str)
    → ltb (length jid) 12 ≡ false
    → str_eq (drop (length jid - 12) jid) (lit "@g.us") ≡ true
    → ⊥
no_suffix jid long same =
    let eq = (str_eq_iff (drop (length jid - 12) jid) (lit "@g.us")).0 same in
    let five : length (drop (length jid - 12) jid) ≡ 5 = ap length eq ∙ at_group in
    ground (arith, five, length-drop (length jid - 12) jid)

-- The group test of a chat is never true: it compares the last twelve bytes of the JID with a text
-- of five, and it panics exactly where the JID has fewer than twelve bytes and is not empty.
pub is_group_iff :
    (c : Chat)
    → (is_group c ≢ some true)
      × ((is_group c ≡ none) ↔ ((is_empty c.chat_jid ≡ false) × (length c.chat_jid < 12)))
unfolding is_group lit
is_group_iff c = (λ h. no_suffix c.chat_jid (ground arith) (ground arith), ground arith)
