-- ===== src/Delivery/Webhook/Payload/Lookups.antt =====
-- What stands under a key of a payload of internal/integrations/webhook/service.go.
use onwapp.Base.{
  Bool-cases, Option-cases, Str, is_empty, lit, str_eq, has_prefix, str_eq_iff, str_eq_of_ne, Dict,
  lookup-insert, lookup-insert_self, HasDistinctKeys, lookup, insert, ℤ, ◌≡◌, refl, sym, ap, subst,
  ◌∙◌, inl, inr, true, false, Option, none, some, [], ◌∷◌, arith,
}
use onwapp.Delivery.Webhook.Payload.{
  ChatwootInfo, PayloadLib, put_number, put_account, put_info, put_event, put_all, inform,
}

-- A key that does not begin with "chatwoot" is none of those of the Chatwoot information.
chatwoot_keys :
    (j : Str)
    → has_prefix j (lit "chatwoot") ≡ false
    → (str_eq (lit "chatwootAccount") j ≡ false)
      × (str_eq (lit "chatwootInboxId") j ≡ false)
      × (str_eq (lit "chatwootConversationId") j ≡ false)
      × (str_eq (lit "chatwootMessageId") j ≡ false)
unfolding lit has_prefix
chatwoot_keys j h =
    let other : (key : Str) → has_prefix key (lit "chatwoot") ≡ true → str_eq key j ≡ false =
      λ key own.
        str_eq_of_ne key j (λ e. cc (sym own ∙ ap (λ t. has_prefix t (lit "chatwoot")) e ∙ h)) in
    (
      other (lit "chatwootAccount") refl,
      other (lit "chatwootInboxId") refl,
      other (lit "chatwootConversationId") refl,
      other (lit "chatwootMessageId") refl,
    )

pub own_keys :
    (has_prefix (lit "event") (lit "chatwoot") ≡ false)
    × (has_prefix (lit "sessionId") (lit "chatwoot") ≡ false)
    × (str_eq (lit "sessionId") (lit "event") ≡ false)
unfolding lit has_prefix str_eq
own_keys = (refl, refl, refl)

module _ (lib : PayloadLib) where
  lookup-put_number :
      (key j : Str) (n : ℤ) (m : Dict lib.Value)
      → str_eq key j ≡ false
      → lookup j (put_number lib key n m) ≡ lookup j m
  unfolding put_number
  lookup-put_number key j n m h = ground (arith, lookup-insert j key (lib.number n) m)

  pub lookup-put_all :
      (j : Str) (kvs m : Dict lib.Value)
      → HasDistinctKeys kvs
      → lookup j (put_all lib kvs m) ≡ (elim (lookup j kvs) [ none ↦ lookup j m | some v ↦ some v ])
  unfolding put_all lookup
  lookup-put_all j [] m d = refl
  lookup-put_all j ((k, v) ∷ kvs) m d = elim (Bool-cases (str_eq k j)) [
    | inl hit ↦
        let gone : lookup j kvs ≡ none =
          subst (λ t. lookup t kvs ≡ none) ((str_eq_iff k j).0 hit) d.0 in
        ground (arith, lookup-put_all j kvs (insert k v m) d.1, lookup-insert j k v m)
    | inr miss ↦ ground (arith, lookup-put_all j kvs (insert k v m) d.1, lookup-insert j k v m)
  ]

  lookup-put_info :
      (j : Str) (info : ChatwootInfo) (m : Dict lib.Value)
      → has_prefix j (lit "chatwoot") ≡ false
      → (lookup j (put_info lib info m) ≡ lookup j m)
        × (lookup j (put_account lib info m) ≡ lookup j m)
  unfolding put_info put_account
  lookup-put_info j info m h =
      let (of_account, of_inbox, of_conversation, of_message) = chatwoot_keys j h in
      let account =
        lookup-put_number (lit "chatwootInboxId") j info.inbox_id _ of_inbox
        ∙ lookup-put_number (lit "chatwootAccount") j info.account m of_account in
      (
        lookup-put_number (lit "chatwootMessageId") j info.message_id _ of_message
            ∙ lookup-put_number (lit "chatwootConversationId") j info.conversation_id _
                of_conversation
            ∙ account,
        account,
      )

  pub lookup-inform :
      (j : Str) (info : Option ChatwootInfo) (session_id msg_id : Str) (m : Dict lib.Value)
      → has_prefix j (lit "chatwoot") ≡ false
      → lookup j (inform lib info session_id msg_id m) ≡ lookup j m
  unfolding inform
  lookup-inform j (some i) session_id msg_id m h = (lookup-put_info j i m h).0
  lookup-inform j none session_id msg_id m h = elim (Option-cases lib.provider) [
    | inl e ↦ rw (e, inform) refl
    | inr ((by_session, by_message), e) ↦ elim (Bool-cases (is_empty msg_id)) [
      | inl f ↦ elim (Option-cases (by_session session_id)) [
        | inl g ↦ rw (e, f, g, inform) refl
        | inr (i, g) ↦ rw (e, f, g, inform) (lookup-put_info j i m h).1
      ]
      | inr f ↦ elim (Option-cases (by_message session_id msg_id)) [
        | inl g ↦ rw (e, f, g, inform) refl
        | inr (i, g) ↦ rw (e, f, g, inform) (lookup-put_info j i m h).0
      ]
    ]
  ]

  pub lookup-given :
      (j : Str) (info : Option ChatwootInfo) (m : Dict lib.Value)
      → has_prefix j (lit "chatwoot") ≡ false
      → lookup j (elim info as (λ x. Dict lib.Value) [ none ↦ m | some i ↦ put_info lib i m ])
        ≡ lookup j m
  lookup-given j none m h = refl
  lookup-given j (some i) m h = (lookup-put_info j i m h).0

  pub lookup-put_event :
      (session_id session_name event : Str) (m : Dict lib.Value)
      → (lookup (lit "event") (put_event lib session_id session_name event m)
          ≡ some (lib.text event))
        × (lookup (lit "sessionId") (put_event lib session_id session_name event m)
            ≡ some (lib.text session_name))
  unfolding put_event
  lookup-put_event session_id session_name event m =
      let one = insert (lit "event") (lib.text event) m in
      let two = insert (lit "sessionId") (lib.text session_id) one in
      let apart = own_keys.2 in
      (
        ground (
          arith,
          lookup-insert (lit "event") (lit "sessionId") (lib.text session_name) two,
          lookup-insert (lit "event") (lit "sessionId") (lib.text session_id) one,
          lookup-insert_self (lit "event") (lib.text event) m,
        ),
        lookup-insert_self (lit "sessionId") (lib.text session_name) two,
      )
