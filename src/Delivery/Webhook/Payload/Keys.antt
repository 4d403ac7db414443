-- ===== src/Delivery/Webhook/Payload/Keys.antt =====
-- The system's own keys in the payloads of internal/integrations/webhook/service.go.
use onwapp.Base.{
  if◌then◌else◌, Bool-cases, Str, is_empty, lit, str_eq, one_of, Dict, HasDistinctKeys, lookup, ◌≡◌,
  refl, ◌∙◌, ◌↔◌, inl, inr, Bool, true, false, not, ◌&&◌, ◌||◌, Option, none, some, List, [], ◌∷◌,
  arith,
}
use onwapp.Delivery.Webhook.{Webhook}
use onwapp.Delivery.Webhook.Sending.{should_send_event_iff}
use onwapp.Delivery.Webhook.Payload.{
  ChatwootInfo, PayloadLib, Sent, skipped, sends, put_event, accepts, inform,
  send_with_preserialized_json, send_with_chatwoot,
}
use onwapp.Delivery.Webhook.Payload.Lookups.{
  own_keys, lookup-put_all, lookup-inform, lookup-given, lookup-put_event,
}

abbrev is_nil : List Str → Bool
is_nil [] = true
is_nil (e ∷ es) = false

is_nil_iff : (events : List Str) → (is_nil events ≡ true) ↔ (events ≡ [])
is_nil_iff [] = ground arith
is_nil_iff (e ∷ es) = ground arith

module _ (lib : PayloadLib) where
  -- The payload of what is sent, the empty one if nothing is.
  abbrev pub payload_of : Sent lib.Value → Dict lib.Value
  payload_of (sends wh m) = m
  payload_of _ = []

  abbrev pub target_of : Sent lib.Value → Option Webhook
  target_of (sends wh m) = some wh
  target_of _ = none

  -- Whether a webhook that is enabled takes an event: it has an address, and lists no events, or the
  -- event, or "all" or "*".
  unfoldable pub takes : Webhook → Str → Bool
  unfolding str_eq one_of lit
  takes wh event =
      not (is_empty wh.url)
      && (is_nil wh.events
          || one_of event wh.events
          || one_of (lit "all") wh.events
          || one_of (lit "*") wh.events)

  accepts_lem :
      (wh : Webhook) (event : Str)
      → accepts lib (some (some wh)) event ≡ (if takes wh event then some wh else none)
  unfolding accepts takes
  accepts_lem wh event = ground (arith, should_send_event_iff wh.events event, is_nil_iff wh.events)

  -- What both functions make of an event that is a JSON object, for a webhook that takes it or not.
  abbrev pub Leaves :
      Bool → Webhook → Str → Str → Dict lib.Value → Sent lib.Value → Sent lib.Value → Type 0
  Leaves false wh session_name event json pre raw = (pre ≡ skipped) × (raw ≡ skipped)
  Leaves true wh session_name event json pre raw =
      (target_of pre ≡ some wh)
      × (target_of raw ≡ some wh)
      × (lookup (lit "event") (payload_of pre) ≡ some (lib.text event))
      × (lookup (lit "sessionId") (payload_of pre) ≡ some (lib.text session_name))
      × (lookup (lit "event") (payload_of raw)
          ≡ (elim (lookup (lit "event") json) [ none ↦ some (lib.text event) | some v ↦ some v ]))
      × (lookup (lit "sessionId") (payload_of raw) ≡ (elim (lookup (lit "sessionId") json) [
        | none ↦ some (lib.text session_name)
        | some v ↦ some v
      ]))

  accepted_keys :
      (found : Option (Option Webhook)) (session_id session_name event msg_id : Str)
      (json : Dict lib.Value) (info : Option ChatwootInfo) (wh : Webhook)
      → HasDistinctKeys json
      → accepts lib found event ≡ some wh
      → Leaves true wh session_name event json
          (send_with_preserialized_json lib found session_id session_name event
            (some (some json))
            info)
          (send_with_chatwoot lib found session_id session_name event msg_id (some json) info)
  unfolding send_with_preserialized_json send_with_chatwoot
  accepted_keys found session_id session_name event msg_id json info wh d e =
      let start = put_event lib session_id session_name event json in
      let fresh = put_event lib session_id session_name event [] in
      let informed = inform lib info session_id msg_id fresh in
      let (of_event, of_session, apart) = own_keys in
      let pre = lookup-put_event lib session_id session_name event json in
      let raw = lookup-put_event lib session_id session_name event [] in
      rw (e, send_with_preserialized_json, send_with_chatwoot)
        (
          refl,
          refl,
          lookup-given lib (lit "event") info start of_event ∙ pre.0,
          lookup-given lib (lit "sessionId") info start of_session ∙ pre.1,
          ground (
            arith,
            lookup-put_all lib (lit "event") json informed d,
            lookup-inform lib (lit "event") info session_id msg_id fresh of_event,
          ),
          ground (
            arith,
            lookup-put_all lib (lit "sessionId") json informed d,
            lookup-inform lib (lit "sessionId") info session_id msg_id fresh of_session,
          ),
        )

  -- If the session has an enabled webhook, an event that is a JSON object with distinct keys is sent
  -- to it by both functions exactly if the webhook has an address and lists no events, the event,
  -- "all" or "*". In the payload of a preserialized event, "event" and "sessionId" are the program's
  -- own, and the latter is the second ID; in that of a raw event, the event's own entries under
  -- these keys replace them.
  pub payload_keys :
      (session_id session_name event msg_id : Str) (json : Dict lib.Value)
      (info : Option ChatwootInfo) (wh : Webhook)
      → HasDistinctKeys json
      → Leaves
          (takes wh event)
          wh
          session_name
          event
          json
          (send_with_preserialized_json lib
            (some (some wh))
            session_id
            session_name
            event
            (some (some json))
            info)
          (send_with_chatwoot lib
            (some (some wh))
            session_id
            session_name
            event
            msg_id
            (some json)
            info)
  unfolding send_with_preserialized_json send_with_chatwoot
  payload_keys session_id session_name event msg_id json info wh d =
      elim (Bool-cases (takes wh event)) [
        | inl h ↦ rw (h) (
            accepted_keys (some (some wh)) session_id session_name event msg_id json info wh d
              (accepts_lem wh event ∙ rw (h) refl))
        | inr h ↦
            let refused : accepts lib (some (some wh)) event ≡ none =
              accepts_lem wh event ∙ rw (h) refl in
            rw (h, refused, send_with_preserialized_json, send_with_chatwoot) (refl, refl)
      ]
