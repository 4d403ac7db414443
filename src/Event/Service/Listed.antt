-- ===== src/Event/Service/Listed.antt =====
-- The names of the webhooks of internal/service/event among those of internal/model/event.go.
use Prim.Native.String.{String}
use onwapp.Base.{
  Bool-cases, Option-cases, all, lit, str_eq, one_of, ◌≡◌, refl, inl, inr, true, Option, none, some,
  arith,
}
use onwapp.Event.{MessageEvent, WaMessage, absent, message}
use onwapp.Event.Calls.{
  disconnected_event, connect_failure, stream_replaced, temporary_ban, client_outdated,
  stream_error, keep_alive_timeout, keep_alive_restored, pair_success, pair_error, app_state,
  app_state_sync_complete, presence, chat_presence, mute, archive, pin, star, delete_for_me,
  delete_chat, clear_chat, mark_chat_as_read, label_edit, label_association_chat, offer_notice,
  accept, pre_accept, reject, terminate, transport, relay_latency, group_info, joined_group,
  push_name, picture, contact, business_name, Event, connected_event, logged_out, lost, connection,
  received, receipt, undecryptable, media_retry, chat, push_names, conversations, history_sync,
  call_offer, call, profile, quiet, Env,
}
use onwapp.Event.Calls.Inert.{names, announced}
use onwapp.Event.Calls.Names.{all_events}
use onwapp.Event.Service.{handle_event}
use onwapp.Event.Service.EventNames.{is_unknown, content_name, message_name, event_name}
use onwapp.Event.Service.Webhooks.{announces, names-handle_event}

-- The names are event names of the model.
abbrev IsListed : Option String → Type 0
IsListed none = Unit
IsListed (some name) = one_of (lit name) all_events ≡ true

content_name-IsListed : (e : MessageEvent) → IsListed (content_name e)
unfolding content_name one_of all_events lit str_eq
content_name-IsListed e = elim (Bool-cases e.is_edit) [
  | inl h ↦ rw (h) refl
  | inr h ↦ elim (Bool-cases (is_unknown e)) [ inl k ↦ rw (h, k) tt | inr k ↦ rw (h, k) refl ]
]

message_name-IsListed : (e : MessageEvent) (m : WaMessage) → IsListed (message_name e m)
unfolding message_name one_of all_events lit str_eq
message_name-IsListed e absent = content_name-IsListed e
message_name-IsListed e (message p ed v w) = elim (Bool-cases p.sender_key_distribution) [
  | inl a ↦ rw (a) tt
  | inr a ↦ elim (Option-cases p.reaction) [
    | inr (r, b) ↦ rw (a, b) refl
    | inl b ↦ elim (Option-cases p.protocol) [
      | inl c ↦ rw (a, b, c) (content_name-IsListed e)
      | inr (proto, c) ↦ elim (Bool-cases proto.is_revoke) [
        | inl d ↦ rw (a, b, c, d) refl
        | inr d ↦ rw (a, b, c, d) tt
      ]
    ]
  ]
]

event_name-IsListed : (e : Event) → IsListed (event_name e)
unfolding event_name one_of all_events lit str_eq
event_name-IsListed connected_event = refl
event_name-IsListed logged_out = refl
event_name-IsListed (lost e) = elim e as (λ x. IsListed (event_name (lost x))) [
  | disconnected_event ↦ refl
  | connect_failure ↦ refl
  | stream_replaced ↦ refl
  | temporary_ban ↦ refl
  | client_outdated ↦ refl
]
event_name-IsListed (connection e) = elim e as (λ x. IsListed (event_name (connection x))) [
  | stream_error ↦ refl
  | keep_alive_timeout ↦ refl
  | keep_alive_restored ↦ refl
  | pair_success ↦ refl
  | pair_error ↦ refl
  | app_state ↦ refl
  | app_state_sync_complete ↦ refl
]
event_name-IsListed (received e) = message_name-IsListed e e.message
event_name-IsListed (receipt r) = refl
event_name-IsListed undecryptable = refl
event_name-IsListed media_retry = refl
event_name-IsListed (chat e) = elim e as (λ x. IsListed (event_name (chat x))) [
  | presence ↦ refl
  | chat_presence ↦ refl
  | mute ↦ refl
  | archive ↦ refl
  | pin ↦ refl
  | star ↦ refl
  | delete_for_me ↦ refl
  | delete_chat ↦ refl
  | clear_chat ↦ refl
  | mark_chat_as_read ↦ refl
  | label_edit ↦ refl
  | label_association_chat ↦ refl
]
event_name-IsListed (history_sync (push_names pairs)) = tt
event_name-IsListed (history_sync (conversations convs)) = refl
event_name-IsListed (call_offer creator id) = refl
event_name-IsListed (call e) = elim e as (λ x. IsListed (event_name (call x))) [
  | offer_notice ↦ refl
  | accept ↦ refl
  | pre_accept ↦ refl
  | reject ↦ refl
  | terminate ↦ refl
  | transport ↦ refl
  | relay_latency ↦ refl
]
event_name-IsListed (profile e) = elim e as (λ x. IsListed (event_name (profile x))) [
  | group_info ↦ refl
  | joined_group ↦ refl
  | push_name ↦ refl
  | picture ↦ refl
  | contact ↦ refl
  | business_name ↦ refl
]
event_name-IsListed (quiet e) = tt

listed-announces :
    (env : Env) (o : Option String)
    → IsListed o
    → all (λ n. one_of n all_events) (announces env o) ≡ true
unfolding announces announced
listed-announces env none h = refl
listed-announces env (some name) h = ground arith

-- Every webhook that the handlers send has a name that the model lists as an event.
pub names-listed :
    (env : Env) (e : Event) → all (λ n. one_of n all_events) (names (handle_event env e)) ≡ true
names-listed env e =
    rw (names-handle_event env e) (listed-announces env (event_name e) (event_name-IsListed e))
