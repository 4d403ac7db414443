-- ===== src/Event/History/Inert.antt =====
-- No handler of a history synchronisation in internal/service/event/connection.go reaches the
-- session itself.
use onwapp.Base.{
  if◌then◌else◌, Option-cases, all, all-append_of, Str, Dict, ◌≡◌, refl, inl, inr, true, false,
  Option, some, List, [], ◌∷◌, ◌++◌, map, arith,
}
use onwapp.Event.Extract.{Media}
use onwapp.Store.Messages.{Message}
use onwapp.Event.Calls.{
  HistoryReaction, HistoryMessage, Conversation, HistorySync, push_names, conversations,
  history_sync, Call, Env, send_webhook, names_jid, names_lid, starts_history_processing,
}
use onwapp.Event.Calls.Inert.{is_plain, is_inert, all_plain-is_inert, send_webhook-inert}
use onwapp.Event.History.Rows.{admit}
use onwapp.Event.History.PushNames.{
  lid_names, store_lids, names_of, lid_number, handle_push_name_sync,
}
use onwapp.Event.History.{
  save_history_reactions, Collected, collect, messages_loop, conversations_loop, nothing,
  sync_conversations, keep_messages, keep_medias, handle_history_sync,
}

save_history_reactions-is_plain :
    (m : Str) (rs : List HistoryReaction) → all is_plain (save_history_reactions m rs) ≡ true
unfolding save_history_reactions is_plain
save_history_reactions-is_plain m [] = refl
save_history_reactions-is_plain m (r ∷ rs) = ground (arith, save_history_reactions-is_plain m rs)

collect-is_plain :
    (env : Env) (chat_jid : Str) (h : Option HistoryMessage) (c : Collected)
    → all is_plain c.updates ≡ true
    → all is_plain (collect env chat_jid h c).updates ≡ true
unfolding collect
collect-is_plain env chat_jid h c k = elim (Option-cases (admit env chat_jid h)) [
  | inl e ↦ rw (e, collect) k
  | inr ((msg, row), e) ↦
      rw (e, collect)
        (all-append_of is_plain c.updates (save_history_reactions row.msg_id msg.reactions) k
          (save_history_reactions-is_plain row.msg_id msg.reactions))
]

messages_loop-is_plain :
    (env : Env) (chat_jid : Str) (hs : List (Option HistoryMessage)) (c : Collected)
    → all is_plain c.updates ≡ true
    → all is_plain (messages_loop env chat_jid hs c).updates ≡ true
unfolding messages_loop
messages_loop-is_plain env chat_jid [] c k = k
messages_loop-is_plain env chat_jid (h ∷ hs) c k =
    messages_loop-is_plain env chat_jid hs (collect env chat_jid h c)
      (collect-is_plain env chat_jid h c k)

conversations_loop-is_plain :
    (env : Env) (convs : List Conversation) (c : Collected)
    → all is_plain c.updates ≡ true
    → all is_plain (conversations_loop env convs c).updates ≡ true
unfolding conversations_loop
conversations_loop-is_plain env [] c k = k
conversations_loop-is_plain env (conv ∷ convs) c k =
    conversations_loop-is_plain env convs (messages_loop env conv.id conv.messages c)
      (messages_loop-is_plain env conv.id conv.messages c k)

keep_messages-is_plain :
    (env : Env) (ms : List Message) → all is_plain (keep_messages env ms) ≡ true
unfolding keep_messages is_plain
keep_messages-is_plain env ms = ground arith

keep_medias-is_plain : (env : Env) (ms : List Media) → all is_plain (keep_medias env ms) ≡ true
unfolding keep_medias is_plain
keep_medias-is_plain env ms = ground arith

map-is_plain {ℓ} :
    {A : Type ℓ} (f : A → Call) (xs : List A)
    → ((x : A) → is_plain (f x) ≡ true)
    → all is_plain (map f xs) ≡ true
map-is_plain f [] k = refl
map-is_plain f (x ∷ xs) k = rw (k x) (map-is_plain f xs k)

lid_names-is_plain :
    (names : Dict Str) (pairs : List (Str × Option Str))
    → all is_plain (lid_names names pairs) ≡ true
unfolding lid_names is_plain
lid_names-is_plain names [] = refl
lid_names-is_plain names ((phone, lid) ∷ pairs) = ground (arith, lid_names-is_plain names pairs)

store_lids-is_plain : (env : Env) (names : Dict Str) → all is_plain (store_lids env names) ≡ true
unfolding store_lids
store_lids-is_plain env names = elim (Option-cases env.lids) [
  | inl e ↦ rw (e) refl
  | inr (look, e) ↦ rw (e) (lid_names-is_plain names (look (map (λ e. e.0) names)))
]

pub handle_push_name_sync-is_plain :
    (env : Env) (pairs : List (Str × Str)) → all is_plain (handle_push_name_sync env pairs) ≡ true
unfolding handle_push_name_sync is_plain
handle_push_name_sync-is_plain env pairs =
    let phones = names_of false pairs [] in
    let by_jid = map (λ e. names_jid e.0 e.1) phones in
    let by_lid = map (λ e. names_lid (lid_number e.0) e.1) (names_of true pairs []) in
    all-append_of is_plain (by_jid ++ by_lid) (store_lids env phones)
      (all-append_of is_plain by_jid by_lid
        (map-is_plain (λ e. names_jid e.0 e.1) phones (λ x. refl))
        (map-is_plain (λ e. names_lid (lid_number e.0) e.1) (names_of true pairs []) (λ x. refl)))
      (store_lids-is_plain env phones)

pub sync_conversations-is_plain :
    (env : Env) (convs : List Conversation) → all is_plain (sync_conversations env convs) ≡ true
unfolding sync_conversations is_plain
sync_conversations-is_plain env convs =
    let c = conversations_loop env convs nothing in
    let saved = c.updates ++ keep_messages env c.all_messages in
    let kept = saved ++ keep_medias env c.all_medias in
    all-append_of is_plain kept
      (if env.has_history_service then starts_history_processing ∷ [] else [])
      (all-append_of is_plain saved (keep_medias env c.all_medias)
        (all-append_of is_plain c.updates (keep_messages env c.all_messages)
          (conversations_loop-is_plain env convs nothing refl)
          (keep_messages-is_plain env c.all_messages))
        (keep_medias-is_plain env c.all_medias))
      (ground arith)

pub handle_history_sync-inert :
    (env : Env) (h : HistorySync) → all is_inert (handle_history_sync env h) ≡ true
unfolding handle_history_sync
handle_history_sync-inert env (push_names pairs) =
    all_plain-is_inert (handle_push_name_sync env pairs) (handle_push_name_sync-is_plain env pairs)
handle_history_sync-inert env (conversations convs) =
    let raw = some (history_sync (conversations convs)) in
    all-append_of is_inert (sync_conversations env convs) (send_webhook env "history.sync" raw)
      (all_plain-is_inert (sync_conversations env convs) (sync_conversations-is_plain env convs))
      (send_webhook-inert env "history.sync" raw)
