-- ===== src/Chatwoot/Messages/Deleted.antt =====
-- What deletions and read receipts leave of the message table
-- (internal/integrations/chatwoot/service/messages.go).
use onwapp.Base.{
  ◌==◌, if◌then◌else◌, Bool-cases, Option-cases, Str, lit, str_eq, contains, ℕ, ◌≡◌, refl, ap, ◌∙◌,
  ◌≢◌, inl, inr, Bool, true, false, ◌&&◌, ◌||◌, Option, none, some, ◌++◌, arith,
}
use mathlib.Core.Path.{fun_ext}
use onwapp.Store.Messages.{
  Message, Table, get_by_msg_id, delete_message, clear_cw_conversation, in_conversation, without_cw,
  holds,
}
use onwapp.Store.Messages.View.{
  view, deletes, clears_conversation, execute, denote, at_key, everywhere,
}
use onwapp.Store.Messages.Refinement.{execute-denote}
use onwapp.Chatwoot.Messages.{
  ChatConfig, ChatwootApi, is_not_found_error, handle_conversation_not_found, linked, note_delete,
  delete_linked, process_message_delete,
}

-- A message without the Chatwoot references of a conversation that is gone.
unfoldable pub forgets : Str → ℕ → Message → Message
unfolding str_eq
forgets s conv row =
    if str_eq row.session_id s && elim row.cw_conv_id [ none ↦ false | some n ↦ n == conv ]
    then record row { cw_conv_id = none; cw_msg_id = none; cw_source_id = none }
    else row

forgets_lem :
    (s : Str) (conv : ℕ) (row : Message)
    → (if in_conversation s conv row then without_cw row else row) ≡ forgets s conv row
unfolding forgets in_conversation without_cw holds
forgets_lem s conv row = elim (Option-cases row.cw_conv_id) [
  | inl e ↦ rw (e) refl
  | inr (n, e) ↦ rw (e) refl
]

-- An error of Chatwoot that says that a message or its conversation is gone.
unfoldable pub says_gone : Str → Bool
unfolding contains lit
says_gone text =
    contains text (lit "status 404") || contains text (lit "Resource could not be found")

says_gone_lem : (text : Str) → is_not_found_error text ≡ says_gone text
unfolding is_not_found_error says_gone
says_gone_lem text = refl

view-delete_message :
    (s m : Str) (t : Table) (s' m' : Str)
    → view (delete_message s m t) s' m' ≡ at_key s m none (view t) s' m'
unfolding execute denote
view-delete_message s m t s' m' = execute-denote (deletes s m) t s' m'

conversation_cleared :
    (s : Str) (conv : ℕ) (t : Table)
    → conv ≢ 0
    → handle_conversation_not_found s conv t ≡ (clear_cw_conversation s conv t).0
unfolding handle_conversation_not_found
conversation_cleared s conv t h = ground arith

view-handle_conversation_not_found :
    (s : Str) (conv : ℕ) (t : Table)
    → conv ≢ 0
    → view (handle_conversation_not_found s conv t) ≡ everywhere (forgets s conv) (view t)
unfolding execute denote
view-handle_conversation_not_found s conv t h =
    ap view (conversation_cleared s conv t h)
    ∙ (fun_ext λ s'. fun_ext λ m'. execute-denote (clears_conversation s conv) t s' m')
    ∙ ap (λ f. everywhere f (view t)) (fun_ext (forgets_lem s conv))

-- What a deletion leaves, by the error of Chatwoot, if there is one.
abbrev pub Leaves : Str → Str → ℕ → Table → Option Str → Table × Option Str → Type 0
Leaves s m conv t none (t', error) = (view t' ≡ at_key s m none (view t)) × (error ≡ none)
Leaves s m conv t (some text) (t', error) =
    if says_gone text
    then (view t' ≡ at_key s m none (everywhere (forgets s conv) (view t))) × (error ≡ none)
    else (t' ≡ t) × (error ≡ some (lit "failed to delete message from Chatwoot: " ++ text))

note_delete-Leaves :
    (s m : Str) (conv : ℕ) (answer : Option Str) (t : Table)
    → conv ≢ 0
    → Leaves s m conv t answer (note_delete s m conv answer t)
unfolding note_delete
note_delete-Leaves s m conv none t h =
    (fun_ext λ s'. fun_ext λ m'. view-delete_message s m t s' m', refl)
note_delete-Leaves s m conv (some text) t h = elim (Bool-cases (says_gone text)) [
  | inl e ↦
      let gone = handle_conversation_not_found s conv t in
      let same : is_not_found_error text ≡ true = says_gone_lem text ∙ e in
      rw (e, same, note_delete)
        (
          fun_ext (λ s'. fun_ext λ m'. view-delete_message s m gone s' m')
              ∙ ap (at_key s m none) (view-handle_conversation_not_found s conv t h),
          refl,
        )
  | inr e ↦
      let same : is_not_found_error text ≡ false = says_gone_lem text ∙ e in
      rw (e, same, note_delete) (refl, refl)
]

-- A message that is linked to Chatwoot, in a conversation whose number is not 0, and deleted is gone
-- from the table where Chatwoot deletes it or says "status 404" or "Resource could not be found". In
-- the second case every message of the session in that conversation loses its Chatwoot references
-- and nothing else; after any other error the table is as it was, and the error is returned behind
-- the text "failed to delete message from Chatwoot: ".
pub process_message_delete-Leaves :
    (cfg : ChatConfig) (api : ChatwootApi) (s m : Str) (t : Table) {conv id : ℕ}
    → linked (get_by_msg_id s m t) ≡ some (conv, id)
    → conv ≢ 0
    → Leaves s m conv t
        (api.delete_message_error conv id)
        (process_message_delete (some cfg) api s m t)
unfolding process_message_delete delete_linked
process_message_delete-Leaves cfg api s m t {conv} {id} h k =
    rw (h) (note_delete-Leaves s m conv (api.delete_message_error conv id) t k)
