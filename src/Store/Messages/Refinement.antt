-- ===== src/Store/Messages/Refinement.antt =====
-- The statements of internal/db/repository/message.go on the rows are their updates of the map that
-- `GetByMsgId` reads.
use onwapp.Base.{
  if◌then◌else◌, ==_iff, Bool-cases, Option-cases, and-true, Str, str_eq, str_eq_iff, ℕ, ◌≡◌, refl,
  ap, ap₂, ◌∙◌, inl, inr, Bool, true, ◌&&◌, none, some, List, [], ◌∷◌, ◌++◌, arith,
}
use mathlib.Core.Path.{fun_ext}
use onwapp.Store.Messages.{
  Message, MessageStatus, pending, sent, delivered, read, played, failed, Table, has_key,
  get_by_msg_id, update_where, rows_affected, upsert, merge_cw, inserted, save, merge_history,
  sanitized, save_batch, with_status, update_status, add_reaction, remove_reaction, with_cw,
  update_cw_fields, delete_message, in_conversation, without_cw, clear_cw_conversation, unnamed,
  update_push_name, unread_among, mark_as_read_by_agent,
}
use onwapp.Store.Messages.View.{
  view, Statement, saves, saves_batch, links_cw, updates_status, adds_reaction, removes_reaction,
  deletes, clears_conversation, names_sender, marks_read, execute, execute_all, at_key, everywhere,
  change_at, upsert_at, batch_at, denote, denote_all,
}

-- A change that leaves the key alone.
abbrev KeepsKey : (Message → Message) → Type 0
KeepsKey f = (row : Message) → ((f row).session_id ≡ row.session_id) × ((f row).msg_id ≡ row.msg_id)

get_by_msg_id-update_where :
    (p : Message → Bool) (f : Message → Message) (t : Table) (s m : Str)
    → KeepsKey f
    → get_by_msg_id s m (update_where p f t)
      ≡ elim (get_by_msg_id s m t) [ none ↦ none | some row ↦ some (if p row then f row else row) ]
unfolding get_by_msg_id has_key update_where
get_by_msg_id-update_where p f [] s m k = refl
get_by_msg_id-update_where p f (row ∷ t) s m k =
    ground (arith, k row, get_by_msg_id-update_where p f t s m k)

-- The key of a row that `GetByMsgId` answers.
has_key_of_view :
    (t : Table) (s m : Str) (row : Message)
    → get_by_msg_id s m t ≡ some row
    → has_key s m row ≡ true
unfolding get_by_msg_id has_key
has_key_of_view [] s m row h = ground arith
has_key_of_view (r ∷ t) s m row h = ground (arith, has_key_of_view t s m row)

other_key :
    (s m s' m' : Str) (row : Message)
    → has_key s' m' row ≡ true
    → has_key s m row ≡ (str_eq s s' && str_eq m m')
unfolding has_key
other_key s m s' m' row h = ground (
  arith,
  str_eq_iff row.session_id s,
  str_eq_iff row.session_id s',
  str_eq_iff s s',
  str_eq_iff row.msg_id m,
  str_eq_iff row.msg_id m',
  str_eq_iff m m',
)

get_by_msg_id-append :
    (t : Table) (msg : Message) (s m : Str)
    → get_by_msg_id s m (t ++ (msg ∷ [])) ≡ elim (get_by_msg_id s m t) [
      | none ↦ if has_key s m msg then some msg else none
      | some row ↦ some row
    ]
unfolding get_by_msg_id has_key
get_by_msg_id-append [] msg s m = ground arith
get_by_msg_id-append (row ∷ t) msg s m = ground (arith, get_by_msg_id-append t msg s m)

-- The rows under two keys are one row if the keys are equal.
same_view :
    (t : Table) (s m s' m' : Str)
    → (str_eq s s' && str_eq m m') ≡ true
    → get_by_msg_id s m t ≡ get_by_msg_id s' m' t
same_view t s m s' m' h =
    let (e, f) = and-true (str_eq s s') (str_eq m m') h in
    ap₂ (λ a b. get_by_msg_id a b t) ((str_eq_iff s s').0 e) ((str_eq_iff m m').0 f)

view-change_at :
    (s m : Str) (f : Message → Message) (t : Table) (s' m' : Str)
    → KeepsKey f
    → view (update_where (has_key s m) f t) s' m' ≡ change_at s m f (view t) s' m'
unfolding view change_at at_key
view-change_at s m f t s' m' k = elim (Option-cases (get_by_msg_id s' m' t)) [
  | inl e ↦
      ground (arith, get_by_msg_id-update_where (has_key s m) f t s' m' k, same_view t s m s' m')
  | inr (row, e) ↦ ground (
    arith,
    get_by_msg_id-update_where (has_key s m) f t s' m' k,
    same_view t s m s' m',
    other_key s m s' m' row (has_key_of_view t s' m' row e),
  )
]

view-upsert_new :
    (merge : Message → Message) (msg : Message) (t : Table) (s m : Str)
    → get_by_msg_id msg.session_id msg.msg_id t ≡ none
    → view (upsert merge msg t) s m ≡ upsert_at merge msg (view t) s m
unfolding upsert upsert_at view at_key has_key
view-upsert_new merge msg t s m e =
    ground (arith, get_by_msg_id-append t msg s m, same_view t msg.session_id msg.msg_id s m)

view-upsert :
    (merge : Message → Message) (msg : Message) (t : Table) (s m : Str)
    → KeepsKey merge
    → view (upsert merge msg t) s m ≡ upsert_at merge msg (view t) s m
unfolding upsert upsert_at view at_key change_at
view-upsert merge msg t s m k = elim (Option-cases (get_by_msg_id msg.session_id msg.msg_id t)) [
  | inl e ↦ view-upsert_new merge msg t s m e
  | inr (old, e) ↦ ground (arith, view-change_at msg.session_id msg.msg_id merge t s m k)
]

view-save_batch :
    (now : ℕ) (msgs : List Message) (t : Table)
    → view (save_batch now msgs t) ≡ batch_at now msgs (view t)
unfolding save_batch batch_at merge_history
view-save_batch now [] t = refl
view-save_batch now (msg ∷ msgs) t =
    view-save_batch now msgs (upsert (merge_history msg) (sanitized now msg) t)
    ∙ ap (batch_at now msgs) (
        fun_ext λ s.
          fun_ext
            λ m. view-upsert (merge_history msg) (sanitized now msg) t s m (λ row. (refl, refl)))

view-delete_message :
    (s m : Str) (t : Table) (s' m' : Str)
    → view (delete_message s m t) s' m' ≡ at_key s m none (view t) s' m'
unfolding view delete_message at_key get_by_msg_id
view-delete_message s m [] s' m' = ground arith
view-delete_message s m (row ∷ t) s' m' = elim (Bool-cases (has_key s' m' row)) [
  | inl e ↦ ground (arith, view-delete_message s m t s' m', other_key s m s' m' row e)
  | inr e ↦ ground (arith, view-delete_message s m t s' m')
]

with_status-KeepsKey : (now : ℕ) (st : MessageStatus) → KeepsKey (with_status now st)
unfolding with_status
with_status-KeepsKey now pending row = (refl, refl)
with_status-KeepsKey now sent row = (refl, refl)
with_status-KeepsKey now delivered row = (refl, refl)
with_status-KeepsKey now read row = (refl, refl)
with_status-KeepsKey now played row = (refl, refl)
with_status-KeepsKey now failed row = (refl, refl)

view-everywhere :
    (p : Message → Bool) (f : Message → Message) (t : Table) (s m : Str)
    → KeepsKey f
    → view (update_where p f t) s m ≡ everywhere (λ row. if p row then f row else row) (view t) s m
unfolding view everywhere
view-everywhere p f t s m k = get_by_msg_id-update_where p f t s m k

no_rows :
    (p : Message → Bool) (f : Message → Message) (t : Table)
    → rows_affected p t ≡ 0
    → update_where p f t ≡ t
unfolding rows_affected update_where
no_rows p f [] h = refl
no_rows p f (row ∷ t) h = elim (Bool-cases (p row)) [
  | inl e ↦ ground arith
  | inr e ↦ rw (e) (ap (λ rows. row ∷ rows) (no_rows p f t (ground arith)))
]

-- `UpdateCwFields` of a message that is not there changes nothing.
links_cw_lem :
    (s m : Str) (cw_msg cw_conv : ℕ) (source : Str) (t : Table)
    → execute (links_cw s m cw_msg cw_conv source) t
      ≡ update_where (has_key s m) (with_cw cw_msg cw_conv source) t
unfolding execute update_cw_fields
links_cw_lem s m cw_msg cw_conv source t = ground (
  arith,
  ==_iff (rows_affected (has_key s m) t) 0,
  no_rows (has_key s m) (with_cw cw_msg cw_conv source) t,
)

view-links_cw :
    (s m : Str) (cw_msg cw_conv : ℕ) (source : Str) (t : Table) (s' m' : Str)
    → view (execute (links_cw s m cw_msg cw_conv source) t) s' m'
      ≡ change_at s m (with_cw cw_msg cw_conv source) (view t) s' m'
unfolding with_cw
view-links_cw s m cw_msg cw_conv source t s' m' =
    ap (λ u. view u s' m') (links_cw_lem s m cw_msg cw_conv source t)
    ∙ view-change_at s m (with_cw cw_msg cw_conv source) t s' m' (λ row. (refl, refl))

-- A statement on the rows is its update of the map.
pub execute-denote :
    (c : Statement) (t : Table) (s m : Str) → view (execute c t) s m ≡ denote c (view t) s m
unfolding execute denote save update_status add_reaction remove_reaction clear_cw_conversation
    update_push_name mark_as_read_by_agent merge_cw without_cw
execute-denote (saves now msg) t s m =
    view-upsert (merge_cw msg) (inserted now msg) t s m (λ row. (refl, refl))
execute-denote (saves_batch now msgs) t s m = ap (λ v. v s m) (view-save_batch now msgs t)
execute-denote (links_cw s' m' cw_msg cw_conv source) t s m =
    view-links_cw s' m' cw_msg cw_conv source t s m
execute-denote (updates_status now s' m' st) t s m =
    view-change_at s' m' (with_status now st) t s m (with_status-KeepsKey now st)
execute-denote (adds_reaction s' m' r) t s m = view-change_at s' m' _ t s m (λ row. (refl, refl))
execute-denote (removes_reaction s' m' who) t s m =
    view-change_at s' m' _ t s m (λ row. (refl, refl))
execute-denote (deletes s' m') t s m = view-delete_message s' m' t s m
execute-denote (clears_conversation s' conv) t s m =
    view-everywhere (in_conversation s' conv) without_cw t s m (λ row. (refl, refl))
execute-denote (names_sender from s' name) t s m =
    view-everywhere (unnamed from s') _ t s m (λ row. (refl, refl))
execute-denote (marks_read now s' []) t s m = refl
execute-denote (marks_read now s' (i ∷ ids)) t s m =
    view-everywhere (unread_among s' (i ∷ ids)) _ t s m (λ row. (refl, refl))

-- The message table refines a map from session and message IDs to messages: after any sequence of
-- the statements that change rows, what `GetByMsgId` answers at each key is the result of the same updates of that map.
pub execute_all-denote_all :
    (cs : List Statement) (t : Table) → view (execute_all cs t) ≡ denote_all cs (view t)
unfolding execute_all denote_all
execute_all-denote_all [] t = refl
execute_all-denote_all (c ∷ cs) t =
    execute_all-denote_all cs (execute c t)
    ∙ ap (denote_all cs) (fun_ext λ s. fun_ext λ m. execute-denote c t s m)
