-- ===== src/Store/Messages/Reactions.antt =====
-- The reactions of one message: AddReaction and RemoveReaction of internal/db/repository/message.go.
use onwapp.Base.{
  if◌then◌else◌, keep, Str, str_eq, str_eq_refl, str_eq_iff, ◌≡◌, refl, ap, ◌∙◌, none, some, List,
  [], ◌∷◌, ◌++◌, map, append-nil, arith,
}
use onwapp.Store.Messages.{Reaction, Message, Table, of_others}
use onwapp.Store.Messages.View.{
  Statement, adds_reaction, removes_reaction, execute, execute_all, view, denote, change_at, at_key,
}
use onwapp.Store.Messages.Refinement.{execute-denote}

-- What a member of a chat does to its reaction to a message.
pub data Change : Type 0 where
  add : Reaction → Change
  remove : Str → Change

-- The column "reactions" after a change.
unfoldable pub changed : Change → List Reaction → List Reaction
unfolding of_others
changed (add r) rs = of_others r.sender_jid rs ++ (r ∷ [])
changed (remove who) rs = of_others who rs

unfoldable pub changed_all : List Change → List Reaction → List Reaction
unfolding changed
changed_all [] rs = rs
changed_all (c ∷ cs) rs = changed_all cs (changed c rs)

-- The reactions of a sender.
unfoldable pub reactions_by : Str → List Reaction → List Reaction
unfolding str_eq
reactions_by who rs = keep (λ r. str_eq r.sender_jid who) rs

-- The reactions of a sender after changes, from the last change that is the sender's.
unfoldable pub last_by : Str → List Change → List Reaction → List Reaction
unfolding str_eq
last_by who [] own = own
last_by who (add r ∷ cs) own = last_by who cs (if str_eq r.sender_jid who then r ∷ [] else own)
last_by who (remove s ∷ cs) own = last_by who cs (if str_eq s who then [] else own)

reactions_by-append :
    (who : Str) (rs ss : List Reaction)
    → reactions_by who (rs ++ ss) ≡ reactions_by who rs ++ reactions_by who ss
unfolding reactions_by
reactions_by-append who [] ss = refl
reactions_by-append who (r ∷ rs) ss = ground (arith, reactions_by-append who rs ss)

reactions_by-of_others :
    (who s : Str) (rs : List Reaction)
    → reactions_by who (of_others s rs) ≡ (if str_eq s who then [] else reactions_by who rs)
unfolding reactions_by of_others
reactions_by-of_others who s [] = ground arith
reactions_by-of_others who s (r ∷ rs) = ground (
  arith,
  reactions_by-of_others who s rs,
  str_eq_iff s who,
  str_eq_iff r.sender_jid s,
  str_eq_iff r.sender_jid who,
)

reactions_by-added :
    (who : Str) (r : Reaction) (rs : List Reaction)
    → reactions_by who (of_others r.sender_jid rs) ++ reactions_by who (r ∷ [])
      ≡ (if str_eq r.sender_jid who then r ∷ [] else reactions_by who rs)
unfolding reactions_by
reactions_by-added who r rs =
    ground (arith, reactions_by-of_others who r.sender_jid rs, append-nil (reactions_by who rs))

reactions_by-changed :
    (who : Str) (c : Change) (rs : List Reaction)
    → reactions_by who (changed c rs) ≡ last_by who (c ∷ []) (reactions_by who rs)
unfolding changed last_by
reactions_by-changed who (remove s) rs = reactions_by-of_others who s rs
reactions_by-changed who (add r) rs =
    reactions_by-append who (of_others r.sender_jid rs) (r ∷ []) ∙ reactions_by-added who r rs

reactions_by-changed_all :
    (who : Str) (cs : List Change) (rs : List Reaction)
    → reactions_by who (changed_all cs rs) ≡ last_by who cs (reactions_by who rs)
unfolding changed_all last_by
reactions_by-changed_all who [] rs = refl
reactions_by-changed_all who (add r ∷ cs) rs =
    reactions_by-changed_all who cs (changed (add r) rs)
    ∙ ap (last_by who cs) (reactions_by-changed who (add r) rs)
reactions_by-changed_all who (remove s ∷ cs) rs =
    reactions_by-changed_all who cs (changed (remove s) rs)
    ∙ ap (last_by who cs) (reactions_by-changed who (remove s) rs)

-- The statement of a change.
unfoldable pub reacts : Str → Str → Change → Statement
reacts s m (add r) = adds_reaction s m r
reacts s m (remove who) = removes_reaction s m who

-- The reactions of the row under a key.
unfoldable pub reactions_at : Str → Str → Table → List Reaction
unfolding view
reactions_at s m t = elim (view t s m) [ none ↦ [] | some row ↦ row.reactions ]

reactions_at-execute :
    (s m : Str) (c : Change) (t : Table) {row : Message}
    → view t s m ≡ some row
    → view (execute (reacts s m c) t) s m
      ≡ some (record row { reactions = changed c row.reactions })
unfolding reacts changed denote change_at at_key
reactions_at-execute s m (add r) t h =
    ground (arith, execute-denote (adds_reaction s m r) t s m, str_eq_refl s, str_eq_refl m)
reactions_at-execute s m (remove who) t h =
    ground (arith, execute-denote (removes_reaction s m who) t s m, str_eq_refl s, str_eq_refl m)

reactions_at-execute_all :
    (s m : Str) (cs : List Change) (t : Table) (row : Message)
    → view t s m ≡ some row
    → reactions_at s m (execute_all (map (reacts s m) cs) t) ≡ changed_all cs row.reactions
unfolding reactions_at execute_all changed_all
reactions_at-execute_all s m [] t row h = rw (h) refl
reactions_at-execute_all s m (c ∷ cs) t row h =
    reactions_at-execute_all s m cs (execute (reacts s m c) t) _ (reactions_at-execute s m c t h)

-- After any sequence of added and removed reactions to a message that the table has, its reactions
-- of a sender are what the last change of that sender left: one reaction after an addition, none
-- after a removal, and what they were if that sender made no change.
pub reactions_by-execute_all :
    (s m who : Str) (cs : List Change) (t : Table) {row : Message}
    → view t s m ≡ some row
    → reactions_by who (reactions_at s m (execute_all (map (reacts s m) cs) t))
      ≡ last_by who cs (reactions_by who row.reactions)
reactions_by-execute_all s m who cs t {row} h =
    ap (reactions_by who) (reactions_at-execute_all s m cs t row h)
    ∙ reactions_by-changed_all who cs row.reactions
