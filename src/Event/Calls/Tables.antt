-- ===== src/Event/Calls/Tables.antt =====
-- The statements on the message table among the calls of the handlers of internal/service/event.
use Prim.Native.String.{String}
use onwapp.Base.{
  Str, lit, str_eq, ℕ, ◌≡◌, refl, sym, ap, ◌∙◌, Bool, Option, List, [], ◌∷◌, ◌++◌, append_assoc,
  arith,
}
use onwapp.Store.Messages.{Table}
use onwapp.Store.Messages.View.{
  Statement, saves, saves_batch, updates_status, adds_reaction, removes_reaction, names_sender,
  execute_all,
}
use onwapp.Event.Calls.{
  Event, Call, saves_message, saves_messages, updates_message_status, Call.adds_reaction,
  Call.removes_reaction, names_jid, names_lid, Env, send_webhook,
}

-- The statement of a call, if it makes one; `like` is the LIKE of PostgreSQL.
unfoldable pub statement_in : (Str → Str → Bool) → ℕ → Str → Call → List Statement
unfolding str_eq lit
statement_in like now s (saves_message msg) = saves now msg ∷ []
statement_in like now s (saves_messages msgs) = saves_batch now msgs ∷ []
statement_in like now s (updates_message_status m st) = updates_status now s m st ∷ []
statement_in like now s (Call.adds_reaction m r) = adds_reaction s m r ∷ []
statement_in like now s (Call.removes_reaction m who) = removes_reaction s m who ∷ []
statement_in like now s (names_jid jid name) = names_sender (λ from. str_eq from jid) s name ∷ []
statement_in like now s (names_lid num name) = names_sender (like (num ++ lit "%@lid")) s name ∷ []
statement_in like now s _ = []

unfoldable pub statements : (Str → Str → Bool) → ℕ → Str → List Call → List Statement
unfolding statement_in
statements like now s [] = []
statements like now s (c ∷ cs) = statement_in like now s c ++ statements like now s cs

-- The table after calls.
unfoldable pub stored : (Str → Str → Bool) → ℕ → Str → List Call → Table → Table
unfolding statements execute_all
stored like now s cs t = execute_all (statements like now s cs) t

module _ (like : Str → Str → Bool) (now : ℕ) (s : Str) where
  pub statements-append :
      (cs ds : List Call)
      → statements like now s (cs ++ ds) ≡ statements like now s cs ++ statements like now s ds
  unfolding statements
  statements-append [] ds = refl
  statements-append (c ∷ cs) ds =
      ap (λ ns. statement_in like now s c ++ ns) (statements-append cs ds)
      ∙ sym (
          append_assoc (statement_in like now s c) (statements like now s cs)
            (statements like now s ds))

  pub statements-send_webhook :
      (env : Env) (name : String) (raw : Option Event)
      → statements like now s (send_webhook env name raw) ≡ []
  unfolding statements statement_in send_webhook
  statements-send_webhook env name raw = ground arith
