-- ===== src/Event/Calls/Inert.antt =====
-- Which of the calls of the handlers of internal/service/event reach the session itself: the object
-- of internal/model/session.go and its row of the session table.
use Prim.Native.String.{String}
use onwapp.Base.{
  if◌then◌else◌, and-true, all, Str, lit, ◌≡◌, refl, sym, ap, ap₂, ◌∙◌, Bool, true, false, Option,
  none, some, List, [], ◌∷◌, ◌++◌, append_assoc, arith,
}
use onwapp.Session.Registry.{SessionStatus}
use onwapp.Event.Calls.{
  Event, Call, sets_status, sets_qr, updates_jid, updates_session_status, sends_webhook, Env,
  send_webhook,
}

-- The session in memory, and its row.
pub record Standing : Type 0 where
  pub memory : SessionStatus
  pub qr : Str
  pub row_status : Str
  pub row_jid : Str
  pub row_phone : Str

-- A call whose statement succeeds.
unfoldable pub perform : Call → Standing → Standing
perform (sets_status st) s = record s { memory = st }
perform (sets_qr code) s = record s { qr = code }
perform (updates_jid jid phone) s = record s { row_jid = jid; row_phone = phone }
perform (updates_session_status st) s = record s { row_status = st }
perform _ s = s

unfoldable pub perform_all : List Call → Standing → Standing
unfolding perform
perform_all [] s = s
perform_all (c ∷ cs) s = perform_all cs (perform c s)

unfoldable pub is_inert : Call → Bool
is_inert (sets_status st) = false
is_inert (sets_qr code) = false
is_inert (updates_jid jid phone) = false
is_inert (updates_session_status st) = false
is_inert _ = true

-- A call that reaches neither the session nor the webhooks.
unfoldable pub is_plain : Call → Bool
is_plain (sets_status st) = false
is_plain (sets_qr code) = false
is_plain (updates_jid jid phone) = false
is_plain (updates_session_status st) = false
is_plain (sends_webhook name raw) = false
is_plain _ = true

plain-is_inert : (c : Call) → is_plain c ≡ true → is_inert c ≡ true
unfolding is_plain is_inert
plain-is_inert c h = ground arith

pub all_plain-is_inert : (cs : List Call) → all is_plain cs ≡ true → all is_inert cs ≡ true
all_plain-is_inert [] h = refl
all_plain-is_inert (c ∷ cs) h =
    let (now, later) = and-true (is_plain c) (all is_plain cs) h in
    rw (plain-is_inert c now) (all_plain-is_inert cs later)

-- The names of the webhooks that calls send.
unfoldable pub name_in : Call → List Str
name_in (sends_webhook name raw) = name ∷ []
name_in _ = []

unfoldable pub names : List Call → List Str
unfolding name_in
names [] = []
names (c ∷ cs) = name_in c ++ names cs

pub names-append : (cs ds : List Call) → names (cs ++ ds) ≡ names cs ++ names ds
unfolding names
names-append [] ds = refl
names-append (c ∷ cs) ds =
    ap (λ ns. name_in c ++ ns) (names-append cs ds)
    ∙ sym (append_assoc (name_in c) (names cs) (names ds))

name_in_plain : (c : Call) → is_plain c ≡ true → name_in c ≡ []
unfolding is_plain name_in
name_in_plain c h = ground arith

pub names_plain : (cs : List Call) → all is_plain cs ≡ true → names cs ≡ []
unfolding names
names_plain [] h = refl
names_plain (c ∷ cs) h =
    let (now, later) = and-true (is_plain c) (all is_plain cs) h in
    rw (name_in_plain c now) (names_plain cs later)

-- The name of a webhook that is sent, unless the service is missing or the event is skipped.
unfoldable pub announced : Env → String → List Str
unfolding lit
announced env name =
    if env.has_webhook_service
    then elim env.skips_webhook [
      | none ↦ lit name ∷ []
      | some skips ↦ if skips env.session_id (lit name) then [] else lit name ∷ []
    ]
    else []

pub names-send_webhook :
    (env : Env) (name : String) (raw : Option Event)
    → names (send_webhook env name raw) ≡ announced env name
unfolding names name_in send_webhook announced
names-send_webhook env name raw = ground arith

-- Plain calls and then a webhook.
pub names_plain-send_webhook :
    (cs : List Call) (env : Env) (name : String) (raw : Option Event)
    → all is_plain cs ≡ true
    → names (cs ++ send_webhook env name raw) ≡ announced env name
names_plain-send_webhook cs env name raw h =
    names-append cs (send_webhook env name raw)
    ∙ ap₂ (λ a b. a ++ b) (names_plain cs h) (names-send_webhook env name raw)

perform-inert : (c : Call) (s : Standing) → is_inert c ≡ true → perform c s ≡ s
unfolding perform is_inert
perform-inert c s h = ground arith

pub perform_all-inert :
    (cs : List Call) (s : Standing) → all is_inert cs ≡ true → perform_all cs s ≡ s
unfolding perform_all
perform_all-inert [] s h = refl
perform_all-inert (c ∷ cs) s h =
    let (now, later) = and-true (is_inert c) (all is_inert cs) h in
    rw (perform-inert c s now) (perform_all-inert cs s later)

pub perform_all-append :
    (cs ds : List Call) (s : Standing)
    → perform_all (cs ++ ds) s ≡ perform_all ds (perform_all cs s)
unfolding perform_all
perform_all-append [] ds s = refl
perform_all-append (c ∷ cs) ds s = perform_all-append cs ds (perform c s)

pub send_webhook-inert :
    (env : Env) (name : String) (raw : Option Event)
    → all is_inert (send_webhook env name raw) ≡ true
unfolding send_webhook is_inert
send_webhook-inert env name raw = ground arith
