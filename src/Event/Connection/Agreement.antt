-- ===== src/Event/Connection/Agreement.antt =====
-- The status of a session in memory and in its row, over any sequence of events of
-- internal/service/event.
use Prim.Native.String.{String}
use onwapp.Base.{Str, lit, str_eq, ◌≡◌, ◌↔◌, true, none, some, List, [], ◌∷◌}
use onwapp.Session.Registry.{SessionStatus, disconnected, connected}
use onwapp.Event.Calls.{
  disconnected_event, connect_failure, stream_replaced, temporary_ban, client_outdated, Event,
  connected_event, logged_out, lost, Env,
}
use onwapp.Event.Calls.Inert.{Standing, perform_all}
use onwapp.Event.Connection.{lost_status}
use onwapp.Event.Service.{handle_event}

-- What an event makes of the session in memory and of its row.
unfoldable pub stands : Env → Event → Standing → Standing
unfolding lost_status lit
stands env connected_event s = record {
  memory = connected;
  qr = [];
  row_status = lit "connected";
  row_jid = elim env.store_id [ none ↦ s.row_jid | some (jid, phone) ↦ jid ];
  row_phone = elim env.store_id [ none ↦ s.row_phone | some (jid, phone) ↦ phone ];
}
stands env logged_out s = record s {
  memory = disconnected;
  row_status = lit "disconnected";
  row_jid = [];
  row_phone = [];
}
stands env (lost e) s = record s { memory = disconnected; row_status = lit (lost_status e) }
stands env _ s = s

-- The session after a sequence of events.
unfoldable pub after_events : Env → List Event → Standing → Standing
unfolding perform_all handle_event
after_events env [] s = s
after_events env (e ∷ es) s = after_events env es (perform_all (handle_event env e) s)

-- What an event says of the status of the session.
unfoldable pub status_after : Event → SessionStatus → SessionStatus
status_after connected_event st = connected
status_after logged_out st = disconnected
status_after (lost e) st = disconnected
status_after _ st = st

-- The status that the last connecting or disconnecting event of a sequence gives.
unfoldable pub last_status : List Event → SessionStatus → SessionStatus
unfolding status_after
last_status [] st = st
last_status (e ∷ es) st = last_status es (status_after e st)

-- What an event says of the status in the row.
unfoldable pub row_after : Event → Str → Str
unfolding lit
row_after connected_event st = lit "connected"
row_after logged_out st = lit "disconnected"
row_after (lost disconnected_event) st = lit "disconnected"
row_after (lost connect_failure) st = lit "disconnected"
row_after (lost stream_replaced) st = lit "disconnected"
row_after (lost temporary_ban) st = lit "banned"
row_after (lost client_outdated) st = lit "outdated"
row_after _ st = st

-- The status that the last of these events leaves in the row.
unfoldable pub last_row : List Event → Str → Str
unfolding row_after
last_row [] st = st
last_row (e ∷ es) st = last_row es (row_after e st)

-- The row says "connected" exactly if the session in memory is connected.
abbrev pub Agrees : Standing → Type 0
Agrees s = (s.memory ≡ connected) ↔ (str_eq s.row_status (lit "connected") ≡ true)
