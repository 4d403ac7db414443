-- ===== src/Event/Connection.antt =====
-- The connection handlers of internal/service/event/connection.go.
pub mod Agreement
use Prim.Native.String.{String}
use onwapp.Base.{if◌then◌else◌, lit, true, ◌&&◌, Option, none, some, List, [], ◌∷◌, ◌++◌}
use onwapp.Session.Registry.{disconnected, connected}
use onwapp.Event.Calls.{
  LostEvent, disconnected_event, connect_failure, stream_replaced, temporary_ban, client_outdated,
  ConnectionEvent, stream_error, keep_alive_timeout, keep_alive_restored, pair_success, pair_error,
  app_state, app_state_sync_complete, Event, connected_event, logged_out, lost, connection, Call,
  sets_status, sets_qr, updates_jid, updates_session_status, ensures_settings, starts_privacy_sync,
  syncs_privacy, starts_keep_online, disconnects_client, deletes_device, Env, send_webhook,
}

-- `session.Client.Store.ID != nil`
unfoldable pub store_jid : Env → List Call
store_jid env = elim env.store_id [ none ↦ [] | some (jid, phone) ↦ updates_jid jid phone ∷ [] ]

-- The settings provider, if there is one, and the goroutine.
unfoldable pub prepare_settings : Env → List Call
prepare_settings env = elim env.settings [
  | none ↦ []
  | some s ↦ ensures_settings ∷ starts_privacy_sync ∷ []
]

-- `handleConnected`
unfoldable pub handle_connected : Env → List Call
unfolding store_jid prepare_settings lit
handle_connected env =
    sets_status connected
    ∷ sets_qr []
    ∷ (store_jid env
        ++ (updates_session_status (lit "connected")
            ∷ (prepare_settings env ++ send_webhook env "session.connected" none)))

-- The goroutine of `handleConnected`.
unfoldable pub privacy_sync : Env → List Call
privacy_sync env = elim env.settings [
  | none ↦ []
  | some s ↦ elim env.gets_privacy [ some true ↦ syncs_privacy ∷ [] | _ ↦ [] ] ++ elim s [
    | none ↦ []
    | some (always_online, auto_reject) ↦
        if always_online && env.has_presence_sender then starts_keep_online ∷ [] else []
  ]
]

-- The status in the database after a lost connection.
unfoldable pub lost_status : LostEvent → String
lost_status disconnected_event = "disconnected"
lost_status connect_failure = "disconnected"
lost_status stream_replaced = "disconnected"
lost_status temporary_ban = "banned"
lost_status client_outdated = "outdated"

unfoldable pub lost_name : LostEvent → String
lost_name disconnected_event = "session.disconnected"
lost_name connect_failure = "session.connect_failure"
lost_name stream_replaced = "session.stream_replaced"
lost_name temporary_ban = "session.temporary_ban"
lost_name client_outdated = "session.client_outdated"

-- Only `handleDisconnected` sends no event.
unfoldable pub lost_raw : LostEvent → Option Event
lost_raw disconnected_event = none
lost_raw e = some (lost e)

-- `handleDisconnected`, `handleConnectFailure`, `handleStreamReplaced`, `handleTemporaryBan` and
-- `handleClientOutdated`
unfoldable pub handle_lost : Env → LostEvent → List Call
unfolding lost_status lost_name lost_raw send_webhook lit
handle_lost env e =
    sets_status disconnected
    ∷ updates_session_status (lit (lost_status e))
    ∷ send_webhook env (lost_name e) (lost_raw e)

-- The client of a session that is logged out.
unfoldable pub drop_client : Env → List Call
drop_client env =
    if env.has_client
    then disconnects_client ∷ (if env.has_store then deletes_device ∷ [] else [])
    else []

-- `handleLoggedOut`
unfoldable pub handle_logged_out : Env → List Call
unfolding drop_client send_webhook lit
handle_logged_out env =
    sets_status disconnected
    ∷ (drop_client env
        ++ (updates_jid [] []
            ∷ updates_session_status (lit "disconnected")
            ∷ send_webhook env "session.logged_out" (some logged_out)))

unfoldable pub connection_name : ConnectionEvent → String
connection_name stream_error = "session.stream_error"
connection_name keep_alive_timeout = "session.keepalive_timeout"
connection_name keep_alive_restored = "session.keepalive_restored"
connection_name pair_success = "session.pair_success"
connection_name pair_error = "session.pair_error"
connection_name app_state = "sync.app_state"
connection_name app_state_sync_complete = "sync.app_state_complete"

-- `handleStreamError`, the keep-alive and pairing handlers and those of the app state.
unfoldable pub handle_connection : Env → ConnectionEvent → List Call
unfolding connection_name send_webhook
handle_connection env e = send_webhook env (connection_name e) (some (connection e))
