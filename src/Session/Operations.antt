-- ===== src/Session/Operations.antt =====
-- The methods of `SessionService` in internal/service/session.go.
pub mod Qr
pub mod Frames
pub mod Maps
pub mod Invariant
pub mod Effects
pub mod Load
mod Examples
use onwapp.Base.{
  if◌then◌else◌, Str, lit, lookup, insert, delete, ℕ, suc, Bool, true, false, Option, none, some,
  [],
}
use onwapp.Session.Wpp.{Wpp, SessionRecord}
use onwapp.Session.Registry.{
  Session, disconnected, connecting, connected, Outcome, ok, already_exists, not_found,
  database_error, connect_error, panicked, Registry, store_at, set_status, set_qr,
}

-- Changes the outside world.
unfoldable pub in_world : {p : Wpp} → Registry p → p.World → Registry p
in_world r w = record r { world = w }

module _ (p : Wpp) where
  -- The session that `Create` and `LoadFromDatabase` build from a row.
  pub fresh_session : SessionRecord → p.Client → Option p.Device → Session p.Client p.Device
  fresh_session rec client device = record {
    id = rec.id;
    session = rec.session;
    device_jid = rec.device_jid;
    phone = rec.phone;
    api_key = rec.api_key;
    client = client;
    device = device;
    status = disconnected;
    qr_code = [];
    event_handler_set = false;
  }

  -- `session.Device != nil && session.Device.ID != nil`
  pub has_id : p.World → Option p.Device → Bool
  has_id w none = false
  has_id w (some d) = elim (p.device_id w d) [ none ↦ false | some j ↦ true ]

  -- The logout of a session with credentials, in `Delete` and in `Logout`: connect if need be, log
  -- out if that worked, and delete the device.
  pub log_out_device : p.World → p.Client → Option p.Device → p.World
  log_out_device w c device =
      let w1 = if p.is_connected w c then w else (p.connect w c).0 in
      let (w2, done) = p.logout w1 c in
      let w3 = if p.is_connected w1 c then (if done then w2 else p.disconnect w2 c) else w1 in
      (p.delete_device w3 device).0

module _ {p : Wpp} where
  -- A new object, under `name` in one map and under its own ID in the other.
  pub add_session : Registry p → Str → Session p.Client p.Device → Registry p
  unfolding store_at
  add_session r name s = record (store_at r r.next s) {
    next = suc r.next;
    sessions = insert name r.next r.sessions;
    sessions_by_id = insert s.id r.next r.sessions_by_id;
  }

  -- The rest of `Create`, once the row is saved.
  pub create_from : Registry p → Str → SessionRecord → Registry p × Outcome ℕ
  unfolding in_world fresh_session add_session
  create_from r name rec =
      let (w1, device) = p.new_device r.world in
      let (w2, client) = p.new_client w1 (some device) in
      (add_session (in_world r w2) name (fresh_session p rec client (some device)), ok r.next)

  -- `Create`
  pub create : Registry p → Str → Str → Registry p × Outcome ℕ
  unfolding in_world create_from
  create r name api_key = elim (lookup name r.sessions) [
    | some a ↦ (r, already_exists)
    | none ↦
        let (w, saved) = p.create_row r.world name api_key in
        elim saved [
          | none ↦ (in_world r w, database_error)
          | some rec ↦ create_from (in_world r w) name rec
        ]
  ]

  -- The part of `Delete` for a session that the map holds.
  pub forget : Registry p → Str → ℕ → Registry p
  unfolding in_world has_id log_out_device set_qr
  forget r name a =
      let s = r.heap a in
      let w =
        if has_id p r.world s.device
        then log_out_device p r.world s.client s.device
        else p.disconnect r.world s.client in
      let r1 = set_qr (in_world r w) a [] in
      record r1 {
        sessions = delete name r1.sessions;
        sessions_by_id = delete s.id r1.sessions_by_id;
      }

  -- `Delete`
  pub remove : Registry p → Str → Registry p × Outcome (Unit {0})
  unfolding in_world forget
  remove r name = elim (lookup name r.sessions) [
    | some a ↦ let r1 = forget r name a in (in_world r1 (p.delete_row r1.world name).0, ok tt)
    | none ↦
        let (w, done) = p.delete_row r.world name in
        (in_world r w, if done then ok tt else not_found)
  ]

  -- `setupEventHandler`
  pub setup_event_handler : Registry p → ℕ → Registry p
  unfolding in_world store_at
  setup_event_handler r a =
      let s = r.heap a in
      if s.event_handler_set
      then r
      else store_at (in_world r (p.add_event_handler r.world s.client)) a
          (record s { event_handler_set = true })

  -- `reconnectSession`
  pub reconnect_session : Registry p → ℕ → Registry p
  unfolding in_world setup_event_handler set_status
  reconnect_session r a =
      let r1 = setup_event_handler r a in
      let (w, done) = p.connect r1.world (r1.heap a).client in
      if done
      then set_status (in_world r1 w) a connected
      else let r2 = set_status (in_world r1 w) a disconnected in
        in_world r2 (p.update_status r2.world (r2.heap a).session (lit "disconnected")).0

  -- `Connect`; the flag says that `startClientWithQR` was started. A nil store of the client panics.
  pub connect_at : Registry p → ℕ → Registry p × Outcome (ℕ × Bool)
  unfolding in_world setup_event_handler set_status
  connect_at r a =
      if p.is_connected r.world (r.heap a).client
      then (r, ok (a, false))
      else let r1 = setup_event_handler (set_status r a connecting) a in
        let c = (r1.heap a).client in
        elim (p.store r1.world c) [
          | none ↦ (r1, panicked)
          | some d ↦
              let (w, done) = p.connect r1.world c in
              if has_id p r1.world (some d)
              then if done
                then (in_world r1 w, ok (a, false))
                else (set_status (in_world r1 w) a disconnected, connect_error)
              else (r1, ok (a, true))
        ]

  pub connect : Registry p → Str → Registry p × Outcome (ℕ × Bool)
  unfolding connect_at has_id
  connect r name = elim (lookup name r.sessions) [ none ↦ (r, not_found) | some a ↦ connect_at r a ]

  -- `Disconnect`
  pub disconnect_at : Registry p → Str → ℕ → Registry p
  unfolding in_world set_status
  disconnect_at r name a =
      let c = (r.heap a).client in
      let w = if p.is_connected r.world c then p.disconnect r.world c else r.world in
      let r1 = set_status (in_world r w) a disconnected in
      in_world r1 (p.update_status r1.world name (lit "disconnected")).0

  pub disconnect : Registry p → Str → Registry p × Outcome (Unit {0})
  unfolding disconnect_at
  disconnect r name = elim (lookup name r.sessions) [
    | none ↦ (r, not_found)
    | some a ↦ (disconnect_at r name a, ok tt)
  ]

  -- `Logout`
  pub logout_at : Registry p → Str → ℕ → Registry p
  unfolding in_world store_at has_id log_out_device
  logout_at r name a =
      let s = r.heap a in
      let w =
        if has_id p r.world s.device
        then log_out_device p r.world s.client s.device
        else if p.is_connected r.world s.client
        then p.disconnect r.world s.client
        else r.world in
      let w1 = (p.update_jid w name [] []).0 in
      let w2 = (p.update_status w1 name (lit "disconnected")).0 in
      let (w3, device) = p.new_device w2 in
      store_at (in_world r (p.set_store w3 s.client device)) a (record s {
        device = some device;
        device_jid = [];
        phone = [];
        status = disconnected;
        qr_code = [];
      })

  pub logout : Registry p → Str → Registry p × Outcome (Unit {0})
  unfolding logout_at
  logout r name = elim (lookup name r.sessions) [
    | none ↦ (r, not_found)
    | some a ↦ (logout_at r name a, ok tt)
  ]

  -- `Restart`
  pub restart_at : Registry p → ℕ → Registry p × Outcome ℕ
  unfolding in_world set_status
  restart_at r a =
      let c = (r.heap a).client in
      let w = if p.is_connected r.world c then p.disconnect r.world c else r.world in
      let r1 = set_status (in_world r w) a disconnected in
      let (w1, done) = p.connect r1.world c in
      if done
      then (set_status (in_world r1 w1) a connected, ok a)
      else (in_world r1 w1, connect_error)

  pub restart : Registry p → Str → Registry p × Outcome ℕ
  unfolding restart_at
  restart r name = elim (lookup name r.sessions) [ none ↦ (r, not_found) | some a ↦ restart_at r a ]
