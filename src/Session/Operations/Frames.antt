-- ===== src/Session/Operations/Frames.antt =====
-- Changes of the session at one address in internal/service/session.go.
use onwapp.Base.{if◌then◌else◌, ==_iff, ==_refl, Str, ℕ, ◌≡◌, refl, ◌∙◌, ◌≢◌, true, arith}
use onwapp.Session.Wpp.{Wpp}
use onwapp.Session.Registry.{
  Registry, Session, SessionStatus, disconnected, connecting, connected, store_at, set_status,
  set_qr,
}
use onwapp.Session.Operations.{
  in_world, setup_event_handler, reconnect_session, connect_at, disconnect_at, logout_at,
  restart_at,
}

-- `r'` is `r` with at most the world and the mutable fields of the session at `a` changed.
pub record Touches {p : Wpp} (a : ℕ) (r r' : Registry p) : Type 0 where
  pub sessions : r'.sessions ≡ r.sessions
  pub sessions_by_id : r'.sessions_by_id ≡ r.sessions_by_id
  pub next : r'.next ≡ r.next
  pub id : (r'.heap a).id ≡ (r.heap a).id
  pub session : (r'.heap a).session ≡ (r.heap a).session
  pub others : (b : ℕ) → b ≢ a → r'.heap b ≡ r.heap b

module _ {p : Wpp} where
  pub Touches-refl : (a : ℕ) (r : Registry p) → Touches a r r
  Touches-refl a r = record {
    sessions = refl;
    sessions_by_id = refl;
    next = refl;
    id = refl;
    session = refl;
    others = λ b h. refl;
  }

  pub Touches-trans : {a : ℕ} {r s t : Registry p} → Touches a r s → Touches a s t → Touches a r t
  Touches-trans h k = record {
    sessions = k.sessions ∙ h.sessions;
    sessions_by_id = k.sessions_by_id ∙ h.sessions_by_id;
    next = k.next ∙ h.next;
    id = k.id ∙ h.id;
    session = k.session ∙ h.session;
    others = λ b n. k.others b n ∙ h.others b n;
  }

  pub via_world :
      {a : ℕ} {r s : Registry p} → Touches a r s → (w : p.World) → Touches a r (in_world s w)
  unfolding in_world
  via_world t w = record {
    sessions = t.sessions;
    sessions_by_id = t.sessions_by_id;
    next = t.next;
    id = t.id;
    session = t.session;
    others = t.others;
  }

  pub heap-store_at :
      (r : Registry p) (a : ℕ) (s : Session p.Client p.Device) → (store_at r a s).heap a ≡ s
  unfolding store_at
  heap-store_at r a s = rw (==_refl a)

  pub store_at-Touches :
      (r : Registry p) (a : ℕ) (s : Session p.Client p.Device)
      → s.id ≡ (r.heap a).id
      → s.session ≡ (r.heap a).session
      → Touches a r (store_at r a s)
  unfolding store_at
  store_at-Touches r a s i n = record {
    sessions = refl;
    sessions_by_id = refl;
    next = refl;
    id = rw (==_refl a) i;
    session = rw (==_refl a) n;
    others = λ b h. ground (arith, ==_iff b a);
  }

  pub via_status :
      {a : ℕ} {r s : Registry p}
      → Touches a r s
      → (st : SessionStatus) → Touches a r (set_status s a st)
  unfolding set_status
  via_status {a} {s} t st = Touches-trans t (store_at-Touches s a _ refl refl)

  pub via_qr : {a : ℕ} {r s : Registry p} → Touches a r s → (qr : Str) → Touches a r (set_qr s a qr)
  unfolding set_qr
  via_qr {a} {s} t qr = Touches-trans t (store_at-Touches s a _ refl refl)

  pub setup_event_handler-Touches : (r : Registry p) (a : ℕ) → Touches a r (setup_event_handler r a)
  unfolding setup_event_handler in_world
  setup_event_handler-Touches r a =
      let w = p.add_event_handler r.world (r.heap a).client in
      let s = record (r.heap a) { event_handler_set = true } in
      let set =
        Touches-trans (via_world (Touches-refl a r) w)
          (store_at-Touches (in_world r w) a s refl refl) in
      ground (arith, set, Touches-refl a r)

  pub disconnect_at-Touches :
      (r : Registry p) (name : Str) (a : ℕ) → Touches a r (disconnect_at r name a)
  unfolding disconnect_at
  disconnect_at-Touches r name a =
      let c = (r.heap a).client in
      let w = if p.is_connected r.world c then p.disconnect r.world c else r.world in
      via_world (via_status (via_world (Touches-refl a r) w) _) _

  pub logout_at-Touches : (r : Registry p) (name : Str) (a : ℕ) → Touches a r (logout_at r name a)
  unfolding logout_at
  logout_at-Touches r name a =
      Touches-trans (via_world (Touches-refl a r) _) (store_at-Touches (in_world r _) a _ refl refl)

  pub reconnect_session-Touches : (r : Registry p) (a : ℕ) → Touches a r (reconnect_session r a)
  unfolding reconnect_session
  reconnect_session-Touches r a =
      let r1 = setup_event_handler r a in
      let dialled =
        via_world (setup_event_handler-Touches r a) (p.connect r1.world (r1.heap a).client).0 in
      ground (
        arith,
        via_status dialled connected,
        λ (w : p.World). via_world (via_status dialled disconnected) w,
      )

  pub restart_at-Touches : (r : Registry p) (a : ℕ) → Touches a r (restart_at r a).0
  unfolding restart_at
  restart_at-Touches r a =
      let stopped = λ (w : p.World). via_status (via_world (Touches-refl a r) w) disconnected in
      ground (
        arith,
        λ (w w1 : p.World). via_world (stopped w) w1,
        λ (w w1 : p.World). via_status (via_world (stopped w) w1) connected,
      )

  pub connect_at-Touches : (r : Registry p) (a : ℕ) → Touches a r (connect_at r a).0
  unfolding connect_at
  connect_at-Touches r a =
      let r1 = setup_event_handler (set_status r a connecting) a in
      let ready : Touches a r r1 =
        Touches-trans (via_status (Touches-refl a r) connecting)
          (setup_event_handler-Touches _ a) in
      let dialled = via_world ready (p.connect r1.world (r1.heap a).client).0 in
      ground (arith, Touches-refl a r, ready, dialled, via_status dialled disconnected)
