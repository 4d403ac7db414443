-- ===== src/Session/Operations/Invariant.antt =====
-- The two maps of `SessionService` (internal/service/session.go) under every method and under the
-- goroutines that hold a session's pointer.
use onwapp.Base.{Option-cases, Str, lookup, ℕ, ◌≡◌, inl, inr, some, List}
use onwapp.Session.Wpp.{Wpp, SessionRecord}
use onwapp.Session.Registry.{Registry}
use onwapp.Session.Operations.{
  in_world, create, remove, connect, disconnect, logout, restart, reconnect_session,
}
use onwapp.Session.Operations.Frames.{
  Touches-refl, via_world, connect_at-Touches, disconnect_at-Touches, logout_at-Touches,
  restart_at-Touches, reconnect_session-Touches,
}
use onwapp.Session.Operations.Qr.{QrEvent, start_client_with_qr}
use onwapp.Session.Operations.Qr.Laws.{start_client_with_qr-Touches}
use onwapp.Session.Operations.Load.{AreNew, load_from_database, load_from_database-WellFormed}
use onwapp.Session.Operations.Maps.{
  WellFormed, Saves, Touches-WellFormed, create-WellFormed, remove-WellFormed,
}

-- One call of a method, or one goroutine's work on the session that it was started for.
pub data Step {p : Wpp} : Registry p → Registry p → Type 0 where
  creates : (r : Registry p) (name key : Str) → Saves r name key → Step r (create r name key).0
  removes : (r : Registry p) (name : Str) → Step r (remove r name).0
  connects : (r : Registry p) (name : Str) → Step r (connect r name).0
  disconnects : (r : Registry p) (name : Str) → Step r (disconnect r name).0
  logs_out : (r : Registry p) (name : Str) → Step r (logout r name).0
  restarts : (r : Registry p) (name : Str) → Step r (restart r name).0
  reconnects : (r : Registry p) (a : ℕ) → Step r (reconnect_session r a)
  pairs :
      (r : Registry p) (a : ℕ) (evts : List (p.World × QrEvent))
      → Step r (start_client_with_qr r a evts)
  loads :
      (r : Registry p)
      → ((recs : List SessionRecord)
          → p.get_all r.world ≡ some recs
          → AreNew r.next recs r.sessions r.sessions_by_id)
      → Step r (load_from_database r).0
  outside : (r : Registry p) (w : p.World) → Step r (in_world r w)

pub data Reach {p : Wpp} (r : Registry p) : Registry p → Type 0 where
  here : Reach r r
  next : {s t : Registry p} → Reach r s → Step s t → Reach r t

module _ {p : Wpp} where
  connect-WellFormed : (r : Registry p) (name : Str) → WellFormed r → WellFormed (connect r name).0
  unfolding connect
  connect-WellFormed r name v = elim (Option-cases (lookup name r.sessions)) [
    | inl e ↦ rw (e, connect) v
    | inr (a, e) ↦ rw (e, connect) (Touches-WellFormed (connect_at-Touches r a) v)
  ]

  disconnect-WellFormed :
      (r : Registry p) (name : Str) → WellFormed r → WellFormed (disconnect r name).0
  unfolding disconnect
  disconnect-WellFormed r name v = elim (Option-cases (lookup name r.sessions)) [
    | inl e ↦ rw (e, disconnect) v
    | inr (a, e) ↦ rw (e, disconnect) (Touches-WellFormed (disconnect_at-Touches r name a) v)
  ]

  logout-WellFormed : (r : Registry p) (name : Str) → WellFormed r → WellFormed (logout r name).0
  unfolding logout
  logout-WellFormed r name v = elim (Option-cases (lookup name r.sessions)) [
    | inl e ↦ rw (e, logout) v
    | inr (a, e) ↦ rw (e, logout) (Touches-WellFormed (logout_at-Touches r name a) v)
  ]

  restart-WellFormed : (r : Registry p) (name : Str) → WellFormed r → WellFormed (restart r name).0
  unfolding restart
  restart-WellFormed r name v = elim (Option-cases (lookup name r.sessions)) [
    | inl e ↦ rw (e, restart) v
    | inr (a, e) ↦ rw (e, restart) (Touches-WellFormed (restart_at-Touches r a) v)
  ]

  pub Step-WellFormed : {r s : Registry p} → Step r s → WellFormed r → WellFormed s
  Step-WellFormed (creates r name key saves) v = create-WellFormed r name key saves v
  Step-WellFormed (removes r name) v = remove-WellFormed r name v
  Step-WellFormed (connects r name) v = connect-WellFormed r name v
  Step-WellFormed (disconnects r name) v = disconnect-WellFormed r name v
  Step-WellFormed (logs_out r name) v = logout-WellFormed r name v
  Step-WellFormed (restarts r name) v = restart-WellFormed r name v
  Step-WellFormed (reconnects r a) v = Touches-WellFormed (reconnect_session-Touches r a) v
  Step-WellFormed (pairs r a evts) v = Touches-WellFormed (start_client_with_qr-Touches r a evts) v
  Step-WellFormed (loads r new) v = load_from_database-WellFormed r new v
  Step-WellFormed (outside r w) v = Touches-WellFormed (via_world (Touches-refl 0 r) w) v

  -- Whatever methods and goroutines run, in whatever order, a registry whose maps are in step has
  -- its maps in step afterwards, if each row that `Create` saves has the name asked for and an ID
  -- that no live session has, and the rows that `LoadFromDatabase` reads have distinct names and IDs
  -- that no live session has.
  pub Reach-WellFormed : {r s : Registry p} → WellFormed r → Reach r s → WellFormed s
  Reach-WellFormed v here = v
  Reach-WellFormed v (next rs st) = Step-WellFormed st (Reach-WellFormed v rs)
