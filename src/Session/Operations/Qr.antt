-- ===== src/Session/Operations/Qr.antt =====
-- `startClientWithQR` of internal/service/session.go: the pairing of a client by a QR code.
pub mod Laws
use onwapp.Base.{if◌then◌else◌, Str, lit, ℕ, Option, none, some, List, [], ◌∷◌}
use onwapp.Session.Wpp.{Wpp}
use onwapp.Session.Registry.{
  Registry, SessionStatus, disconnected, connecting, connected, set_status, set_qr,
}
use onwapp.Session.Operations.{in_world}

-- `evt.Event` of the channel; the code is `evt.Code`.
pub data QrEvent : Type 0 where
  code : Str → QrEvent
  success timeout other : QrEvent

-- The end of the pairing that the channel reports and the loop knows, if there is one.
abbrev pub final : {W : Type 0} → List (W × QrEvent) → Option SessionStatus
final [] = none
final ((w, code text) ∷ evts) = final evts
final ((w, success) ∷ evts) = some connected
final ((w, timeout) ∷ evts) = some disconnected
final ((w, other) ∷ evts) = final evts

module _ {p : Wpp} where
  -- The case "success": the JID and the status go to the session table.
  pub paired : Registry p → ℕ → Registry p
  unfolding in_world set_status set_qr
  paired r a =
      let r1 = set_qr (set_status r a connected) a [] in
      let s = r1.heap a in
      elim (p.store r1.world s.client) [
        | none ↦ r1
        | some d ↦ elim (p.device_id r1.world d) [
          | none ↦ r1
          | some j ↦
              let w = (p.update_jid r1.world s.session (p.jid_string j) (p.jid_user j)).0 in
              in_world r1 (p.update_status w s.session (lit "connected")).0
        ]
      ]

  -- The loop over the channel. Each event comes with the world that it is read in.
  pub qr_loop : Registry p → ℕ → List (p.World × QrEvent) → Registry p
  unfolding in_world paired
  qr_loop r a [] = r
  qr_loop r a ((w, code text) ∷ evts) =
      qr_loop (set_status (set_qr (in_world r w) a text) a connecting) a evts
  qr_loop r a ((w, success) ∷ evts) = paired (in_world r w) a
  qr_loop r a ((w, timeout) ∷ evts) = set_qr (set_status (in_world r w) a disconnected) a []
  qr_loop r a ((w, other) ∷ evts) = qr_loop (in_world r w) a evts

  -- `startClientWithQR`, for the events that the channel will deliver.
  pub start_client_with_qr : Registry p → ℕ → List (p.World × QrEvent) → Registry p
  unfolding in_world qr_loop
  start_client_with_qr r a evts =
      let c = (r.heap a).client in
      let (w, opened) = p.qr_channel r.world c in
      let (w1, done) = p.connect w c in
      if opened
      then (if done
          then qr_loop (in_world r w1) a evts
          else set_status (in_world r w1) a disconnected)
      else set_status (in_world r w) a disconnected
