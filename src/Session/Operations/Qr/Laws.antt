-- ===== src/Session/Operations/Qr/Laws.antt =====
-- Where a pairing ends.
use onwapp.Base.{
  ==_refl, Bool-cases, Option-cases, and-true, ℕ, ◌≡◌, sym, subst, inl, inr, Bool, true, false,
  ◌&&◌, Option, none, some, List, [], ◌∷◌, arith,
}
use onwapp.Session.Wpp.{Wpp}
use onwapp.Session.Registry.{
  Registry, SessionStatus, disconnected, connecting, connected, set_status, set_qr, get_status,
  get_qr, store_at,
}
use onwapp.Session.Operations.{in_world}
use onwapp.Session.Operations.Frames.{
  Touches, Touches-refl, Touches-trans, via_world, via_status, via_qr,
}
use onwapp.Session.Operations.Qr.{
  QrEvent, code, success, timeout, other, final, paired, qr_loop, start_client_with_qr,
}

module _ {p : Wpp} where
  paired-Touches : (r : Registry p) (a : ℕ) → Touches a r (paired r a)
  unfolding paired
  paired-Touches r a =
      let r1 = set_qr (set_status r a connected) a [] in
      let base = via_qr (via_status (Touches-refl a r) connected) [] in
      elim (Option-cases (p.store r1.world (r1.heap a).client)) [
        | inl e ↦ rw (e, paired) base
        | inr (d, e) ↦ elim (Option-cases (p.device_id r1.world d)) [
          | inl f ↦ rw (e, f, paired) base
          | inr (j, f) ↦ rw (e, f, paired) (via_world base _)
        ]
      ]

  qr_loop-Touches :
      {a : ℕ} {r : Registry p} (evts : List (p.World × QrEvent)) (s : Registry p)
      → Touches a r s
      → Touches a r (qr_loop s a evts)
  unfolding qr_loop
  qr_loop-Touches [] s t = t
  qr_loop-Touches ((w, code text) ∷ evts) s t =
      qr_loop-Touches evts _ (via_status (via_qr (via_world t w) text) connecting)
  qr_loop-Touches ((w, success) ∷ evts) s t = Touches-trans (via_world t w) (paired-Touches _ _)
  qr_loop-Touches ((w, timeout) ∷ evts) s t = via_qr (via_status (via_world t w) disconnected) []
  qr_loop-Touches ((w, other) ∷ evts) s t = qr_loop-Touches evts _ (via_world t w)

  pub start_client_with_qr-Touches :
      (r : Registry p) (a : ℕ) (evts : List (p.World × QrEvent))
      → Touches a r (start_client_with_qr r a evts)
  unfolding start_client_with_qr
  start_client_with_qr-Touches r a evts =
      let c = (r.heap a).client in
      let w = (p.qr_channel r.world c).0 in
      let asked = via_world (Touches-refl a r) w in
      let dialled = via_world (Touches-refl a r) (p.connect w c).0 in
      ground (
        arith,
        via_status asked disconnected,
        via_status dialled disconnected,
        qr_loop-Touches evts _ dialled,
      )

  -- After `paired` the session is connected and shows no code.
  paired_ends :
      (r : Registry p) (a : ℕ)
      → (get_status (paired r a) a ≡ connected) × (get_qr (paired r a) a ≡ [])
  unfolding in_world paired get_status get_qr set_status set_qr store_at
  paired_ends r a = ground (arith, ==_refl a)

  -- What the session shows when the channel is used up.
  abbrev pub Ends : Option SessionStatus → Registry p → ℕ → Type 0
  Ends none r a = Unit
  Ends (some st) r a = (get_status r a ≡ st) × (get_qr r a ≡ [])

  qr_loop-Ends :
      (evts : List (p.World × QrEvent)) (r : Registry p) (a : ℕ)
      → Ends (final evts) (qr_loop r a evts) a
  unfolding qr_loop get_status get_qr set_status set_qr store_at
  qr_loop-Ends [] r a = tt
  qr_loop-Ends ((w, code text) ∷ evts) r a =
      qr_loop-Ends evts (set_status (set_qr (in_world r w) a text) a connecting) a
  qr_loop-Ends ((w, success) ∷ evts) r a = paired_ends (in_world r w) a
  qr_loop-Ends ((w, timeout) ∷ evts) r a = ground (arith, ==_refl a)
  qr_loop-Ends ((w, other) ∷ evts) r a = qr_loop-Ends evts (in_world r w) a

  -- How the session ends by whether the channel opened and the client connected.
  abbrev pub EndsBy : Bool → Option SessionStatus → Registry p → ℕ → Type 0
  EndsBy true st r a = Ends st r a
  EndsBy false st r a = get_status r a ≡ disconnected

  -- If the channel opens and the client connects, a pairing that the channel reports as done leaves
  -- the session connected, one that it reports as timed out leaves it disconnected, both with no QR
  -- code; if the channel does not open or the client does not connect, the session is disconnected.
  pub start_client_with_qr-Ends :
      (r : Registry p) (a : ℕ) (evts : List (p.World × QrEvent))
      → let (w, opened) = p.qr_channel r.world (r.heap a).client in
        let (w1, done) = p.connect w (r.heap a).client in
        EndsBy (opened && done) (final evts) (start_client_with_qr r a evts) a
  unfolding start_client_with_qr get_status set_status store_at
  start_client_with_qr-Ends r a evts =
      let c = (r.heap a).client in
      let opening = p.qr_channel r.world c in
      let connecting_ = p.connect opening.0 c in
      let r1 = start_client_with_qr r a evts in
      elim (Bool-cases (opening.1 && connecting_.1)) [
        | inl h ↦
            let both = and-true opening.1 connecting_.1 h in
            let ends : Ends (final evts) r1 a =
              rw (both.0, both.1) (qr_loop-Ends evts (in_world r connecting_.0) a) in
            subst (λ b. EndsBy b (final evts) r1 a) (sym h) ends
        | inr h ↦
            let idle : get_status r1 a ≡ disconnected = ground (arith, ==_refl a) in
            subst (λ b. EndsBy b (final evts) r1 a) (sym h) idle
      ]
