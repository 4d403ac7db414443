-- ===== src/Session/Operations/Maps.antt =====
-- When the two maps of `SessionService` (internal/service/session.go) are in step.
use onwapp.Base.{
  if◌then◌else◌, Option-cases, Str, str_eq_refl, str_eq_iff, lookup-insert, lookup-delete, lookup,
  delete, ℕ, ◌<◌, ◌≡◌, ap, subst, ◌∙◌, inl, inr, none, some, [], arith, ℕ_discrete,
}
use onwapp.Session.Wpp.{Wpp, SessionRecord}
use onwapp.Session.Registry.{Registry, Session, set_qr}
use onwapp.Session.Operations.{
  in_world, has_id, log_out_device, fresh_session, add_session, create_from, create, forget, remove,
}
use onwapp.Session.Operations.Frames.{Touches, Touches-refl, via_world, via_qr}

-- A name leads to a session of that name, which its ID leads to as well, and the other way round.
pub record WellFormed {p : Wpp} (r : Registry p) : Type 0 where
  pub by_name :
      (n : Str) (a : ℕ)
      → lookup n r.sessions ≡ some a
      → ((r.heap a).session ≡ n) × (lookup (r.heap a).id r.sessions_by_id ≡ some a) × (a < r.next)
  pub by_id :
      (i : Str) (a : ℕ)
      → lookup i r.sessions_by_id ≡ some a
      → ((r.heap a).id ≡ i) × (lookup (r.heap a).session r.sessions ≡ some a) × (a < r.next)

module _ {p : Wpp} where
  -- The row that the table would save has the name asked for, and an ID that no session of the
  -- registry has.
  abbrev pub Saves : Registry p → Str → Str → Type 0
  Saves r name key =
      (w : p.World) (rec : SessionRecord)
      → p.create_row r.world name key ≡ (w, some rec)
      → (rec.session ≡ name) × (lookup rec.id r.sessions_by_id ≡ none)

  same_id : {a : ℕ} {r r' : Registry p} → Touches a r r' → (b : ℕ) → (r'.heap b).id ≡ (r.heap b).id
  same_id {a} t b = elim (ℕ_discrete b a) [
    | yes e ↦ rw e t.id
    | no n ↦ ap (λ s. s.id) (t.others b n)
  ]

  same_session :
      {a : ℕ} {r r' : Registry p}
      → Touches a r r'
      → (b : ℕ) → (r'.heap b).session ≡ (r.heap b).session
  same_session {a} t b = elim (ℕ_discrete b a) [
    | yes e ↦ rw e t.session
    | no n ↦ ap (λ s. s.session) (t.others b n)
  ]

  pub Touches-WellFormed :
      {a : ℕ} {r r' : Registry p} → Touches a r r' → WellFormed r → WellFormed r'
  Touches-WellFormed t v = record {
    by_name = λ n b h.
        let old = v.by_name n b (rw (← t.sessions) h) in
        (same_session t b ∙ old.0, rw (same_id t b, t.sessions_by_id) old.1, rw t.next old.2);
    by_id = λ i b h.
        let old = v.by_id i b (rw (← t.sessions_by_id) h) in
        (same_id t b ∙ old.0, rw (same_session t b, t.sessions) old.1, rw t.next old.2);
  }

  pub add_session-WellFormed :
      (r : Registry p) (s : Session p.Client p.Device)
      → lookup s.session r.sessions ≡ none
      → lookup s.id r.sessions_by_id ≡ none
      → WellFormed r
      → WellFormed (add_session r s.session s)
  unfolding add_session
  add_session-WellFormed r s fresh_name fresh_id v = record {
    by_name = λ n a h. ground (
      arith,
      lookup-insert n s.session r.next r.sessions,
      lookup-insert s.id s.id r.next r.sessions_by_id,
      lookup-insert (r.heap a).id s.id r.next r.sessions_by_id,
      str_eq_iff s.session n,
      str_eq_iff s.id (r.heap a).id,
      str_eq_refl s.id,
      v.by_name n a,
    );
    by_id = λ i a h. ground (
      arith,
      lookup-insert i s.id r.next r.sessions_by_id,
      lookup-insert s.session s.session r.next r.sessions,
      lookup-insert (r.heap a).session s.session r.next r.sessions,
      str_eq_iff s.id i,
      str_eq_iff s.session (r.heap a).session,
      str_eq_refl s.session,
      v.by_id i a,
    );
  }

  create_from-WellFormed :
      (r : Registry p) (name : Str) (rec : SessionRecord)
      → lookup name r.sessions ≡ none
      → rec.session ≡ name
      → lookup rec.id r.sessions_by_id ≡ none
      → WellFormed r
      → WellFormed (create_from r name rec).0
  unfolding create_from in_world fresh_session
  create_from-WellFormed r name rec fresh_name same fresh_id v =
      let (w1, device) = p.new_device r.world in
      let (w2, client) = p.new_client w1 (some device) in
      let s = fresh_session p rec client (some device) in
      let r1 = in_world r w2 in
      subst (λ n. WellFormed (add_session r1 n s)) same
        (add_session-WellFormed r1 s (rw same fresh_name) fresh_id
          (Touches-WellFormed (via_world (Touches-refl 0 r) w2) v))

  -- `Create` keeps the maps in step, whether it succeeds, finds the name taken or fails to save.
  pub create-WellFormed :
      (r : Registry p) (name key : Str)
      → Saves r name key
      → WellFormed r
      → WellFormed (create r name key).0
  unfolding create in_world
  create-WellFormed r name key saves v = elim (Option-cases (lookup name r.sessions)) [
    | inr (a, e) ↦ rw (e, create) v
    | inl e ↦
        let (w, saved) = p.create_row r.world name key in
        let moved = Touches-WellFormed (via_world (Touches-refl 0 r) w) v in
        elim (Option-cases saved) [
          | inl f ↦ rw (e, create, f) moved
          | inr (rec, f) ↦
              let row = saves w rec (ap (λ o. (w, o)) f) in
              rw (e, create, f) (create_from-WellFormed (in_world r w) name rec e row.0 row.1 moved)
        ]
  ]

  drop_session-WellFormed :
      (r : Registry p) (name : Str) (a : ℕ)
      → lookup name r.sessions ≡ some a
      → WellFormed r
      → WellFormed (record r {
        sessions = delete name r.sessions;
        sessions_by_id = delete (r.heap a).id r.sessions_by_id;
      })
  drop_session-WellFormed r name a e v = record {
    by_name = λ n b h. ground (
      arith,
      lookup-delete n name r.sessions,
      lookup-delete (r.heap b).id (r.heap a).id r.sessions_by_id,
      str_eq_iff name n,
      str_eq_iff (r.heap a).id (r.heap b).id,
      v.by_name name a e,
      v.by_name n b,
    );
    by_id = λ i b h. ground (
      arith,
      lookup-delete i (r.heap a).id r.sessions_by_id,
      lookup-delete (r.heap b).session name r.sessions,
      str_eq_iff (r.heap a).id i,
      str_eq_iff name (r.heap b).session,
      v.by_name name a e,
      v.by_id i b,
    );
  }

  forget-WellFormed :
      (r : Registry p) (name : Str) (a : ℕ)
      → lookup name r.sessions ≡ some a
      → WellFormed r
      → WellFormed (forget r name a)
  unfolding forget
  forget-WellFormed r name a e v =
      let s = r.heap a in
      let w =
        if has_id p r.world s.device
        then log_out_device p r.world s.client s.device
        else p.disconnect r.world s.client in
      let t = via_qr (via_world (Touches-refl a r) w) [] in
      subst
        (λ i. WellFormed (record (set_qr (in_world r w) a []) {
          sessions = delete name (set_qr (in_world r w) a []).sessions;
          sessions_by_id = delete i (set_qr (in_world r w) a []).sessions_by_id;
        }))
        t.id
        (drop_session-WellFormed (set_qr (in_world r w) a []) name a (rw t.sessions e)
          (Touches-WellFormed t v))

  -- `Delete` keeps the maps in step, also where the database refuses.
  pub remove-WellFormed :
      (r : Registry p) (name : Str) → WellFormed r → WellFormed (remove r name).0
  unfolding remove
  remove-WellFormed r name v = elim (Option-cases (lookup name r.sessions)) [
    | inl e ↦ rw (e, remove) (Touches-WellFormed (via_world (Touches-refl 0 r) _) v)
    | inr (a, e) ↦
        rw (e, remove)
          (Touches-WellFormed (via_world (Touches-refl 0 (forget r name a)) _)
            (forget-WellFormed r name a e v))
  ]
