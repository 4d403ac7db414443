-- ===== src/Session/Operations/Effects.antt =====
-- What `Create`, `Delete`, `Connect`, `Logout` and `Restart` do to the session they name.
use onwapp.Base.{
  ==_iff, ==_refl, Option-cases, Str, str_eq_of_ne, lookup-insert, lookup-insert_self,
  lookup-delete, lookup-delete_self, lookup, ℕ, ◌≡◌, refl, sym, ap, subst, ◌≢◌, inl, inr, Bool,
  true, false, some, [], arith,
}
use onwapp.Session.Wpp.{Wpp, SessionRecord}
use onwapp.Session.Registry.{
  Registry, disconnected, connecting, Outcome, ok, already_exists, not_found, connect_error,
  panicked, store_at, set_status, set_qr, get, get_by_id, get_status, get_qr,
}
use onwapp.Session.Operations.{
  in_world, fresh_session, add_session, create_from, create, forget, remove, connect, connect_at,
  logout, logout_at, setup_event_handler,
}

module _ {p : Wpp} where
  -- What `Create` promises of the registry that it leaves.
  pub record Created (r r' : Registry p) (name : Str) (a : ℕ) : Type 0 where
    pub by_name : get r' name ≡ ok a
    pub by_id : get_by_id r' (r'.heap a).id ≡ ok a
    pub idle : get_status r' a ≡ disconnected
    pub no_code : get_qr r' a ≡ []
    pub others : (n : Str) → n ≢ name → get r' n ≡ get r n
    pub objects : (b : ℕ) → b ≢ a → r'.heap b ≡ r.heap b
    pub again : (key : Str) → create r' name key ≡ (r', already_exists)

  create_from-Created :
      (r : Registry p) (name : Str) (rec : SessionRecord)
      → Created r (create_from r name rec).0 name r.next
  unfolding create_from in_world fresh_session add_session store_at get get_by_id get_status get_qr
      create
  create_from-Created r name rec = record {
    by_name = ground (arith, lookup-insert_self name r.next r.sessions);
    by_id = ground (arith, ==_refl r.next, lookup-insert_self rec.id r.next r.sessions_by_id);
    idle = ground (arith, ==_refl r.next);
    no_code = ground (arith, ==_refl r.next);
    others = λ n h.
        ground
          (arith, lookup-insert n name r.next r.sessions, str_eq_of_ne name n (λ e. h (sym e)));
    objects = λ b h. ground (arith, ==_iff b r.next);
    again = λ key. ground (arith, lookup-insert_self name r.next r.sessions);
  }

  lookup_of_get :
      (r : Registry p) (name : Str) {a : ℕ} → get r name ≡ ok a → lookup name r.sessions ≡ some a
  unfolding get
  lookup_of_get r name h = ground arith

  Created-moved :
      (r : Registry p) (w : p.World) {r' : Registry p} {name : Str} {a : ℕ}
      → Created (in_world r w) r' name a
      → Created r r' name a
  unfolding in_world get
  Created-moved r w c = record {
    by_name = c.by_name;
    by_id = c.by_id;
    idle = c.idle;
    no_code = c.no_code;
    others = c.others;
    objects = c.objects;
    again = c.again;
  }

  next_address :
      (q : Registry p) (name : Str) (rec : SessionRecord) {r' : Registry p} {a : ℕ}
      → create_from q name rec ≡ (r', ok a)
      → q.next ≡ a
  unfolding create_from in_world
  next_address q name rec k = ground arith

  Created-at :
      (q : Registry p) (name : Str) (rec : SessionRecord) {r' : Registry p} {a : ℕ}
      → create_from q name rec ≡ (r', ok a)
      → Created q r' name a
  Created-at q name rec {r'} {a} k =
      let at_next : q.next ≡ a = next_address q name rec k in
      subst (λ s. Created q s name a) (ap (λ x. x.0) k)
        (subst (λ b. Created q (create_from q name rec).0 name b) at_next
          (create_from-Created q name rec))

  -- A `Create` that succeeds leaves one new session, idle and with no QR code, under its name and
  -- its ID alike; every other name leads where it led and every other object is as it was; and a
  -- second `Create` under the name fails and changes nothing.
  pub create-Created :
      (r : Registry p) (name key : Str) {r' : Registry p} {a : ℕ}
      → create r name key ≡ (r', ok a)
      → Created r r' name a
  unfolding create
  create-Created r name key {r'} {a} h = elim (Option-cases (lookup name r.sessions)) [
    | inr (b, e) ↦ cc (rw (e, create) at h)
    | inl e ↦
        let (w, saved) = p.create_row r.world name key in
        elim (Option-cases saved) [
          | inl f ↦ cc (rw (e, create, f) at h)
          | inr (rec, f) ↦
              Created-moved r w (Created-at (in_world r w) name rec (rw (e, create, f) at h))
        ]
  ]

  -- What `Delete` promises.
  pub record Deleted (r r' : Registry p) (name id : Str) (a : ℕ) : Type 0 where
    pub by_name : get r' name ≡ not_found
    pub by_id : get_by_id r' id ≡ not_found
    pub no_code : get_qr r' a ≡ []
    pub others : (n : Str) → n ≢ name → get r' n ≡ get r n
    pub other_ids : (i : Str) → i ≢ id → get_by_id r' i ≡ get_by_id r i
    pub objects : (b : ℕ) → b ≢ a → r'.heap b ≡ r.heap b

  -- `Delete` of a session that the registry has succeeds, whatever the client and the database
  -- answer: its name and its ID lead nowhere, its QR code is gone, and every other name, ID and
  -- object is as it was.
  pub remove-Deleted :
      (r : Registry p) (name : Str) {a : ℕ}
      → get r name ≡ ok a
      → ((remove r name).1 ≡ ok tt) × Deleted r (remove r name).0 name (r.heap a).id a
  unfolding remove forget in_world set_qr store_at get get_by_id get_qr
  remove-Deleted r name {a} h =
      let found = lookup_of_get r name h in
      let id = (r.heap a).id in
      rw (found, remove)
        (
          refl,
          record {
            by_name = ground (arith, lookup-delete_self name r.sessions);
            by_id = ground (arith, lookup-delete_self id r.sessions_by_id);
            no_code = ground (arith, ==_refl a);
            others = λ n k.
                ground
                  (arith, lookup-delete n name r.sessions, str_eq_of_ne name n (λ e. k (sym e)));
            other_ids = λ i k.
                ground
                  (arith, lookup-delete i id r.sessions_by_id, str_eq_of_ne id i (λ e. k (sym e)));
            objects = λ b k. ground (arith, ==_iff b a);
          },
        )

  -- `Logout` of a session that the registry has succeeds and leaves it disconnected, without JID,
  -- phone and QR code; no map changes.
  pub logout_clears :
      (r : Registry p) (name : Str) {a : ℕ}
      → get r name ≡ ok a
      → let r' = (logout r name).0 in
        ((logout r name).1 ≡ ok tt)
        × (get_status r' a ≡ disconnected)
        × (get_qr r' a ≡ [])
        × ((r'.heap a).device_jid ≡ [])
        × ((r'.heap a).phone ≡ [])
        × (r'.sessions ≡ r.sessions)
        × (r'.sessions_by_id ≡ r.sessions_by_id)
  unfolding logout logout_at in_world store_at get get_status get_qr
  logout_clears r name {a} h = ground (arith, lookup_of_get r name h, ==_refl a)

  -- What `Connect` leaves, for a client that is connected or not.
  abbrev pub ConnectLeaves : Bool → Registry p → Registry p → ℕ → Outcome (ℕ × Bool) → Type 0
  ConnectLeaves true r r' a out = (r' ≡ r) × (out ≡ ok (a, false))
  ConnectLeaves false r r' a (ok (b, started)) = (b ≡ a) × (get_status r' a ≡ connecting)
  ConnectLeaves false r r' a connect_error = get_status r' a ≡ disconnected
  ConnectLeaves false r r' a panicked = get_status r' a ≡ connecting
  ConnectLeaves false r r' a _ = ⊥

  -- `Connect` of a session that the registry has leaves the registry as it is, succeeds and starts
  -- no pairing if the client is connected. If it is not, the session is connecting after a success,
  -- disconnected after a failure to connect and connecting after the panic of a client without a
  -- store, and there is no other error.
  pub connect-ConnectLeaves :
      (r : Registry p) (name : Str) {a : ℕ}
      → get r name ≡ ok a
      → ConnectLeaves
          (p.is_connected r.world (r.heap a).client)
          r
          (connect r name).0
          a
          (connect r name).1
  unfolding connect connect_at in_world setup_event_handler set_status store_at get get_status
  connect-ConnectLeaves r name {a} h = ground (arith, lookup_of_get r name h, ==_refl a)
