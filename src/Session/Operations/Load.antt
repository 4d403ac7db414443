-- ===== src/Session/Operations/Load.antt =====
-- `LoadFromDatabase` of internal/service/session.go: a session for each row of the table.
use onwapp.Base.{
  if◌then◌else◌, Option-cases, Str, is_empty, before, Dict, lookup, insert, ℕ, suc, ◌≡◌, refl, sym,
  ap, subst, ◌∙◌, inl, inr, Bool, Option, none, some, List, [], ◌∷◌, ◌++◌, map, append-nil,
  append_assoc, arith,
}
use mathlib.Core.List.{Perm}
use mathlib.Core.List.Perm
use onwapp.Session.Wpp.{Wpp, SessionRecord}
use onwapp.Session.Registry.{Registry, Outcome, ok, database_error, list, store_at}
use onwapp.Session.Operations.{in_world, fresh_session, add_session, has_id}
use onwapp.Session.Operations.Frames.{via_world, Touches-refl}
use onwapp.Session.Operations.Maps.{WellFormed, Touches-WellFormed, add_session-WellFormed}

module _ (p : Wpp) where
  abbrev new_device : p.World → p.World × Option p.Device
  new_device w = let (w1, d) = p.new_device w in (w1, some d)

  -- The device of a row: the one that its JID names, or a new one.
  choose_device : p.World → SessionRecord → p.World × Option p.Device
  choose_device w rec =
      if is_empty rec.device_jid then new_device w else elim (p.parse_jid rec.device_jid) [
        | none ↦ new_device w
        | some jid ↦ elim (p.get_device w jid) [ none ↦ new_device w | some d ↦ (w, d) ]
      ]

-- The rows have distinct names and IDs, which the maps do not have yet; `n` is the first free address.
abbrev pub AreNew : ℕ → List SessionRecord → Dict ℕ → Dict ℕ → Type 0
AreNew n [] names ids = Unit
AreNew n (rec ∷ recs) names ids =
    (lookup rec.session names ≡ none)
    × (lookup rec.id ids ≡ none)
    × AreNew (suc n) recs (insert rec.session n names) (insert rec.id n ids)

keys-insert :
    (k : Str) (v : ℕ) (m : Dict ℕ)
    → lookup k m ≡ none
    → map (λ e. e.0) (insert k v m) ≡ map (λ e. e.0) m ++ k ∷ []
unfolding lookup insert
keys-insert k v [] h = refl
keys-insert k v ((j, w) ∷ m) h = ground (arith, keys-insert k v m)

module _ {p : Wpp} where
  -- One round of the loop; the flag says that the session has credentials, to be reconnected.
  load_row : Registry p → SessionRecord → Registry p × Bool
  unfolding choose_device in_world fresh_session add_session has_id
  load_row r rec =
      let (w1, device) = choose_device p r.world rec in
      let (w2, client) = p.new_client w1 device in
      (
        add_session (in_world r w2) rec.session (fresh_session p rec client device),
        has_id p w2 device,
      )

  -- The loop, with the addresses to reconnect, in order.
  load_rows : Registry p → List SessionRecord → Registry p × List ℕ
  unfolding load_row
  load_rows r [] = (r, [])
  load_rows r (rec ∷ recs) =
      let (r1, valid) = load_row r rec in
      let (r2, rest) = load_rows r1 recs in (r2, if valid then r.next ∷ rest else rest)

  -- `LoadFromDatabase`, without the goroutines that it starts: `reconnect_session` at each address.
  pub load_from_database : Registry p → Registry p × Outcome (List ℕ)
  unfolding load_rows
  load_from_database r = elim (p.get_all r.world) [
    | none ↦ (r, database_error)
    | some recs ↦ let (r1, todo) = load_rows r recs in (r1, ok todo)
  ]

  load_row-WellFormed :
      (r : Registry p) (rec : SessionRecord)
      → lookup rec.session r.sessions ≡ none
      → lookup rec.id r.sessions_by_id ≡ none
      → WellFormed r
      → WellFormed (load_row r rec).0
  unfolding load_row in_world fresh_session
  load_row-WellFormed r rec fresh_name fresh_id v =
      let (w1, device) = choose_device p r.world rec in
      let (w2, client) = p.new_client w1 device in
      add_session-WellFormed (in_world r w2) (fresh_session p rec client device) fresh_name fresh_id
        (Touches-WellFormed (via_world (Touches-refl 0 r) w2) v)

  load_rows-WellFormed :
      (recs : List SessionRecord) (r : Registry p)
      → AreNew r.next recs r.sessions r.sessions_by_id
      → WellFormed r
      → WellFormed (load_rows r recs).0
  unfolding load_rows load_row in_world fresh_session add_session store_at
  load_rows-WellFormed [] r h v = v
  load_rows-WellFormed (rec ∷ recs) r h v =
      load_rows-WellFormed recs (load_row r rec).0 h.2 (load_row-WellFormed r rec h.0 h.1 v)

  -- `LoadFromDatabase` of rows with new names and IDs keeps the maps in step.
  pub load_from_database-WellFormed :
      (r : Registry p)
      → ((recs : List SessionRecord)
          → p.get_all r.world ≡ some recs
          → AreNew r.next recs r.sessions r.sessions_by_id)
      → WellFormed r
      → WellFormed (load_from_database r).0
  unfolding load_from_database
  load_from_database-WellFormed r h v = elim (Option-cases (p.get_all r.world)) [
    | inl e ↦ rw (e, load_from_database) v
    | inr (recs, e) ↦ rw (e, load_from_database) (load_rows-WellFormed recs r (h recs e) v)
  ]

  names-load_rows :
      (recs : List SessionRecord) (r : Registry p)
      → AreNew r.next recs r.sessions r.sessions_by_id
      → map (λ e. e.0) (load_rows r recs).0.sessions
        ≡ map (λ e. e.0) r.sessions ++ map (λ rec. rec.session) recs
  unfolding load_rows load_row in_world fresh_session add_session store_at
  names-load_rows [] r h = sym (append-nil _)
  names-load_rows (rec ∷ recs) r h =
      names-load_rows recs (load_row r rec).0 h.2
      ∙ ap (λ t. t ++ map (λ rec. rec.session) recs) (keys-insert rec.session r.next r.sessions h.0)
      ∙ append_assoc (map (λ e. e.0) r.sessions) (rec.session ∷ []) (map (λ rec. rec.session) recs)

  -- If the table can be read, the names and IDs of its rows are distinct and new, and the maps
  -- are in step, loading the rows keeps the maps in step, and the list of sessions has afterwards
  -- exactly the names that it had and those of the rows, each as often, in whatever orders Go
  -- ranges over the map before and after.
  pub load_from_database-list :
      (before after : List Str → List Str) (r : Registry p) (recs : List SessionRecord)
      → ((names : List Str) → Perm (before names) names)
      → ((names : List Str) → Perm (after names) names)
      → p.get_all r.world ≡ some recs
      → AreNew r.next recs r.sessions r.sessions_by_id
      → WellFormed r
      → WellFormed (load_from_database r).0
        × Perm
            (list after (load_from_database r).0)
            (list before r ++ map (λ rec. rec.session) recs)
  unfolding load_from_database list
  load_from_database-list before after r recs any_before any_after e h v =
      let rows = map (λ rec. rec.session) recs in
      rw (e, load_from_database)
        (
          load_rows-WellFormed recs r h v,
          Perm.trans (any_after _) (
              subst (λ (names : List Str). Perm names (before (map (λ e. e.0) r.sessions) ++ rows))
                (sym (names-load_rows recs r h))
                (Perm.append_right rows (Perm.symm (any_before (map (λ e. e.0) r.sessions))))),
        )
