-- ===== src/Event/History/PushNames.antt =====
-- handlePushNameSync of internal/service/event/connection.go.
use onwapp.Base.{
  if◌then◌else◌, Str, is_empty, lit, has_suffix, trim_suffix, before, Dict, lookup, insert, Bool,
  true, false, ◌||◌, Option, none, some, List, [], ◌∷◌, ◌++◌, map,
}
use onwapp.Event.Calls.{Call, names_jid, names_lid, Env}

-- The names of `handlePushNameSync`, the phone JIDs (false) or the LIDs (true), a later name of a
-- JID in place of an earlier one.
unfoldable pub names_of : Bool → List (Str × Str) → Dict Str → Dict Str
unfolding has_suffix lit insert
names_of lid [] names = names
names_of lid ((jid, name) ∷ pairs) names =
    let kept = names_of lid pairs names in
    let entered = names_of lid pairs (insert jid name names) in
    if is_empty jid || is_empty name
    then kept
    else if has_suffix jid (lit "@lid")
    then (if lid then entered else kept)
    else (if lid then kept else entered)

-- The number of a LID: the part before its suffix and a device.
unfoldable pub lid_number : Str → Str
unfolding trim_suffix before lit
lid_number jid =
    let num = trim_suffix jid (lit "@lid") in elim (before b':' num) [ [] ↦ num | c ∷ cs ↦ c ∷ cs ]

-- The names for the LIDs that belong to phone JIDs.
unfoldable pub lid_names : Dict Str → List (Str × Option Str) → List Call
unfolding lookup
lid_names names [] = []
lid_names names ((phone, lid) ∷ pairs) =
    let rest = lid_names names pairs in
    elim lid [
      | none ↦ rest
      | some user ↦ elim (lookup phone names) [
        | none ↦ rest
        | some name ↦ if is_empty name then rest else names_lid user name ∷ rest
      ]
    ]

-- The calls for the LIDs of whatsmeow's store.
unfoldable pub store_lids : Env → Dict Str → List Call
unfolding lid_names
store_lids env names = elim env.lids [
  | none ↦ []
  | some look ↦ lid_names names (look (map (λ e. e.0) names))
]

-- `handlePushNameSync`
unfoldable pub handle_push_name_sync : Env → List (Str × Str) → List Call
unfolding names_of lid_number store_lids
handle_push_name_sync env pairs =
    map (λ e. names_jid e.0 e.1) (names_of false pairs [])
    ++ map (λ e. names_lid (lid_number e.0) e.1) (names_of true pairs [])
    ++ store_lids env (names_of false pairs [])
