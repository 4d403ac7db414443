-- ===== src/Session/Registry.antt =====
-- The session object of internal/model/session.go, and the maps of `SessionService` over a store of
-- such objects: both maps hold pointers to one object, so the store has an address for each.
use onwapp.Base.{◌==◌, if◌then◌else◌, Str, Dict, lookup, ℕ, Bool, Option, none, some, List, map}
use onwapp.Session.Wpp.{Wpp}

pub data SessionStatus : Type 0 where
  disconnected connecting connected : SessionStatus

-- `sync.RWMutex` has no counterpart: each operation is one step.
pub record Session (Client Device : Type 0) : Type 0 where
  pub id : Str
  pub session : Str
  pub device_jid : Str
  pub phone : Str
  pub api_key : Str
  pub client : Client
  pub device : Option Device
  pub status : SessionStatus
  pub qr_code : Str
  pub event_handler_set : Bool

-- What a service method returns beside the state.
pub data Outcome {ℓ} (A : Type ℓ) : Type ℓ where
  ok : A → Outcome A
  already_exists : Outcome A
  not_found : Outcome A
  database_error : Outcome A
  connect_error : Outcome A
  panicked : Outcome A

module _ (p : Wpp) where
  -- `next` is the first free address.
  pub record Registry : Type 0 where
    pub world : p.World
    pub heap : ℕ → Session p.Client p.Device
    pub next : ℕ
    pub sessions : Dict ℕ
    pub sessions_by_id : Dict ℕ

module _ {p : Wpp} where
  -- Writes the session at an address.
  unfoldable pub store_at : Registry p → ℕ → Session p.Client p.Device → Registry p
  store_at r a s = record r { heap = λ b. if b == a then s else r.heap b }

  -- `SetStatus`
  unfoldable pub set_status : Registry p → ℕ → SessionStatus → Registry p
  unfolding store_at
  set_status r a st = store_at r a (record (r.heap a) { status = st })

  -- `SetQR`
  unfoldable pub set_qr : Registry p → ℕ → Str → Registry p
  unfolding store_at
  set_qr r a qr = store_at r a (record (r.heap a) { qr_code = qr })

  -- `GetStatus`
  unfoldable pub get_status : Registry p → ℕ → SessionStatus
  get_status r a = (r.heap a).status

  -- `GetQR`
  unfoldable pub get_qr : Registry p → ℕ → Str
  get_qr r a = (r.heap a).qr_code

  -- `Get`: the address of the session with this name.
  unfoldable pub get : Registry p → Str → Outcome ℕ
  get r name = elim (lookup name r.sessions) [ none ↦ not_found | some a ↦ ok a ]

  -- `GetByID`
  unfoldable pub get_by_id : Registry p → Str → Outcome ℕ
  get_by_id r i = elim (lookup i r.sessions_by_id) [ none ↦ not_found | some a ↦ ok a ]

  -- `List`: Go ranges over a map in any order, which is an argument.
  unfoldable pub list : (List Str → List Str) → Registry p → List Str
  list order r = order (map (λ e. e.0) r.sessions)
