-- ===== src/Session/Operations/Examples.antt =====
-- The theorems on internal/service/session.go at a small outside world: a counter that gives new
-- clients, devices and rows, and a flag for the one connection.
use onwapp.Base.{
  ◌==◌, if◌then◌else◌, Str, str_eq, lookup, insert, ℕ, suc, ◌≡◌, refl, sym, ap, Bool, true, false,
  none, some, [], ◌∷◌,
}
use mathlib.Core.List.{Perm, reverse, reverse_perm}
use mathlib.Core.List.Perm
use onwapp.Session.Wpp.{Wpp, SessionRecord}
use onwapp.Session.Registry.{
  Registry, Session, ok, connecting, connected, disconnected, get, get_qr, get_status, list,
}
use onwapp.Session.Operations.{create, remove, connect, logout}
use onwapp.Session.Operations.Qr.{code, success, start_client_with_qr}
use onwapp.Session.Operations.Qr.Laws.{start_client_with_qr-Ends}
use onwapp.Session.Operations.Maps.{WellFormed, Saves}
use onwapp.Session.Operations.Invariant.{here, next, creates, removes, Reach-WellFormed}
use onwapp.Session.Operations.Effects.{
  Created, create-Created, Deleted, remove-Deleted, logout_clears, connect-ConnectLeaves,
  ConnectLeaves,
}
use onwapp.Session.Operations.Load.{load_from_database, load_from_database-list}

abbrev row_of : Str → SessionRecord
row_of name = record { id = 1 ∷ name; session = name; device_jid = []; phone = []; api_key = [] }

abbrev toy : Wpp
toy = record {
  World = ℕ × Bool;
  Client = ℕ;
  Device = ℕ;
  Jid = Str;
  parse_jid = λ s. some s;
  jid_string = λ j. j;
  jid_user = λ j. j;
  new_device = λ (n, b). ((suc n, b), n);
  get_device = λ w j. some (some 0);
  delete_device = λ w d. (w, true);
  device_id = λ w d. if d == 0 then some (b'5' ∷ []) else none;
  new_client = λ (n, b) d. ((suc n, b), n);
  store = λ w c. some 1;
  set_store = λ w c d. w;
  is_connected = λ (n, b) c. b;
  connect = λ (n, b) c. ((n, true), true);
  disconnect = λ (n, b) c. (n, false);
  logout = λ (n, b) c. ((n, false), true);
  add_event_handler = λ w c. w;
  qr_channel = λ w c. (w, true);
  get_all = λ w. some (row_of (b'a' ∷ []) ∷ row_of (b'b' ∷ []) ∷ []);
  create_row = λ (n, b) name key. ((suc n, b), some (row_of name));
  delete_row = λ w name. (w, true);
  update_status = λ w name status. (w, true);
  update_jid = λ w name jid phone. (w, true);
}

abbrev blank : Session ℕ ℕ
blank = record {
  id = [];
  session = [];
  device_jid = [];
  phone = [];
  api_key = [];
  client = 0;
  device = none;
  status = disconnected;
  qr_code = [];
  event_handler_set = false;
}

abbrev nobody : Registry toy
nobody = record {
  world = (1, false);
  heap = λ a. blank;
  next = 0;
  sessions = [];
  sessions_by_id = [];
}

abbrev alice : Str
alice = b'a' ∷ []

abbrev one : Registry toy
one = record {
  world = (4, false);
  heap = λ a.
      if a == 0
      then record blank {
        id = 1 ∷ alice;
        session = alice;
        qr_code = b'q' ∷ [];
        status = connecting;
      }
      else blank;
  next = 1;
  sessions = (alice, 0) ∷ [];
  sessions_by_id = (1 ∷ alice, 0) ∷ [];
}

nobody-WellFormed : WellFormed nobody
unfolding lookup
nobody-WellFormed = record { by_name = λ n a h. cc h; by_id = λ i a h. cc h }

nobody-Saves : Saves nobody alice []
unfolding lookup
nobody-Saves w rec h =
    let same : row_of alice ≡ rec = cc h in (sym (ap (λ r. r.session) same), refl)

-- The registry after a `Create` and a `Delete` of "a".
Reach-WellFormed_example : WellFormed (remove (create nobody alice []).0 alice).0
Reach-WellFormed_example = Reach-WellFormed nobody-WellFormed (
    next (next here (creates nobody alice [] nobody-Saves))
      (removes (create nobody alice []).0 alice))

create-Created_example : Created nobody (create nobody alice []).0 alice 0
unfolding create lookup
create-Created_example = create-Created nobody alice [] refl

remove-Deleted_example :
    ((remove one alice).1 ≡ ok tt) × Deleted one (remove one alice).0 alice (1 ∷ alice) 0
unfolding get lookup str_eq
remove-Deleted_example = remove-Deleted one alice {a = 0} refl

logout_clears_example : get_status (logout one alice).0 0 ≡ disconnected
unfolding get lookup str_eq
logout_clears_example = (logout_clears one alice {a = 0} refl).1

connect-ConnectLeaves_example :
    ConnectLeaves false one (connect one alice).0 0 (connect one alice).1
unfolding get lookup str_eq
connect-ConnectLeaves_example = connect-ConnectLeaves one alice {a = 0} refl

-- Two codes, then a pairing.
start_client_with_qr-Ends_example :
    let r = start_client_with_qr one 0 (
      ((5, false), code (b'x' ∷ []))
      ∷ ((6, false), code (b'y' ∷ []))
      ∷ ((7, true), success)
      ∷ []) in
    (get_status r 0 ≡ connected) × (get_qr r 0 ≡ [])
start_client_with_qr-Ends_example =
    start_client_with_qr-Ends one 0
      (((5, false), code (b'x' ∷ [])) ∷ ((6, false), code (b'y' ∷ [])) ∷ ((7, true), success) ∷ [])

load_from_database-list_example :
    WellFormed (load_from_database nobody).0
    × Perm (list reverse (load_from_database nobody).0) ((b'a' ∷ []) ∷ (b'b' ∷ []) ∷ [])
unfolding list lookup insert str_eq
load_from_database-list_example =
    load_from_database-list (λ names. names) reverse nobody
      (row_of (b'a' ∷ []) ∷ row_of (b'b' ∷ []) ∷ []) Perm.refl reverse_perm refl
      (refl, refl, (refl, refl, tt)) nobody-WellFormed
