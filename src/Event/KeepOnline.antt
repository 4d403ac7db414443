-- ===== src/Event/KeepOnline.antt =====
-- startKeepOnline of internal/service/event/connection.go: the loop over the ticks of its timer.
use onwapp.Base.{
  if◌then◌else◌, Bool-cases, and-true, length, all, ℕ, suc, ◌≡◌, refl, ◌↔◌, inl, inr, Bool, true,
  false, ◌&&◌, Option, none, some, List, [], ◌∷◌, ◌++◌, arith,
}
use onwapp.Session.Registry.{SessionStatus, disconnected, connecting, connected}

-- What the loop finds at a tick: the status of the session, and what the settings provider answers
-- if there is one.
pub record Tick : Type 0 where
  pub status : SessionStatus
  pub settings : Option (Option (Bool × Bool))

-- `session.GetStatus() == model.StatusConnected`
unfoldable pub is_connected : SessionStatus → Bool
is_connected disconnected = false
is_connected connecting = false
is_connected connected = true

-- Whether the loop goes on at a tick.
unfoldable pub goes_on : Tick → Bool
unfolding is_connected
goes_on t = is_connected t.status && elim t.settings [
  | none ↦ true
  | some none ↦ false
  | some (some (always_online, auto_reject)) ↦ always_online
]

-- The presences that the loop sends, and whether it still runs.
unfoldable pub keep_online_loop : List Tick → ℕ × Bool
unfolding goes_on
keep_online_loop [] = (0, true)
keep_online_loop (t ∷ ts) =
    let rest = keep_online_loop ts in if goes_on t then (suc rest.0, rest.1) else (0, false)

-- `startKeepOnline`: one presence before the loop.
unfoldable pub start_keep_online : List Tick → ℕ × Bool
unfolding keep_online_loop
start_keep_online ts = (suc (keep_online_loop ts).0, (keep_online_loop ts).1)

keep_online_loop-append :
    (ts us : List Tick) (t : Tick)
    → all goes_on ts ≡ true
    → goes_on t ≡ false
    → keep_online_loop (ts ++ (t ∷ us)) ≡ (length ts, false)
unfolding keep_online_loop
keep_online_loop-append [] us t h stop = ground arith
keep_online_loop-append (s ∷ ts) us t h stop =
    ground
      (arith, keep_online_loop-append ts us t ((and-true (goes_on s) (all goes_on ts) h).1) stop)

-- A tick at which the loop goes on: the session is connected, and there is no settings provider or
-- it answers that the session is always online.
abbrev pub WantsOnline : Option (Option (Bool × Bool)) → Type 0
WantsOnline none = Unit
WantsOnline (some none) = ⊥
WantsOnline (some (some (always_online, auto_reject))) = always_online ≡ true

abbrev pub StaysOnline : Tick → Type 0
StaysOnline t = (t.status ≡ connected) × WantsOnline t.settings

abbrev pub AllStayOnline : List Tick → Type 0
AllStayOnline [] = Unit
AllStayOnline (t ∷ ts) = StaysOnline t × AllStayOnline ts

wants_iff :
    (o : Option (Option (Bool × Bool)))
    → (elim o as (λ x. Bool) [
      | none ↦ true
      | some none ↦ false
      | some (some (always_online, auto_reject)) ↦ always_online
    ]
        ≡ true)
      ↔ WantsOnline o
wants_iff none = ((λ h. tt), (λ h. refl))
wants_iff (some none) = ((λ h. cc h), (λ h. absurd h))
wants_iff (some (some (always_online, auto_reject))) = ((λ h. h), (λ h. h))

is_connected_iff : (st : SessionStatus) → (is_connected st ≡ true) ↔ (st ≡ connected)
unfolding is_connected
is_connected_iff disconnected = ground arith
is_connected_iff connecting = ground arith
is_connected_iff connected = ground arith

goes_on_iff : (t : Tick) → (goes_on t ≡ true) ↔ StaysOnline t
unfolding goes_on
goes_on_iff t = (
  λ h.
      let (a, b) = and-true (is_connected t.status) _ h in
      ((is_connected_iff t.status).0 a, (wants_iff t.settings).0 b),
  λ (a, b). rw ((is_connected_iff t.status).1 a) ((wants_iff t.settings).1 b),
)

all_go_on : (ts : List Tick) → AllStayOnline ts → all goes_on ts ≡ true
all_go_on [] h = refl
all_go_on (t ∷ ts) (h, hs) = rw ((goes_on_iff t).1 h, all_go_on ts hs) refl

stops : (t : Tick) → ¬ StaysOnline t → goes_on t ≡ false
stops t h = elim (Bool-cases (goes_on t)) [ inl e ↦ absurd (h ((goes_on_iff t).0 e)) | inr e ↦ e ]

-- The loop ends at the first tick at which the session is not connected, the settings cannot be
-- read, or they do not ask for it to be always online: it has sent one presence at the start and one
-- for each tick before, and sends none after, whatever follows.
pub start_keep_online_ends :
    (ts us : List Tick) (t : Tick)
    → AllStayOnline ts
    → ¬ StaysOnline t
    → start_keep_online (ts ++ (t ∷ us)) ≡ (suc (length ts), false)
unfolding start_keep_online
start_keep_online_ends ts us t h stop =
    rw (keep_online_loop-append ts us t (all_go_on ts h) (stops t stop)) refl
