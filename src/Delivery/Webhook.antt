-- ===== src/Delivery/Webhook.antt =====
-- The webhooks of internal/integrations/webhook/service.go. The request, the clock and JSON are the
-- environment's.
pub mod Sending
pub mod Payload
use onwapp.Base.{
  ltb, leb, if◌then◌else◌, all, Str, lit, str_eq, ℕ, zero, suc, ◌+◌, ◌*◌, ◌^◌, Bool, true, false,
  ◌&&◌, ◌||◌, List, [], ◌∷◌, ◌++◌,
}

-- `Webhook`; the times are those of the database alone.
pub record Webhook : Type 0 where
  pub id : Str
  pub session_id : Str
  pub url : Str
  pub events : List Str
  pub enabled : Bool
  pub secret : Str

-- `shouldSendEvent`
unfoldable pub matches : List Str → Str → Bool
unfolding str_eq lit
matches [] event = false
matches (e ∷ es) event =
    str_eq e event || str_eq e (lit "all") || str_eq e (lit "*") || matches es event

unfoldable pub should_send_event : List Str → Str → Bool
unfolding matches
should_send_event [] event = true
should_send_event (e ∷ es) event = matches (e ∷ es) event

-- What one attempt of `sendWebhook` meets: no request could be made, no answer came, or a status.
pub data Attempt : Type 0 where
  unmade : Attempt
  unanswered : Attempt
  answered : ℕ → Attempt

-- How `sendWebhook` ends.
pub data Delivery : Type 0 where
  delivered refused aborted exhausted : Delivery

-- What `sendWebhook` does, in order.
pub data Action : Type 0 where
  sleep : ℕ → Action
  post : Str → Action

abbrev pub max_retries : ℕ
max_retries = 3

-- The pause before an attempt, in seconds: `baseDelay * (1 << (attempt - 1))`.
unfoldable pub pause : ℕ → List Action
pause zero = []
pause (suc n) = sleep (2 ^ n) ∷ []

-- Whether the loop goes on after an attempt.
abbrev pub is_retried : Attempt → Bool
is_retried unmade = false
is_retried unanswered = true
is_retried (answered status) = leb 500 status

-- How an attempt after which the loop does not go on ends it.
abbrev pub ending : Attempt → Delivery
ending unmade = aborted
ending unanswered = exhausted
ending (answered status) = if leb 200 status && ltb status 300 then delivered else refused

-- The request that an attempt makes.
abbrev pub request : Str → Attempt → List Action
request url unmade = []
request url unanswered = post url ∷ []
request url (answered status) = post url ∷ []

-- The loop of `sendWebhook` with `left` attempts to go, from `attempt` on; `net` says what each meets.
unfoldable pub attempts : (ℕ → Attempt) → Str → ℕ → ℕ → List Action × Delivery
unfolding pause
attempts net url zero attempt = ([], exhausted)
attempts net url (suc left) attempt =
    let rest = attempts net url left (attempt + 1) in
    let now = pause attempt ++ request url (net attempt) in
    if is_retried (net attempt) then (now ++ rest.0, rest.1) else (now, ending (net attempt))

-- `sendWebhook`
unfoldable pub send_webhook : (ℕ → Attempt) → Webhook → List Action × Delivery
unfolding attempts
send_webhook net wh = attempts net wh.url max_retries 0
