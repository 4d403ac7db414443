-- ===== src/Delivery/Webhook/Sending.antt =====
-- The retries of internal/integrations/webhook/service.go.
use onwapp.Base.{
  Bool-cases, Str, lit, str_eq, one_of, str_eq_iff, ℕ, zero, suc, ◌+◌, ◌≤◌, ◌<◌, ◌≡◌, refl, sym,
  subst, ◌∙◌, ◌↔◌, ◌⊎◌, inl, inr, true, false, List, [], ◌∷◌, arith, ℕ_discrete,
}
use onwapp.Delivery.Webhook.{
  Webhook, matches, should_send_event, Attempt, unmade, unanswered, answered, delivered, exhausted,
  Action, sleep, post, max_retries, pause, is_retried, ending, attempts, send_webhook,
}

str_eq_sym : (s t : Str) → str_eq s t ≡ str_eq t s
str_eq_sym s t = ground (arith, str_eq_iff s t, str_eq_iff t s)

matches_iff :
    (events : List Str) (event : Str)
    → (matches events event ≡ true) ↔ (
        (one_of event events ≡ true)
        ⊎ (one_of (lit "all") events ≡ true)
        ⊎ (one_of (lit "*") events ≡ true))
unfolding matches one_of
matches_iff [] event = ground arith
matches_iff (e ∷ es) event = ground (
  arith,
  matches_iff es event,
  str_eq_sym e event,
  str_eq_sym e (lit "all"),
  str_eq_sym e (lit "*"),
)

-- A webhook without a list gets every event; another gets those it lists, and all if it lists
-- "all" or "*".
pub should_send_event_iff :
    (events : List Str) (event : Str)
    → (should_send_event events event ≡ true) ↔ (
        (events ≡ [])
        ⊎ (one_of event events ≡ true)
        ⊎ (one_of (lit "all") events ≡ true)
        ⊎ (one_of (lit "*") events ≡ true))
unfolding should_send_event
should_send_event_iff [] event = ((λ h. inl refl), λ h. refl)
should_send_event_iff (e ∷ es) event =
    ((λ h. inr ((matches_iff (e ∷ es) event).0 h)), λ h. ground (arith, matches_iff (e ∷ es) event))

-- The number of requests.
abbrev pub posts : List Action → ℕ
posts [] = 0
posts (post url ∷ acts) = 1 + posts acts
posts (sleep n ∷ acts) = posts acts

-- The seconds slept.
abbrev pub slept : List Action → ℕ
slept [] = 0
slept (post url ∷ acts) = slept acts
slept (sleep n ∷ acts) = n + slept acts

-- An answer with a status of success.
abbrev pub IsSuccess : Attempt → Type 0
IsSuccess a = (status : ℕ) × (a ≡ answered status) × (200 ≤ status) × (status < 300)

ending-IsSuccess : (a : Attempt) → is_retried a ≡ false → (ending a ≡ delivered) ↔ IsSuccess a
ending-IsSuccess unmade h = ((λ e. cc), λ (status, e, lo, hi). cc)
ending-IsSuccess unanswered h = cc
ending-IsSuccess (answered status) h =
    (λ e. (status, refl, ground arith, ground arith), λ (s, e, lo, hi). ground arith)

IsSuccess-is_retried : (a : Attempt) → IsSuccess a → is_retried a ≡ false
IsSuccess-is_retried unmade s = refl
IsSuccess-is_retried unanswered (status, e, lo, hi) = cc
IsSuccess-is_retried (answered status) (s, e, lo, hi) = ground arith

-- The attempts from `from` on before `n` were all to repeat.
abbrev pub AreRetried : (ℕ → Attempt) → ℕ → ℕ → Type 0
AreRetried net from n = (k : ℕ) → from ≤ k → k < n → is_retried (net k) ≡ true

attempts_delivered :
    (net : ℕ → Attempt) (url : Str) (left from : ℕ)
    → ((attempts net url left from).1 ≡ delivered)
      ↔ ((n : ℕ) × (from ≤ n) × (n < from + left) × IsSuccess (net n) × AreRetried net from n)
unfolding attempts
attempts_delivered net url zero from = ((λ h. cc), λ (n, lo, hi, s, r). ground arith)
attempts_delivered net url (suc left) from =
    let rest = attempts_delivered net url left (from + 1) in
    elim (Bool-cases (is_retried (net from))) [
      | inl again ↦
          rw (again, attempts)
            (
              λ h.
                  let (n, lo, hi, s, r) = rest.0 h in
                  (
                    n,
                    omega arith,
                    omega arith,
                    s,
                    λ k a b. elim (ℕ_discrete from k) [
                      | yes e ↦ subst (λ i. is_retried (net i) ≡ true) e again
                      | no ne ↦ r k (omega arith) b
                    ],
                  ),
              λ (n, lo, hi, s, r). elim (ℕ_discrete from n) [
                | yes e ↦ cc (
                    sym again
                    ∙ IsSuccess-is_retried (net from) (subst (λ i. IsSuccess (net i)) (sym e) s))
                | no ne ↦ rest.1 (n, omega arith, omega arith, s, λ k a b. r k (omega arith) b)
              ],
            )
      | inr last ↦
          rw (last, attempts)
            (
              λ h. (
                from,
                omega arith,
                omega arith,
                (ending-IsSuccess (net from) last).0 h,
                λ k a b. ground arith,
              ),
              λ (n, lo, hi, s, r). elim (ℕ_discrete from n) [
                | yes e ↦
                    (ending-IsSuccess (net from) last).1 (subst (λ i. IsSuccess (net i)) (sym e) s)
                | no ne ↦ cc (sym last ∙ r from (omega arith) (omega arith))
              ],
            )
    ]

-- What is tried again: a request without an answer, and a status from 500 on.
abbrev pub IsRepeated : Attempt → Type 0
IsRepeated unmade = ⊥
IsRepeated unanswered = Unit
IsRepeated (answered status) = 500 ≤ status

is_retried_iff : (a : Attempt) → (is_retried a ≡ true) ↔ IsRepeated a
is_retried_iff unmade = ((λ h. cc h), (λ h. absurd h))
is_retried_iff unanswered = ((λ h. tt), (λ h. refl))
is_retried_iff (answered status) = ground arith

-- The attempts before `n` were all to repeat.
abbrev pub AreRepeated : (ℕ → Attempt) → ℕ → Type 0
AreRepeated net n = (k : ℕ) → k < n → IsRepeated (net k)

send_webhook_ends :
    (net : ℕ → Attempt) (wh : Webhook)
    → (posts (send_webhook net wh).0 ≤ max_retries)
      × (slept (send_webhook net wh).0 ≤ 3)
      × (((send_webhook net wh).1 ≡ exhausted) ↔ (
          (is_retried (net 0) ≡ true) × (is_retried (net 1) ≡ true) × (is_retried (net 2) ≡ true)))
unfolding send_webhook attempts pause
send_webhook_ends net wh = (ground arith, ground arith, ground arith)

delivered_iff :
    (net : ℕ → Attempt) (wh : Webhook)
    → ((send_webhook net wh).1 ≡ delivered)
      ↔ ((n : ℕ) × (n < max_retries) × IsSuccess (net n) × AreRepeated net n)
unfolding send_webhook
delivered_iff net wh =
    let all_three = attempts_delivered net wh.url max_retries 0 in
    (
      λ h.
          let (n, lo, hi, s, r) = all_three.0 h in
          (n, omega arith, s, λ k b. (is_retried_iff (net k)).0 (r k (omega arith) b)),
      λ (n, hi, s, r).
          all_three.1 (n, omega arith, omega arith, s, λ k a b. (is_retried_iff (net k)).1 (r k b)),
    )

-- `sendWebhook` makes at most three requests and sleeps at most three seconds between them. It gives
-- up exactly if each of its three attempts got no answer or a status from 500 on. It ends with a
-- delivery exactly if one of the three attempts got a status from 200 to 299 and each before it got
-- no answer or a status from 500 on.
pub send_webhook_lem :
    (net : ℕ → Attempt) (wh : Webhook)
    → (posts (send_webhook net wh).0 ≤ max_retries)
      × (slept (send_webhook net wh).0 ≤ 3)
      × (((send_webhook net wh).1 ≡ exhausted)
          ↔ (IsRepeated (net 0) × IsRepeated (net 1) × IsRepeated (net 2)))
      × (((send_webhook net wh).1 ≡ delivered)
          ↔ ((n : ℕ) × (n < max_retries) × IsSuccess (net n) × AreRepeated net n))
send_webhook_lem net wh =
    let (few, short, gives_up) = send_webhook_ends net wh in
    let again = λ (k : ℕ). is_retried_iff (net k) in
    (
      few,
      short,
      (
        (λ h. let (a, b, c) = gives_up.0 h in ((again 0).0 a, (again 1).0 b, (again 2).0 c)),
        λ (a, b, c). gives_up.1 ((again 0).1 a, (again 1).1 b, (again 2).1 c),
      ),
      delivered_iff net wh,
    )
