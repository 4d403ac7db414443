-- ===== src/Http/RateLimit/Keys.antt =====
-- The keys of the clients of internal/api/middleware/ratelimit.go.
use onwapp.Base.{
  length, take, Str, lit, is_empty_iff, ℕ, zero, suc, ◌≤◌, ◌≡◌, refl, sym, ap, ◌∙◌, ◌≢◌, ◌↔◌, ◌⊎◌,
  inl, inr, [], ◌∷◌, ◌++◌, arith, ℕ_discrete,
}
use onwapp.Http.RateLimit.{Request, get_client_key}

take_of_short : (n : ℕ) (s : Str) → length s ≤ n → take n s ≡ s
take_of_short zero [] h = refl
take_of_short zero (c ∷ s) h = absurd (omega arith)
take_of_short (suc n) [] h = refl
take_of_short (suc n) (c ∷ s) h = ap (λ t. c ∷ t) (take_of_short n s (omega arith))

-- What tells two clients apart: the first 16 bytes of the header, or the address.
client_key_of_auth :
    (q : Request) → q.authorization ≢ [] → get_client_key q ≡ lit "auth:" ++ take 16 q.authorization
unfolding get_client_key
client_key_of_auth q h =
    ground (arith, is_empty_iff q.authorization, take_of_short 16 q.authorization)

client_key_of_ip :
    (q : Request) → q.authorization ≡ [] → get_client_key q ≡ lit "ip:" ++ q.client_ip
unfolding get_client_key
client_key_of_ip q h = ground arith

append_cancel : (p s t : Str) → p ++ s ≡ p ++ t → s ≡ t
append_cancel [] s t h = h
append_cancel (c ∷ p) s t h = append_cancel p s t (ground arith)

auth_ne_ip : (s t : Str) → lit "auth:" ++ s ≢ lit "ip:" ++ t
unfolding lit
auth_ne_ip s t h = ground arith

empty_of_length : (s : Str) → length s ≡ 0 → s ≡ []
empty_of_length [] h = refl
empty_of_length (c ∷ s) h = absurd (omega arith)

keys_of_auth :
    (q r : Request)
    → q.authorization ≢ []
    → r.authorization ≢ []
    → (get_client_key q ≡ get_client_key r) ↔ (take 16 q.authorization ≡ take 16 r.authorization)
keys_of_auth q r h k =
    rw (client_key_of_auth q h, client_key_of_auth r k)
      (append_cancel (lit "auth:") _ _, ap (λ t. lit "auth:" ++ t))

keys_of_ip :
    (q r : Request)
    → q.authorization ≡ []
    → r.authorization ≡ []
    → (get_client_key q ≡ get_client_key r) ↔ (q.client_ip ≡ r.client_ip)
keys_of_ip q r h k =
    rw (client_key_of_ip q h, client_key_of_ip r k)
      (append_cancel (lit "ip:") _ _, ap (λ t. lit "ip:" ++ t))

keys_apart :
    (q r : Request)
    → q.authorization ≢ []
    → r.authorization ≡ []
    → get_client_key q ≢ get_client_key r
keys_apart q r h k e = auth_ne_ip _ _ (sym (client_key_of_auth q h) ∙ e ∙ client_key_of_ip r k)

-- Two requests count as one client exactly when both have an Authorization header and the first 16
-- bytes of their headers agree, or neither has one and both come from one address.
pub get_client_key_iff :
    (q r : Request)
    → (get_client_key q ≡ get_client_key r) ↔ (
        ((q.authorization ≢ [])
          × (r.authorization ≢ [])
          × (take 16 q.authorization ≡ take 16 r.authorization))
        ⊎ ((q.authorization ≡ []) × (r.authorization ≡ []) × (q.client_ip ≡ r.client_ip)))
get_client_key_iff q r = (
  λ e. elim (ℕ_discrete (length q.authorization) 0) [
    | yes none_q ↦
        let a = empty_of_length q.authorization none_q in
        elim (ℕ_discrete (length r.authorization) 0) [
          | yes none_r ↦
              let b = empty_of_length r.authorization none_r in inr (a, b, (keys_of_ip q r a b).0 e)
          | no some_r ↦ absurd (keys_apart r q (λ x. some_r (ap length x)) a (sym e))
        ]
    | no some_q ↦ elim (ℕ_discrete (length r.authorization) 0) [
      | yes none_r ↦
          absurd
            (keys_apart q r (λ x. some_q (ap length x)) (empty_of_length r.authorization none_r) e)
      | no some_r ↦
          let a : q.authorization ≢ [] = λ x. some_q (ap length x) in
          let b : r.authorization ≢ [] = λ x. some_r (ap length x) in
          inl (a, b, (keys_of_auth q r a b).0 e)
    ]
  ],
  λ same. elim same [
    | inl (a, b, e) ↦ (keys_of_auth q r a b).1 e
    | inr (a, b, e) ↦ (keys_of_ip q r a b).1 e
  ],
)
