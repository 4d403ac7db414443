-- ===== src/Ticket/Paging.antt =====
-- The pages of the ticket list in internal/api/handler/ticket.go.
use onwapp.Base.{
  ltb, ◌==◌, if◌then◌else◌, ℤ, pos, negsuc, pos_part, ltb_ℤ, ℕ, zero, suc, ◌+◌, ◌-◌, ◌*◌, ◌/◌, ◌%◌,
  ◌^◌, ◌≤◌, ◌<◌, ◌≡◌, refl, ap, ◌∙◌, ◌↔◌, Bool, true, Option, none, some, arith,
}
use native.Mathlib.Nat.{div-le_self, le_trans, mul-le-mul_right}

pub record Pagination : Type 0 where
  pub page : ℤ
  pub per_page : ℕ
  pub total : ℕ
  pub total_pages : ℤ
  pub has_more : Bool

-- `filter.Limit` and `filter.Offset` by the query: a number that is missing, unreadable or out of
-- range leaves the default.
unfoldable pub limit_of : Option ℤ → ℕ
limit_of (some (pos (suc l))) = suc l
limit_of _ = 50

unfoldable pub offset_of : Option ℤ → ℕ
offset_of (some (pos o)) = o
offset_of _ = 0

-- A sum of type `int`, which wraps around: -1 is added as 2 ^ 64 - 1.
int64 : ℕ → ℤ
int64 n = let r = n % 2 ^ 64 in if ltb r (2 ^ 63) then pos r else negsuc (2 ^ 64 - 1 - r)

-- `/` by a positive number rounds towards 0.
quotient : ℤ → ℕ → ℤ
quotient (pos a) l = pos (a / l)
quotient (negsuc a) l = if (a + 1) / l == 0 then pos 0 else negsuc ((a + 1) / l - 1)

-- The last lines of `List`, on the numbers read from the query and the count of the tickets.
pub pagination : Option ℤ → Option ℤ → ℕ → Pagination
unfolding limit_of offset_of int64 quotient
pagination limit offset total =
    let l = limit_of limit in
    let o = offset_of offset in
    record {
      page = int64 (o / l + 1);
      per_page = l;
      total = total;
      total_pages = quotient (int64 (total + l + (2 ^ 64 - 1))) l;
      has_more = ltb_ℤ (int64 (o + l)) (pos total);
    }

limit_of_pos : (limit : Option ℤ) → 0 < limit_of limit
unfolding limit_of
limit_of_pos none = omega arith
limit_of_pos (some (pos zero)) = omega arith
limit_of_pos (some (pos (suc l))) = omega arith
limit_of_pos (some (negsuc n)) = omega arith

-- The arithmetic of a page length `l` that is not 0.
ceiling : (total l : ℕ) → 0 < l → total ≤ (total + l - 1) / l * l
ceiling total l h = grind arith

ceiling_least : (total l n : ℕ) → 0 < l → total ≤ n * l → (total + l - 1) / l ≤ n
ceiling_least total l n h k = grind arith

int64_of_lt : (n : ℕ) → n < 2 ^ 63 → int64 n ≡ pos n
unfolding int64
int64_of_lt n h = ground arith

int64_pred : (n : ℕ) → n < 2 ^ 63 → int64 (suc n + (2 ^ 64 - 1)) ≡ pos n
unfolding int64
int64_pred n h = ground arith

pages_lem :
    (total l : ℕ)
    → 0 < l
    → total + l < 2 ^ 63
    → quotient (int64 (total + l + (2 ^ 64 - 1))) l ≡ pos ((total + l - 1) / l)
unfolding quotient
pages_lem total l h small =
    let n : ℕ = total + l - 1 in
    let eq : total + l ≡ suc n = omega arith in
    ap (λ m. quotient (int64 (m + (2 ^ 64 - 1))) l) eq
    ∙ ap (λ z. quotient z l) (int64_pred n (omega arith))

page_lem : (o l : ℕ) → 0 < l → o + l < 2 ^ 63 → int64 (o / l + 1) ≡ pos (o / l + 1)
page_lem o l h near = int64_of_lt (o / l + 1) (omega (arith, div-le_self o l))

-- Where no sum reaches 2 ^ 63, a page is not empty; the number of pages is the least that holds all
-- tickets; the page shown is the one that its offset lies in; and there is more exactly if a ticket
-- lies behind the page.
pub pagination_lem :
    (limit offset : Option ℤ) (total : ℕ)
    → total + limit_of limit < 2 ^ 63
    → offset_of offset + limit_of limit < 2 ^ 63
    → let p = pagination limit offset total in
      let pages = pos_part p.total_pages in
      let page = pos_part p.page in
      (1 ≤ p.per_page)
      × (p.total_pages ≡ pos pages)
      × (p.page ≡ pos page)
      × ((n : ℕ) → (total ≤ n * p.per_page) ↔ (pages ≤ n))
      × ((page - 1) * p.per_page ≤ offset_of offset)
      × (offset_of offset < page * p.per_page)
      × ((p.has_more ≡ true) ↔ (offset_of offset + p.per_page < total))
unfolding pagination
pagination_lem limit offset total small near =
    let l = limit_of limit in
    let o = offset_of offset in
    let h = limit_of_pos limit in
    rw (pages_lem total l h small, page_lem o l h near, int64_of_lt (o + l) near)
      (
        h,
        refl,
        refl,
        λ n. (ceiling_least total l n h, λ k. le_trans (ceiling total l h) (mul-le-mul_right l k)),
        grind arith,
        grind arith,
        ground arith,
      )
