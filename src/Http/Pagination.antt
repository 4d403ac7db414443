-- ===== src/Http/Pagination.antt =====
-- internal/api/handler/pagination.go
use onwapp.Base.{
  if◌then◌else◌, Option-cases, Str, ℤ, pos, pos_part, neg_part, ltb_ℤ, ◌+◌, ◌≤◌, ◌≡◌, ◌↔◌, inl, inr,
  Option, none, some, arith,
}

pub record PaginationParams : Type 0 where
  pub limit : ℤ
  pub offset : ℤ

pub data PageError : Type 0 where
  limit_not_a_number limit_too_small limit_too_large offset_not_a_number offset_negative : PageError

pub data Parsed : Type 0 where
  page : PaginationParams → Parsed
  invalid : PageError → Parsed

default_chats_limit : ℤ
default_chats_limit = pos 100

max_chats_limit : ℤ
max_chats_limit = pos 500

default_messages_limit : ℤ
default_messages_limit = pos 50

max_messages_limit : ℤ
max_messages_limit = pos 200

default_limit : ℤ
default_limit = pos 20

max_limit : ℤ
max_limit = pos 100

-- Signed order, on the parts of the numbers.
abbrev pub AtMost : ℤ → ℤ → Type 0
AtMost a b = pos_part a + neg_part b ≤ pos_part b + neg_part a

module _ (atoi : Str → Option ℤ) where
  -- `strconv.Atoi(c.DefaultQuery(name, strconv.Itoa(fallback)))`: the parameter is `none` if it is
  -- not in the query, and printing and reading the default gives it back.
  pub query_int : Option Str → ℤ → Option ℤ
  query_int none fallback = some fallback
  query_int (some text) fallback = atoi text

  check_offset : ℤ → Option ℤ → Parsed
  check_offset limit none = invalid offset_not_a_number
  check_offset limit (some offset) =
      if ltb_ℤ offset (pos 0)
      then invalid offset_negative
      else page (record { limit = limit; offset = offset })

  check_limit : ℤ → Option ℤ → Option Str → Parsed
  unfolding query_int check_offset
  check_limit max none offset = invalid limit_not_a_number
  check_limit max (some limit) offset =
      if ltb_ℤ limit (pos 1)
      then invalid limit_too_small
      else if ltb_ℤ max limit
      then invalid limit_too_large
      else check_offset limit (query_int offset (pos 0))

  -- `parsePaginationParams`, from the parameters "limit" and "offset"
  pub parse_pagination_params : ℤ → ℤ → Option Str → Option Str → Parsed
  unfolding query_int check_limit
  parse_pagination_params fallback max limit offset =
      check_limit max (query_int limit fallback) offset

  pub parse_chats_pagination : Option Str → Option Str → Parsed
  unfolding parse_pagination_params default_chats_limit max_chats_limit
  parse_chats_pagination = parse_pagination_params default_chats_limit max_chats_limit

  pub parse_messages_pagination : Option Str → Option Str → Parsed
  unfolding parse_pagination_params default_messages_limit max_messages_limit
  parse_messages_pagination = parse_pagination_params default_messages_limit max_messages_limit

  pub parse_general_pagination : Option Str → Option Str → Parsed
  unfolding parse_pagination_params default_limit max_limit
  parse_general_pagination = parse_pagination_params default_limit max_limit

  -- A page is returned exactly when both numbers can be read, the limit lies between 1 and the
  -- maximum, and the offset is not negative; it holds those numbers.
  parse_pagination_params_iff :
      (fallback max : ℤ) (limit offset : Option Str) (q : PaginationParams)
      → (parse_pagination_params fallback max limit offset ≡ page q) ↔ (
          (query_int limit fallback ≡ some q.limit)
          × (query_int offset (pos 0) ≡ some q.offset)
          × AtMost (pos 1) q.limit
          × AtMost q.limit max
          × AtMost (pos 0) q.offset)
  unfolding parse_pagination_params check_limit check_offset
  parse_pagination_params_iff fallback max limit offset q =
      elim (Option-cases (query_int limit fallback)) [
        | inl e ↦ ground arith
        | inr (l, e) ↦ elim (Option-cases (query_int offset (pos 0))) [
          | inl f ↦ ground arith
          | inr (o, f) ↦ ground arith
        ]
      ]

  -- Whatever the parameters, a page of chats is at most 500 long, one of messages at most 200, and
  -- one of anything else at most 100.
  pub pages_bounded :
      (limit offset : Option Str) (q : PaginationParams)
      → (parse_chats_pagination limit offset ≡ page q → AtMost q.limit (pos 500))
        × (parse_messages_pagination limit offset ≡ page q → AtMost q.limit (pos 200))
        × (parse_general_pagination limit offset ≡ page q → AtMost q.limit (pos 100))
  unfolding parse_chats_pagination parse_messages_pagination parse_general_pagination
  pages_bounded limit offset q = (
    λ h. ((parse_pagination_params_iff default_chats_limit max_chats_limit limit offset q).0 h).3,
    λ h.
        ((parse_pagination_params_iff default_messages_limit max_messages_limit limit offset q).0
          h).3,
    λ h. ((parse_pagination_params_iff default_limit max_limit limit offset q).0 h).3,
  )
