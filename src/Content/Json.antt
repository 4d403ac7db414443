-- ===== src/Content/Json.antt =====
-- Decoded JSON as the type assertions of internal/integrations/chatwoot/sync/content.go read it, and
-- the message fields that it reads. Decoding and the printing of floats are parameters.
use onwapp.Base.{if◌then◌else◌, Str, lit, str_eq, Bool, Option, none, some, []}

-- `interface{}` as encoding/json fills it; `F` stands for float64.
mutual
  pub data Json (F : Type 0) : Type 0 where
    null : Json F
    boolean : Bool → Json F
    number : F → Json F
    text : Str → Json F
    array : Items F → Json F
    object : Fields F → Json F

  pub data Items (F : Type 0) : Type 0 where
    nil : Items F
    cons : Json F → Items F → Items F

  pub data Fields (F : Type 0) : Type 0 where
    end : Fields F
    field : Str → Json F → Fields F → Fields F

-- `json.Unmarshal` into a map (a JSON null gives a map without keys), `fmt.Sprintf("%.6f", f)`, and
-- the test `f == 0`.
pub record JsonLib : Type 1 where
  pub F : Type 0
  pub unmarshal : Str → Option (Fields F)
  pub format_float : F → Str
  pub is_zero : F → Bool

-- `model.Message`, the fields that are read.
pub record Message : Type 0 where
  pub type : Str
  pub content : Str
  pub quoted_id : Str
  pub raw_event : Str

module _ {F : Type 0} where
  -- `m[k]`; a missing key reads as nil.
  unfoldable pub get : Str → Fields F → Json F
  get k end = null
  get k (field j v fs) = let rest = get k fs in if str_eq j k then v else rest

  -- `m[k].(map[string]interface{})`
  unfoldable pub object_at : Str → Fields F → Option (Fields F)
  unfolding get
  object_at k fs = elim (get k fs) [ object gs ↦ some gs | _ ↦ none ]

  -- `m[k].([]interface{})`
  unfoldable pub array_at : Str → Fields F → Option (Items F)
  unfolding get
  array_at k fs = elim (get k fs) [ array xs ↦ some xs | _ ↦ none ]

  -- `s, _ := m[k].(string)`
  unfoldable pub text_at : Str → Fields F → Str
  unfolding get
  text_at k fs = elim (get k fs) [ text s ↦ s | _ ↦ [] ]

  -- `f, _ := m[k].(float64)`, `none` for the zero value of a failed assertion
  unfoldable pub number_at : Str → Fields F → Option F
  unfolding get
  number_at k fs = elim (get k fs) [ number f ↦ some f | _ ↦ none ]

infixl 5 ◌>>=◌
abbrev pub ◌>>=◌ {ℓ κ} : {A : Type ℓ} {B : Type κ} → Option A → (A → Option B) → Option B
none >>= k = none
some a >>= k = k a

-- The first that is there.
abbrev pub or_else {ℓ} : {A : Type ℓ} → Option A → Option A → Option A
or_else none b = b
or_else (some a) b = some a

module _ {F : Type 0} where
  -- `rawEvent["webMessageInfo"]["message"]`
  unfoldable pub web_message : Fields F → Option (Fields F)
  web_message raw = do info ← object_at (lit "webMessageInfo") raw; object_at (lit "message") info

  -- `rawEvent["historySyncMsg"]["message"]["message"]`
  unfoldable pub history_message : Fields F → Option (Fields F)
  history_message raw = do
    sync ← object_at (lit "historySyncMsg") raw
    wrapper ← object_at (lit "message") sync
    object_at (lit "message") wrapper

  -- `rawEvent["Message"]`
  unfoldable pub live_message : Fields F → Option (Fields F)
  live_message raw = object_at (lit "Message") raw
