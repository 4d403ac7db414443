-- ===== src/Phone.antt =====
-- Phone numbers and JIDs: internal/integrations/chatwoot/util/phone.go and internal/util/jid.go.
-- `types.ParseJID` and the resolver of LIDs are the environment's.
mod Examples
pub mod Forms
use onwapp.Base.{
  ◌==◌, if◌then◌else◌, length, take, drop, Str, is_empty, lit, str_eq, has_prefix, has_suffix,
  trim_prefix, trim_suffix, before, ℕ, ◌+◌, ◌-◌, Bool, not, ◌&&◌, ◌||◌, Option, none, some, List,
  [], ◌∷◌, ◌++◌,
}

-- `ExtractPhoneFromJID`: a colon at the start does not cut.
unfoldable pub cut_device : Str → Str
unfolding before
cut_device s = if is_empty (before b':' s) then s else before b':' s

unfoldable pub extract_phone_from_jid : Str → Str
unfolding cut_device before
extract_phone_from_jid jid = cut_device (before b'@' jid)

-- `IsGroupJID`, `IsStatusBroadcast`, `IsNewsletter` and `IsLIDJID`
unfoldable pub is_group_jid : Str → Bool
unfolding has_suffix lit
is_group_jid jid = has_suffix jid (lit "@g.us")

unfoldable pub is_status_broadcast : Str → Bool
unfolding str_eq lit
is_status_broadcast jid = str_eq jid (lit "status@broadcast")

unfoldable pub is_newsletter : Str → Bool
unfolding has_suffix lit
is_newsletter jid = has_suffix jid (lit "@newsletter")

unfoldable pub is_lid_jid : Str → Bool
unfolding has_suffix lit
is_lid_jid jid = has_suffix jid (lit "@lid")

-- A Brazilian number of the given length, with its country code.
unfoldable pub is_brazilian : ℕ → Str → Bool
unfolding has_prefix lit
is_brazilian n phone = length phone == n && has_prefix phone (lit "55")

unfoldable pub plus : Str → Str
unfolding lit
plus phone = lit "+" ++ phone

unfoldable pub without_plus : Str → Str
unfolding trim_prefix lit
without_plus phone = trim_prefix phone (lit "+")

-- `FormatPhoneDisplay`
unfoldable pub format_phone_display : Str → Str
unfolding without_plus is_brazilian plus lit
format_phone_display phone =
    let p = without_plus phone in
    let local = λ (n : ℕ).
      plus (take 2 p)
      ++ lit " ("
      ++ take 2 (drop 2 p)
      ++ lit ") "
      ++ take n (drop 4 p)
      ++ lit "-"
      ++ take 4 (drop (4 + n) p) in
    if is_brazilian 13 p then local 5 else if is_brazilian 12 p then local 4 else plus p

-- `JIDToWhatsApp`
unfoldable pub jid_to_whatsapp : Str → Str
unfolding without_plus lit
jid_to_whatsapp phone = without_plus phone ++ lit "@s.whatsapp.net"

-- The number without its ninth digit, and with one.
unfoldable pub without_nine : Str → Str
unfolding plus
without_nine p = plus (take 4 p ++ drop 5 p)

unfoldable pub with_nine : Str → Str
unfolding plus lit
with_nine p = plus (take 4 p ++ lit "9" ++ drop 4 p)

-- `GetAlternateBrazilianNumber`
unfoldable pub get_alternate_brazilian_number : Str → Str
unfolding without_plus is_brazilian without_nine with_nine
get_alternate_brazilian_number phone =
    let p = without_plus phone in
    if is_brazilian 13 p then without_nine p else if is_brazilian 12 p then with_nine p else []

-- `GetBrazilianPhoneVariants`
unfoldable pub get_brazilian_phone_variants : Str → List Str
unfolding without_plus plus without_nine with_nine has_prefix lit
get_brazilian_phone_variants phone =
    let p = without_plus phone in
    if has_prefix p (lit "55")
    then (if length p == 13
        then plus p ∷ without_nine p ∷ []
        else if length p == 12
        then plus p ∷ with_nine p ∷ []
        else plus p ∷ [])
    else plus p ∷ []

module _ (resolver : Option (Str → Str)) where
  -- `ResolveLIDToPhone`
  unfoldable pub resolve_lid_to_phone : Str → Str
  unfolding cut_device trim_suffix lit
  resolve_lid_to_phone lid = elim resolver [
    | none ↦ []
    | some r ↦ r (cut_device (trim_suffix lid (lit "@lid")))
  ]

  -- `ResolveJIDToPhone`
  unfoldable pub resolve_jid_to_phone : Str → Str
  unfolding is_group_jid is_status_broadcast is_newsletter is_lid_jid resolve_lid_to_phone
      extract_phone_from_jid
  resolve_jid_to_phone jid =
      if is_group_jid jid || is_status_broadcast jid || is_newsletter jid
      then []
      else if is_lid_jid jid
      then resolve_lid_to_phone jid
      else extract_phone_from_jid jid

  -- `ConvertLIDToStandardJID`
  unfoldable pub convert_lid_to_standard_jid : Str → Str
  unfolding is_lid_jid resolve_lid_to_phone lit
  convert_lid_to_standard_jid jid =
      if is_lid_jid jid
      then (if is_empty (resolve_lid_to_phone jid)
          then jid
          else resolve_lid_to_phone jid ++ lit "@s.whatsapp.net")
      else jid

-- `core.ContactNameInfo`
pub record ContactNameInfo : Type 0 where
  pub full_name : Str
  pub first_name : Str
  pub push_name : Str
  pub business_name : Str

-- `GetBestContactName`
unfoldable pub get_best_contact_name : Option ContactNameInfo → Str → Str
get_best_contact_name none phone = phone
get_best_contact_name (some info) phone =
    if not (is_empty info.full_name)
    then info.full_name
    else if not (is_empty info.first_name)
    then info.first_name
    else if not (is_empty info.push_name)
    then info.push_name
    else if not (is_empty info.business_name)
    then info.business_name
    else phone

-- `phone[1:]` at a leading "+".
unfoldable pub drop_plus : Str → Str
drop_plus [] = []
drop_plus (c ∷ s) = if c == b'+' then s else c ∷ s

-- What `ParsePhoneJID`, `ParseGroupJID`, `ParseNewsletterJID` and `ParseRecipientJID` give to
-- `types.ParseJID`, whose result they return as it is.
unfoldable pub parse_phone_jid : Str → Str
unfolding drop_plus lit
parse_phone_jid phone = drop_plus phone ++ lit "@s.whatsapp.net"

unfoldable pub parse_group_jid : Str → Str
unfolding is_group_jid lit
parse_group_jid id = if is_group_jid id then id else id ++ lit "@g.us"

unfoldable pub parse_newsletter_jid : Str → Str
unfolding is_newsletter lit
parse_newsletter_jid id = if is_newsletter id then id else id ++ lit "@newsletter"

unfoldable pub parse_recipient_jid : Str → Str
unfolding has_suffix drop_plus lit
parse_recipient_jid jid =
    if has_suffix jid (lit "@g.us")
      || has_suffix jid (lit "@s.whatsapp.net")
      || has_suffix jid (lit "@newsletter")
      || has_suffix jid (lit "@lid")
      || has_suffix jid (lit "@broadcast")
    then jid
    else drop_plus jid ++ lit "@s.whatsapp.net"
