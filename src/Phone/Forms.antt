-- ===== src/Phone/Forms.antt =====
-- How the forms of a number in internal/integrations/chatwoot/util/phone.go and internal/util/jid.go
-- belong together.
use onwapp.Base.{
  if◌then◌else◌, take, drop, Str, is_empty, lit, has_prefix, trim_prefix, before,
  trim_prefix-append, has_suffix-append, Lacks, before-append, before_of_Lacks, ◌≡◌, refl, ap, ◌∙◌,
  true, false, [], ◌∷◌, ◌++◌, arith,
}
use onwapp.Phone.{
  cut_device, extract_phone_from_jid, is_group_jid, is_newsletter, is_brazilian, plus, without_plus,
  jid_to_whatsapp, without_nine, with_nine, get_alternate_brazilian_number,
  get_brazilian_phone_variants, drop_plus, parse_group_jid, parse_newsletter_jid,
  parse_recipient_jid,
}

at_sign : (lit "@s.whatsapp.net" ≡ b'@' ∷ lit "s.whatsapp.net")
unfolding lit
at_sign = refl

cut_device_of_Lacks : (s : Str) → Lacks b':' s → cut_device s ≡ s
unfolding cut_device
cut_device_of_Lacks s h = ground (arith, before_of_Lacks b':' s h)

extract_phone-append :
    (phone : Str)
    → Lacks b'@' phone
    → Lacks b':' phone
    → extract_phone_from_jid (phone ++ lit "@s.whatsapp.net") ≡ phone
unfolding extract_phone_from_jid
extract_phone-append phone a c =
    ap (λ t. cut_device (before b'@' (phone ++ t))) at_sign
    ∙ ap cut_device (before-append b'@' phone (lit "s.whatsapp.net") a)
    ∙ cut_device_of_Lacks phone c

without_plus-plus : (phone : Str) → without_plus (plus phone) ≡ phone
unfolding without_plus plus
without_plus-plus phone = trim_prefix-append (lit "+") phone

without_plus_self : (phone : Str) → has_prefix phone (lit "+") ≡ false → without_plus phone ≡ phone
unfolding without_plus trim_prefix
without_plus_self phone h = ground arith

-- A Brazilian number of 12 digits gains a 9 and loses it again.
with_nine_back :
    (p : Str) → is_brazilian 12 p ≡ true → get_alternate_brazilian_number (with_nine p) ≡ plus p
unfolding get_alternate_brazilian_number with_nine without_nine is_brazilian plus lit without_plus
    trim_prefix has_prefix
with_nine_back [] h = ground arith
with_nine_back (a ∷ []) h = ground arith
with_nine_back (a ∷ b ∷ []) h = ground arith
with_nine_back (a ∷ b ∷ c ∷ []) h = ground arith
with_nine_back (a ∷ b ∷ c ∷ d ∷ s) h = ground arith

-- A Brazilian number of 13 digits loses the fifth and gains a 9 there.
without_nine_back :
    (p : Str)
    → is_brazilian 13 p ≡ true
    → get_alternate_brazilian_number (without_nine p) ≡ plus (take 4 p ++ lit "9" ++ drop 5 p)
unfolding get_alternate_brazilian_number with_nine without_nine is_brazilian plus lit without_plus
    trim_prefix has_prefix
without_nine_back [] h = ground arith
without_nine_back (a ∷ []) h = ground arith
without_nine_back (a ∷ b ∷ []) h = ground arith
without_nine_back (a ∷ b ∷ c ∷ []) h = ground arith
without_nine_back (a ∷ b ∷ c ∷ d ∷ []) h = ground arith
without_nine_back (a ∷ b ∷ c ∷ d ∷ e ∷ s) h = ground arith

-- A number that has neither "@" nor ":" nor, at its front, "+" is the number of its own JID, with a
-- "+" before it too.
extract_phone_from_jid-jid_to_whatsapp :
    (phone : Str)
    → Lacks b'@' phone
    → Lacks b':' phone
    → has_prefix phone (lit "+") ≡ false
    → (extract_phone_from_jid (jid_to_whatsapp phone) ≡ phone)
      × (extract_phone_from_jid (jid_to_whatsapp (plus phone)) ≡ phone)
unfolding jid_to_whatsapp
extract_phone_from_jid-jid_to_whatsapp phone a c p =
    let back = extract_phone-append phone a c in
    (
      ap (λ t. extract_phone_from_jid (t ++ lit "@s.whatsapp.net")) (without_plus_self phone p)
          ∙ back,
      ap (λ t. extract_phone_from_jid (t ++ lit "@s.whatsapp.net")) (without_plus-plus phone)
          ∙ back,
    )

-- The other form of the other form: a Brazilian number of 12 digits comes back, one of 13 comes back
-- with a 9 as its fifth digit, and any other number has no other form.
get_alternate_brazilian_number_twice :
    (phone : Str)
    → let p = without_plus phone in
      get_alternate_brazilian_number (get_alternate_brazilian_number phone) ≡ (
        if is_brazilian 12 p
        then plus p
        else if is_brazilian 13 p
        then plus (take 4 p ++ lit "9" ++ drop 5 p)
        else [])
unfolding get_alternate_brazilian_number is_brazilian without_plus trim_prefix has_prefix lit
get_alternate_brazilian_number_twice phone =
    let p = without_plus phone in ground (arith, with_nine_back p, without_nine_back p)

-- The variants of a number are the number itself and its other form, where it has one.
get_brazilian_phone_variants_lem :
    (phone : Str)
    → get_brazilian_phone_variants phone
      ≡ plus (without_plus phone)
        ∷ (if is_empty (get_alternate_brazilian_number phone)
            then []
            else get_alternate_brazilian_number phone ∷ [])
unfolding get_brazilian_phone_variants get_alternate_brazilian_number is_brazilian without_nine
    with_nine plus lit
get_brazilian_phone_variants_lem phone = ground arith

-- Completing the JID of a recipient, a group or a newsletter a second time changes nothing.
parse_recipient_jid_twice :
    (jid : Str)
    → (parse_recipient_jid (parse_recipient_jid jid) ≡ parse_recipient_jid jid)
      × (parse_group_jid (parse_group_jid jid) ≡ parse_group_jid jid)
      × (parse_newsletter_jid (parse_newsletter_jid jid) ≡ parse_newsletter_jid jid)
unfolding parse_recipient_jid parse_group_jid parse_newsletter_jid is_group_jid is_newsletter
parse_recipient_jid_twice jid = (
  ground (arith, has_suffix-append (drop_plus jid) (lit "@s.whatsapp.net")),
  ground (arith, has_suffix-append jid (lit "@g.us")),
  ground (arith, has_suffix-append jid (lit "@newsletter")),
)
