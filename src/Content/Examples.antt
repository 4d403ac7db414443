-- ===== src/Content/Examples.antt =====
-- The theorems on internal/integrations/chatwoot/sync/content.go at concrete messages.
use onwapp.Base.{◌==◌, Str, lit, str_eq, one_of, ℕ, refl, some, [], ◌∷◌}
use onwapp.Content.Json.{JsonLib, Message, Json, Fields, text, array, object, nil, cons, end, field}
use onwapp.Content.Format.{get_message_content}
use onwapp.Content.Labels.{HasLabel, get_message_content-HasLabel}

abbrev section : Json ℕ
section = object (field (lit "title") (text (lit "Menu")) end)

abbrev list : Fields ℕ
list = field (lit "sections") (array (cons section nil)) end

abbrev listed : Fields ℕ
listed = field (lit "listMessage") (object list) end

abbrev contact : Json ℕ
contact = object (field (lit "displayName") (text (lit "Ana")) end)

abbrev live : Fields ℕ
live =
    field (lit "Message")
      (object (
        field (lit "contactsArrayMessage")
          (object (field (lit "contacts") (array (cons contact nil)) end)) end))
      end

-- Every text decodes to the message of one contact.
abbrev decoder : JsonLib
decoder = record {
  F = ℕ;
  unmarshal = λ s. some live;
  format_float = λ n. [];
  is_zero = λ n. n == 0;
}

abbrev with_type : Str → Message
with_type type = record { type = type; content = []; quoted_id = []; raw_event = b'r' ∷ [] }

get_message_content-HasLabel_example :
    HasLabel (get_message_content decoder (with_type (lit "contacts")))
unfolding one_of lit str_eq
get_message_content-HasLabel_example =
    get_message_content-HasLabel decoder (with_type (lit "contacts")) refl

abbrev quoting : Fields ℕ
quoting =
    field (lit "imageMessage")
      (object
        (field (lit "contextInfo") (object (field (lit "stanzaID") (text (lit "Q")) end)) end))
      end

abbrev synced : Fields ℕ
synced =
    field (lit "historySyncMsg")
      (object (field (lit "message") (object (field (lit "message") (object quoting) end)) end)) end

abbrev quoted : Str
quoted = lit "Q"
