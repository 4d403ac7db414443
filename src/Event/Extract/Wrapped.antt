-- ===== src/Event/Extract/Wrapped.antt =====
-- What view-once wrappers do to the extraction of internal/service/event/message.go.
use onwapp.Base.{Str, ◌≡◌, refl, Bool, true, false, List, [], ◌∷◌}
use onwapp.Event.{WaMessage, absent, message, no_parts}
use onwapp.Event.Extract.{
  extract_message_type_and_content, extract_media_info, extract_quoted_id, extract_context_info,
  before_protocol, behind_protocol, media_in, first_of, as_type, if_present, map_part,
}

-- A message in one of the two kinds of view-once message, as often as the list is long; true is the
-- second kind.
unfoldable pub wrapped : List Bool → WaMessage → WaMessage
wrapped [] m = m
wrapped (false ∷ vs) m =
    message (record no_parts { has_view_once = true }) absent (wrapped vs m) absent
wrapped (true ∷ vs) m =
    message (record no_parts { has_view_once_v2 = true }) absent absent (wrapped vs m)

-- However often a message is wrapped as view-once, in either kind, its type, its text and its media
-- are those of the message itself.
extract-wrapped :
    (s i : Str) (vs : List Bool) (m : WaMessage)
    → (extract_message_type_and_content (wrapped vs m) ≡ extract_message_type_and_content m)
      × (extract_media_info s i (wrapped vs m) ≡ extract_media_info s i m)
unfolding extract_message_type_and_content extract_media_info wrapped before_protocol
    behind_protocol media_in first_of as_type if_present map_part
extract-wrapped s i [] m = (refl, refl)
extract-wrapped s i (false ∷ vs) m = extract-wrapped s i vs m
extract-wrapped s i (true ∷ vs) m = extract-wrapped s i vs m

-- A view-once message quotes nothing, whatever the message in it quotes.
pub extract_quoted_id-wrapped :
    (v : Bool) (vs : List Bool) (m : WaMessage) → extract_quoted_id (wrapped (v ∷ vs) m) ≡ []
unfolding extract_quoted_id extract_context_info wrapped first_of map_part
extract_quoted_id-wrapped false vs m = refl
extract_quoted_id-wrapped true vs m = refl
