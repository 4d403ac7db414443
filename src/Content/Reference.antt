-- ===== src/Content/Reference.antt =====
-- The builders of internal/integrations/chatwoot/sync/content.go against plain concatenation.
use onwapp.Base.{
  Option-cases, Str, is_empty, lit, trim_space, is_empty_iff, ◌≡◌, sym, ap, ◌∙◌, ◌≢◌, inl, inr,
  false, none, some, [], ◌++◌, append-nil, append_assoc, arith,
}
use onwapp.Content.Json.{
  JsonLib, Message, Json, Items, Fields, object, nil, cons, object_at, array_at, text_at,
}
use onwapp.Content.Cards.{
  contact_line, contacts_loop, extract_contacts_array_content, msg_contacts, contacts_in,
}
use onwapp.Content.Interactive.{
  row_text, rows_loop, section_title, section_step, sections_loop, extract_list_content,
}

module _ {F : Type 0} where
  -- The texts of the items, one after the other.
  abbrev pub each : (Json F → Str) → Items F → Str
  each f nil = []
  each f (cons j js) = f j ++ each f js

module _ (lib : JsonLib) where
  rows_loop_lem :
      (b : Str) (rows : Items lib.F) → rows_loop lib b rows ≡ b ++ each (row_text lib) rows
  unfolding rows_loop
  rows_loop_lem b nil = sym (append-nil b)
  rows_loop_lem b (cons r rs) =
      rows_loop_lem (b ++ row_text lib r) rs
      ∙ append_assoc b (row_text lib r) (each (row_text lib) rs)

  -- A section: its title, then its rows; what is no object is left out.
  abbrev pub section_text : Json lib.F → Str
  section_text (object section) =
      section_title lib section
      ++ elim (array_at (lit "rows") section) [ none ↦ [] | some rows ↦ each (row_text lib) rows ]
  section_text _ = []

  section_step_lem : (b : Str) (s : Json lib.F) → section_step lib b s ≡ b ++ section_text s
  unfolding section_step
  section_step_lem b (object section) = elim (Option-cases (array_at (lit "rows") section)) [
    | inl e ↦ rw (e, section_step) (ap (λ t. b ++ t) (sym (append-nil (section_title lib section))))
    | inr (rows, e) ↦
        rw (e, section_step)
          (rows_loop_lem (b ++ section_title lib section) rows
            ∙ append_assoc b (section_title lib section) (each (row_text lib) rows))
  ]
  section_step_lem b _ = sym (append-nil b)

  sections_loop_lem :
      (b : Str) (ss : Items lib.F) → sections_loop lib b ss ≡ b ++ each section_text ss
  unfolding sections_loop
  sections_loop_lem b nil = sym (append-nil b)
  sections_loop_lem b (cons s ss) =
      ap (λ t. sections_loop lib t ss) (section_step_lem b s)
      ∙ sections_loop_lem (b ++ section_text s) ss
      ∙ append_assoc b (section_text s) (each section_text ss)

  -- A list message that has sections is shown as its description, then for each section that is an
  -- object its title and its rows, in order, with the white space at both ends cut off.
  extract_list_content_lem :
      (message list : Fields lib.F) (sections : Items lib.F)
      → object_at (lit "listMessage") message ≡ some list
      → array_at (lit "sections") list ≡ some sections
      → extract_list_content lib message
        ≡ trim_space (text_at (lit "description") list ++ each section_text sections)
  unfolding extract_list_content
  extract_list_content_lem message list sections e f =
      rw (e, extract_list_content, f)
        (ap trim_space (sections_loop_lem (text_at (lit "description") list) sections))

  contacts_loop_lem :
      (b : Str) (cs : Items lib.F) → contacts_loop lib b cs ≡ b ++ each (contact_line lib) cs
  unfolding contacts_loop
  contacts_loop_lem b nil = sym (append-nil b)
  contacts_loop_lem b (cons c cs) =
      contacts_loop_lem (b ++ contact_line lib c) cs
      ∙ append_assoc b (contact_line lib c) (each (contact_line lib) cs)

  -- A message whose raw event decodes and has an array of contacts that is not empty is shown as
  -- the label and one line for each contact that is an object, in order, whatever its stored
  -- text.
  extract_contacts_array_content_lem :
      (msg : Message) (raw : Fields lib.F) (c : Json lib.F) (cs : Items lib.F)
      → msg.raw_event ≢ []
      → lib.unmarshal msg.raw_event ≡ some raw
      → contacts_in lib raw ≡ some (cons c cs)
      → extract_contacts_array_content lib msg ≡ msg_contacts ++ each (contact_line lib) (cons c cs)
  unfolding extract_contacts_array_content
  extract_contacts_array_content_lem msg raw c cs h e f =
      let full : is_empty msg.raw_event ≡ false = ground (arith, is_empty_iff msg.raw_event) in
      rw (full, extract_contacts_array_content, e, f) (contacts_loop_lem msg_contacts (cons c cs))
