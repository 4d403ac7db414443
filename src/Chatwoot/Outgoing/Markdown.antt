-- ===== src/Chatwoot/Outgoing/Markdown.antt =====
-- `ConvertMarkdown` of internal/integrations/chatwoot/service/service.go.
use onwapp.Base.{
  Str, lit, has_prefix, drop, replace_all, replace_from, replace_all-append, replace_all_of_Lacks,
  Lacks, ℕ, ◌≡◌, refl, ap, ◌∙◌, [], ◌∷◌, ◌++◌,
}
use onwapp.Chatwoot.Outgoing.{convert_markdown}

-- A text without "*", "~" and the first byte of "§".
abbrev pub IsPlain : Str → Type 0
IsPlain s = Lacks b'*' s × Lacks b'~' s × Lacks 0xC2 s

-- The four replacements, in order.
abbrev marked : Str → Str
marked t = replace_all t (lit "**") (lit "§BOLD§")

abbrev italic : Str → Str
italic t = replace_all t (lit "*") (lit "_")

abbrev bold : Str → Str
bold t = replace_all t (lit "§BOLD§") (lit "*")

abbrev struck : Str → Str
struck t = replace_all t (lit "~~") (lit "~")

-- A replacement of the marks `a` and `b` around a text in which it finds nothing.
around :
    (c : ℕ) (old new s a a' b b' : Str)
    → Lacks c s
    → ((t : Str) → replace_all (a ++ t) (c ∷ old) new ≡ a' ++ replace_all t (c ∷ old) new)
    → replace_all b (c ∷ old) new ≡ b'
    → replace_all (a ++ (s ++ b)) (c ∷ old) new ≡ a' ++ (s ++ b')
around c old new s a a' b b' h pre post =
    pre (s ++ b)
    ∙ ap (λ t. a' ++ t) (replace_all-append c old new s b h)
    ∙ ap (λ t. a' ++ (s ++ t)) post

-- A text without "*", "~" and the first byte of "§" is left as it is; between two "**" it gets one "*"
-- on each side, and between two "~~" one "~".
convert_markdown_lem :
    (s : Str)
    → IsPlain s
    → (convert_markdown s ≡ s)
      × (convert_markdown (lit "**" ++ (s ++ lit "**")) ≡ lit "*" ++ (s ++ lit "*"))
      × (convert_markdown (lit "~~" ++ (s ++ lit "~~")) ≡ lit "~" ++ (s ++ lit "~"))
unfolding convert_markdown replace_all replace_from has_prefix lit
convert_markdown_lem s (star, tilde, mark) =
    let two = lit "**" in
    let flag = lit "§BOLD§" in
    let one = lit "*" in
    let wave = lit "~~" in
    (
      ap (λ t. struck (bold (italic t))) (replace_all_of_Lacks b'*' (b'*' ∷ []) flag s star)
          ∙ ap (λ t. struck (bold t)) (replace_all_of_Lacks b'*' [] (lit "_") s star)
          ∙ ap struck (replace_all_of_Lacks 0xC2 (drop 1 flag) one s mark)
          ∙ replace_all_of_Lacks b'~' (b'~' ∷ []) (lit "~") s tilde,
      ap (λ t. struck (bold (italic t)))
            (around b'*' (b'*' ∷ []) flag s two flag two flag star (λ t. refl) refl)
          ∙ ap (λ t. struck (bold t))
              (around b'*' [] (lit "_") s flag flag flag flag star (λ t. refl) refl)
          ∙ ap struck (around 0xC2 (drop 1 flag) one s flag one flag one mark (λ t. refl) refl)
          ∙ around b'~' (b'~' ∷ []) (lit "~") s one one one one tilde (λ t. refl) refl,
      ap (λ t. struck (bold (italic t)))
            (around b'*' (b'*' ∷ []) flag s wave wave wave wave star (λ t. refl) refl)
          ∙ ap (λ t. struck (bold t))
              (around b'*' [] (lit "_") s wave wave wave wave star (λ t. refl) refl)
          ∙ ap struck (around 0xC2 (drop 1 flag) one s wave wave wave wave mark (λ t. refl) refl)
          ∙ around b'~' (b'~' ∷ []) (lit "~") s wave (lit "~") wave (lit "~") tilde (λ t. refl)
              refl,
    )
