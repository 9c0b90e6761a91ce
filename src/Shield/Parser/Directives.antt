-- ===== src/Shield/Parser/Directives.antt =====
-- pkg/shield/parser.go: the directives of a text, line by line.
use Prim.Native.Char.{Char, code}
use Prim.Native.String.{◌++◌ as append}
use text.Mathlib.TextLemmas.{nil-append, cons-append}
use moon_hub.Base.{
  ◌≡◌, refl, sym, ap, ◌∙◌, String, true, false, List, [], ◌∷◌, ◌++◌, append_assoc, if◌then◌else◌,
  str_eq, ◌==◌, Bool-cases, inl, inr, eq_iff,
}
use moon_hub.Shield.Text.{ShieldText, split, begin_with}
use moon_hub.Shield.Parser.{parse_line, parse_lines, parse_directives}

-- Two texts with the end of a line between them.
abbrev pub joined : String → String → String
joined first second = append first (String.◌∷◌ "\n" second)

split-here :
    (sep c : Char) (s : String)
    → (code c == code sep) ≡ true
    → split sep (String.◌∷◌ c s) ≡ "" ∷ split sep s
unfolding split
split-here sep c s h = ap (λ here. if here then "" ∷ split sep s else begin_with c (split sep s)) h

split-there :
    (sep c : Char) (s : String)
    → (code c == code sep) ≡ false
    → split sep (String.◌∷◌ c s) ≡ begin_with c (split sep s)
unfolding split
split-there sep c s h = ap (λ here. if here then "" ∷ split sep s else begin_with c (split sep s)) h

split-begins :
    (sep : Char) (s : String) → (p : String) × (ps : List String) × (split sep s ≡ p ∷ ps)
unfolding split
split-begins sep String.[] = ("", [], refl)
split-begins sep (String.◌∷◌ c s) =
    let (p, ps, e) = split-begins sep s in
    elim (Bool-cases (code c == code sep)) [
      | inl h ↦ ("", split sep s, split-here sep c s h)
      | inr h ↦ (String.◌∷◌ c p, ps, split-there sep c s h ∙ ap (begin_with c) e)
    ]

begin_with-append :
    (sep c : Char) (s : String) (qs : List String)
    → begin_with c (split sep s ++ qs) ≡ begin_with c (split sep s) ++ qs
begin_with-append sep c s qs =
    let (p, ps, e) = split-begins sep s in
    ap (λ parts. begin_with c (parts ++ qs)) e ∙ sym (ap (λ parts. begin_with c parts ++ qs) e)

split-joined :
    (first second : String)
    → split "\n" (joined first second) ≡ split "\n" first ++ split "\n" second
unfolding split
split-joined String.[] second = ap (split "\n") (nil-append (String.◌∷◌ "\n" second))
split-joined (String.◌∷◌ c first) second =
    ap (split "\n") (cons-append c first (String.◌∷◌ "\n" second))
    ∙ elim (Bool-cases (code c == code "\n")) [
      | inl h ↦
          split-here "\n" c (joined first second) h
          ∙ ap (λ parts. "" ∷ parts) (split-joined first second)
          ∙ sym (ap (λ parts. parts ++ split "\n" second) (split-here "\n" c first h))
      | inr h ↦
          split-there "\n" c (joined first second) h
          ∙ ap (begin_with c) (split-joined first second)
          ∙ begin_with-append "\n" c first (split "\n" second)
          ∙ sym (ap (λ parts. parts ++ split "\n" second) (split-there "\n" c first h))
    ]

module _ {F : Type 0} (x : ShieldText F) where
  parse_lines-append :
      (ls ms : List String) → parse_lines x (ls ++ ms) ≡ parse_lines x ls ++ parse_lines x ms
  unfolding parse_lines
  parse_lines-append [] ms = refl
  parse_lines-append (l ∷ ls) ms =
      ap (λ rest. parse_line x (x.trim_space l) ++ rest) (parse_lines-append ls ms)
      ∙ sym (append_assoc (parse_line x (x.trim_space l)) (parse_lines x ls) (parse_lines x ms))

  nothing-here : x.trim_space "" ≡ "" → parse_lines x (split "\n" "") ≡ []
  unfolding parse_lines parse_line split
  nothing-here h = ap (λ line. parse_line x line ++ []) h

  -- The text without a line is no exception.
  parse_directives-lines :
      x.trim_space "" ≡ "" → (s : String) → parse_directives x s ≡ parse_lines x (split "\n" s)
  unfolding parse_directives
  parse_directives-lines h s = elim (Bool-cases (str_eq s "")) [
    | inl e ↦
        ap (parse_directives x) ((eq_iff s "").0 e)
        ∙ sym (nothing-here h)
        ∙ sym (ap (λ text. parse_lines x (split "\n" text)) ((eq_iff s "").0 e))
    | inr e ↦ ap (λ empty. if empty then [] else parse_lines x (split "\n" s)) e
  ]

  -- If trimming leaves the empty text alone, then the directives of two texts with the end of a line
  -- between them are those of the first and then those of the second.
  pub parse_directives-joined :
      x.trim_space "" ≡ ""
      → (first second : String)
      → parse_directives x (joined first second)
        ≡ parse_directives x first ++ parse_directives x second
  parse_directives-joined h first second =
      parse_directives-lines h (joined first second)
      ∙ ap (parse_lines x) (split-joined first second)
      ∙ parse_lines-append (split "\n" first) (split "\n" second)
      ∙ sym (ap (λ ds. ds ++ parse_lines x (split "\n" second)) (parse_directives-lines h first))
      ∙ sym (ap (λ ds. parse_directives x first ++ ds) (parse_directives-lines h second))
