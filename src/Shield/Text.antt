-- ===== src/Shield/Text.antt =====
-- The functions on texts that pkg/shield calls: those of Go's packages `strings`, `regexp`, `strconv`
-- and `time` are a record, and what the language does with bytes and separators is written out.
use Prim.Native.Char.{Char, code}
use Prim.Native.String.{slice, len}
use text.Mathlib.Text.{starts_with}
use moon_hub.Base.{ℕ, String, Bool, Option, List, [], ◌∷◌, ◌==◌, if◌then◌else◌}

pub record ShieldText (F : Type 0) : Type 0 where
  pub to_lower : String → String
  pub to_upper : String → String
  pub trim_space : String → String
  -- `strings.Contains(text, part)`.
  pub contains : String → String → Bool
  pub equal_fold : String → String → Bool
  -- The first group of `FindStringSubmatch`; the pattern comes first, here and below.
  pub find_submatch : String → String → Option String
  -- The first groups of `FindAllStringSubmatch`.
  pub find_all : String → String → List String
  pub regex_match : String → String → Bool
  pub regex_split : String → String → List String
  pub quote_meta : String → String
  -- `strings.ReplaceAll(text, old, new)`.
  pub replace_all : String → String → String → String
  pub parse_float : String → Option F
  -- The floats 0 and 1, and `a < b`, which is false where one of them is no number.
  pub zero_float : F
  pub one_float : F
  pub less : F → F → Bool
  pub parse_time : String → Option ℕ

abbrev pub has_prefix : String → String → Bool
has_prefix text prefix = starts_with text prefix

-- `text[n:]`, in bytes.
abbrev pub cut : ℕ → String → String
cut n text = slice text n (len text)

-- The next part begins with `c`.
abbrev pub begin_with : Char → List String → List String
begin_with c [] = String.◌∷◌ c "" ∷ []
begin_with c (part ∷ parts) = String.◌∷◌ c part ∷ parts

-- `strings.Split` at a separator of one character.
unfoldable pub split : Char → String → List String
split sep String.[] = "" ∷ []
split sep (String.◌∷◌ c text) =
    let parts = split sep text in if code c == code sep then "" ∷ parts else begin_with c parts
