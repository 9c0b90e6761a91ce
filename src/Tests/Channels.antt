-- ===== src/Tests/Channels.antt =====
-- The splitting of messages in pkg/channels at concrete inputs.
use Prim.Native.Char.{Char, code}
use moon_hub.Base.{zero, suc, ◌≡◌, refl, String, Bool, ◌&&◌, ◌||◌, List, [], ◌∷◌, ◌==◌, leb, arith}
use moon_hub.Channels.Split.{Runes, Splitting, next, finished, split_message}
use moon_hub.Channels.Split.Bounds.{IsBounded, split_message-IsBounded}
use moon_hub.Channels.Split.Plain.{IsPlain, solid, joined, split_message-plain}
use moon_hub.Channels.Split.Endless.{split_message-endless}

abbrev runes_of : String → Runes
runes_of String.[] = []
runes_of (String.◌∷◌ c s) = c ∷ runes_of s

-- The spaces among the ASCII characters.
abbrev ascii_space : Char → Bool
ascii_space c = code c == 32 || (leb 9 (code c) && leb (code c) 13)

-- A block longer than the limit is closed and opened again.
split_message-block :
    split_message ascii_space 9 (runes_of "go\n```\nabcdefghijklmnopqrstuvwxyzabcdefghijkl\n```") 40
    ≡ finished (
        runes_of "go"
        ∷ runes_of "```\nabcdefghijklmnopqrstuvwxyzabcde\n```"
        ∷ runes_of "```\nfghijkl\n```"
        ∷ [])
unfolding split_message
split_message-block = refl

split_message-IsBounded_example :
    IsBounded 9 (split_message ascii_space 20 (runes_of "one ```two``` three four") 9)
split_message-IsBounded_example =
    split_message-IsBounded ascii_space 9 20 (runes_of "one ```two``` three four") (omega arith)

abbrev words : Runes
words = "a" ∷ " " ∷ "b" ∷ []

words-IsPlain : IsPlain words
words-IsPlain zero = refl
words-IsPlain (suc zero) = refl
words-IsPlain (suc (suc zero)) = refl
words-IsPlain (suc (suc (suc i))) = refl

split_message-plain_example :
    (ms : List Runes) × (split_message ascii_space 4 words 1 ≡ finished ms)
    × (solid (joined ms) ≡ "a" ∷ "b" ∷ [])
split_message-plain_example = split_message-plain ascii_space 1 words (omega arith) words-IsPlain

split_message-endless_example :
    (s : Splitting) × (split_message ascii_space 1000 (runes_of "```json\nx") 7 ≡ next s)
split_message-endless_example =
    split_message-endless ascii_space (runes_of "json") refl refl 7 (omega arith) (omega arith)
      (runes_of "x") refl 1000
