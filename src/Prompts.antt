-- ===== src/Prompts.antt =====
-- internal/llm/prompts/tags.go: the tags around untrusted text, and how they are stripped from it.
pub mod Nested
use cv_evaluator.Prelude.{
  ℕ, zero, suc, ◌+◌, Bool, true, false, ◌&&◌, ◌||◌, Option, none, some, List, [], ◌∷◌, ◌++◌, ◌==◌,
  if◌then◌else◌, leb, length,
}
use cv_evaluator.Prelude.Text.{Text, codes, trim_space}

-- \s in Go's regular expressions
unfoldable pub is_regexp_space : ℕ → Bool
is_regexp_space c = c == 9 || c == 10 || c == 12 || c == 13 || c == 32

-- A rune against a letter or `_` of the pattern, under (?i). Beside the two letter cases, the long s
-- folds to `s`.
unfoldable pub folds_to : ℕ → ℕ → Bool
folds_to c d = (c == d || (leb b'A' c && leb c b'Z' && c + 32 == d)) || (d == b's' && c == 0x17f)

-- The text after a run of white space, and how long the run is.
unfoldable pub skip_spaces : Text → ℕ × Text
skip_spaces [] = (0, [])
skip_spaces (c ∷ s) =
    let rest = skip_spaces s in if is_regexp_space c then (suc rest.0, rest.1) else (0, c ∷ s)

-- /?
unfoldable pub skip_slash : Text → ℕ × Text
skip_slash [] = (0, [])
skip_slash (c ∷ s) = if c == b'/' then (1, s) else (0, c ∷ s)

-- A word of the pattern at the head of a text.
unfoldable pub match_word : Text → Text → Option Text
match_word [] s = some s
match_word (d ∷ w) [] = none
match_word (d ∷ w) (c ∷ s) = if folds_to c d then match_word w s else none

abbrev tag_words : List Text
tag_words = codes "job_description" ∷ codes "cv" ∷ codes "evaluation" ∷ []

-- The first of the words that matches, with its length. No two of them begin alike.
unfoldable pub match_words : List Text → Text → Option (ℕ × Text)
match_words [] s = none
match_words (w ∷ ws) s = elim (match_word w s) [
  | some rest ↦ some (length w, rest)
  | none ↦ match_words ws s
]

abbrev match_close : ℕ → Text → Option ℕ
match_close n [] = none
match_close n (c ∷ s) = if c == b'>' then some (n + 1) else none

abbrev match_after_word : ℕ → Option (ℕ × Text) → Option ℕ
match_after_word n none = none
match_after_word n (some (k, s)) =
    let (spaces, rest) = skip_spaces s in match_close (n + k + spaces) rest

-- promptTags after its `<`: how many runes match
unfoldable pub match_body : Text → Option ℕ
match_body s =
    let (a, s₁) = skip_spaces s in
    let (b, s₂) = skip_slash s₁ in
    let (c, s₃) = skip_spaces s₂ in match_after_word (a + b + c) (match_words tag_words s₃)

-- How many of the next runes belong to the tag that begins with the rune `c`, after it.
unfoldable pub match_tag : ℕ → Text → Option ℕ
match_tag c s = if c == b'<' then match_body s else none

-- ReplaceAllString(text, ""): the matches from left to right that do not overlap. `n` runes of a
-- match are still to be dropped.
unfoldable pub strip_from : ℕ → Text → Text
strip_from n [] = []
strip_from (suc n) (c ∷ s) = strip_from n s
strip_from zero (c ∷ s) = elim (match_tag c s) [
  | some n ↦ strip_from n s
  | none ↦ c ∷ strip_from 0 s
]

-- StripTags
unfoldable pub strip_tags : Text → Text
unfolding strip_from match_tag match_body match_words match_word skip_spaces skip_slash folds_to
    is_regexp_space
strip_tags s = strip_from 0 s

-- TagCV
unfoldable pub tag_cv : Text → Text
tag_cv text = codes "<cv>\n" ++ (trim_space (strip_tags text) ++ codes "\n</cv>")
