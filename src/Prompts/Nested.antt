-- ===== src/Prompts/Nested.antt =====
-- What StripTags leaves: plain text as it is, and a tag that another one stood in.
use cv_evaluator.Prelude.{ℕ, ◌≡◌, refl, ◌++◌, false, [], ◌∷◌, ◌==◌, All, ap}
use cv_evaluator.Prelude.Text.{Text, codes}
use cv_evaluator.Prompts.{strip_tags, strip_from, match_tag}

-- The rune begins no tag.
abbrev pub IsPlain : ℕ → Type 0
IsPlain c = (c == b'<') ≡ false

strip_from-plain : (a s : Text) → All IsPlain a → strip_from 0 (a ++ s) ≡ a ++ strip_from 0 s
unfolding strip_from match_tag
strip_from-plain [] s h = refl
strip_from-plain (c ∷ a) s h =
    rw (h.0, strip_from) (ap (λ (t : Text). c ∷ t) (strip_from-plain a s h.1))

-- Text without `<` is left as it is, and so is what stands before the first `<`.
pub strip_tags-plain : (a s : Text) → All IsPlain a → strip_tags (a ++ s) ≡ a ++ strip_tags s
unfolding strip_tags
strip_tags-plain a s h = strip_from-plain a s h

strip_nested : (s : Text) → strip_tags (codes "</c</cv>v>" ++ s) ≡ codes "</cv>" ++ strip_tags s
unfolding strip_tags
strip_nested s = refl

-- A closing tag that is written inside a closing tag survives: for every text `a` with no `<` in it
-- and every text `s`, the inner tag is stripped from between `a` and `s`, and the outer one is
-- put together by that.
pub strip_tags-nested :
    (a s : Text)
    → All IsPlain a
    → strip_tags (a ++ (codes "</c</cv>v>" ++ s)) ≡ a ++ (codes "</cv>" ++ strip_tags s)
strip_tags-nested a s h =
    rw (strip_tags-plain a (codes "</c</cv>v>" ++ s) h) (ap (λ (t : Text). a ++ t) (strip_nested s))
