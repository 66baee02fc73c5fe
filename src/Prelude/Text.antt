-- ===== src/Prelude/Text.antt =====
-- Go strings as lists of code points, and the functions of Go's `strings` and `unicode` packages
-- that the program uses on them.
use Prim.Native.Nat.{ℕ, ◌+◌, ◌-◌, ◌%◌, ◌≤◌}
use Prim.Native.Char.{code}
use Prim.Native.String.{String}
use mathlib.Core.Path.{◌≡◌, refl, ap}
use mathlib.Core.Logic.{◌↔◌}
use mathlib.Core.Bool.{Bool, true, false, ◌&&◌, ◌||◌}
use mathlib.Core.List.{List, [], ◌∷◌, map}
use native.Mathlib.Omega.{arith}
use cv_evaluator.Prelude.Tests.{leb, ◌==◌, if◌then◌else◌}
use cv_evaluator.Prelude.Lists.{length, is_empty}

abbrev pub Text : Type 0
Text = List ℕ

-- The code points of a literal.
abbrev pub codes : String → Text
codes String.[] = []
codes (String.◌∷◌ c s) = code c ∷ codes s

-- s == t
unfoldable pub text_eq : Text → Text → Bool
text_eq [] [] = true
text_eq [] (d ∷ t) = false
text_eq (c ∷ s) [] = false
text_eq (c ∷ s) (d ∷ t) = (c == d) && text_eq s t

pub text_eq→eq : (s t : Text) → text_eq s t ≡ true → s ≡ t
unfolding text_eq
text_eq→eq [] [] h = refl
text_eq→eq [] (d ∷ t) h = ground arith
text_eq→eq (c ∷ s) [] h = ground arith
text_eq→eq (c ∷ s) (d ∷ t) h = ground (arith, text_eq→eq s t)

pub text_eq_refl : (s : Text) → text_eq s s ≡ true
unfolding text_eq
text_eq_refl [] = refl
text_eq_refl (c ∷ s) = ground (arith, text_eq_refl s)

pub text_eq_iff : (s t : Text) → (text_eq s t ≡ true) ↔ (s ≡ t)
text_eq_iff s t = (text_eq→eq s t, λ e. rw e (text_eq_refl t))

pub text_eq_comm : (s t : Text) → text_eq s t ≡ text_eq t s
unfolding text_eq
text_eq_comm [] [] = refl
text_eq_comm [] (d ∷ t) = refl
text_eq_comm (c ∷ s) [] = refl
text_eq_comm (c ∷ s) (d ∷ t) = ground (arith, text_eq_comm s t)

-- unicode.IsSpace
unfoldable pub is_space : ℕ → Bool
is_space c =
    (leb 9 c && leb c 13)
    || c == 32
    || c == 0x85
    || c == 0xa0
    || c == 0x1680
    || (leb 0x2000 c && leb c 0x200a)
    || c == 0x2028
    || c == 0x2029
    || c == 0x202f
    || c == 0x205f
    || c == 0x3000

unfoldable pub trim_left : Text → Text
trim_left [] = []
trim_left (c ∷ s) = let rest = trim_left s in if is_space c then rest else c ∷ s

unfoldable pub trim_right : Text → Text
trim_right [] = []
trim_right (c ∷ s) = let rest = trim_right s in if is_empty rest && is_space c then [] else c ∷ rest

-- strings.TrimSpace
unfoldable pub trim_space : Text → Text
unfolding trim_left trim_right is_space
trim_space s = trim_right (trim_left s)

-- Ranges of capital letters, each with the distance to their small letters.
abbrev shifted : List (ℕ × ℕ × ℕ)
shifted =
    (b'A', b'Z', 32)
    ∷ (0xc0, 0xd6, 32)
    ∷ (0xd8, 0xde, 32)
    ∷ (0x386, 0x386, 38)
    ∷ (0x388, 0x38a, 37)
    ∷ (0x38c, 0x38c, 64)
    ∷ (0x38e, 0x38f, 63)
    ∷ (0x391, 0x3a1, 32)
    ∷ (0x3a3, 0x3ab, 32)
    ∷ (0x400, 0x40f, 80)
    ∷ (0x410, 0x42f, 32)
    ∷ (0x4c0, 0x4c0, 15)
    ∷ (0x531, 0x556, 48)
    ∷ (0x2160, 0x216f, 16)
    ∷ (0x24b6, 0x24cf, 26)
    ∷ (0xff21, 0xff3a, 32)
    ∷ []

-- Ranges in which every second letter, from the first on, is a capital before its small letter.
abbrev alternating : List (ℕ × ℕ)
alternating =
    (0x100, 0x12e)
    ∷ (0x132, 0x136)
    ∷ (0x139, 0x147)
    ∷ (0x14a, 0x176)
    ∷ (0x179, 0x17d)
    ∷ (0x460, 0x480)
    ∷ (0x48a, 0x4be)
    ∷ (0x4c1, 0x4cd)
    ∷ (0x4d0, 0x52e)
    ∷ (0x1e00, 0x1e94)
    ∷ (0x1ea0, 0x1efe)
    ∷ []

abbrev lower_alternating : List (ℕ × ℕ) → ℕ → ℕ
lower_alternating [] c = c
lower_alternating ((lo, hi) ∷ rs) c =
    let rest = lower_alternating rs c in
    if leb lo c && leb c hi then (if (c - lo) % 2 == 0 then c + 1 else c) else rest

abbrev lower_shifted : List (ℕ × ℕ × ℕ) → ℕ → ℕ
lower_shifted [] c = lower_alternating alternating c
lower_shifted ((lo, hi, d) ∷ rs) c =
    let rest = lower_shifted rs c in if leb lo c && leb c hi then c + d else rest

-- unicode.ToLower, for the letters of Latin, Greek, Cyrillic and Armenian, but for the irregular
-- ones of Latin Extended-B and of ancient scripts
unfoldable pub lower_rune : ℕ → ℕ
lower_rune c =
    if c == 0x130
    then b'i'
    else if c == 0x178
    then 0xff
    else if c == 0x1e9e
    then 0xdf
    else if c == 0x2126
    then 0x3c9
    else if c == 0x212a
    then b'k'
    else if c == 0x212b
    then 0xe5
    else lower_shifted shifted c

-- strings.ToLower
unfoldable pub to_lower : Text → Text
unfolding lower_rune
to_lower = map lower_rune

-- strings.HasPrefix
unfoldable pub has_prefix : Text → Text → Bool
has_prefix s [] = true
has_prefix [] (d ∷ p) = false
has_prefix (c ∷ s) (d ∷ p) = (c == d) && has_prefix s p

trim_left-trim_left : (s : Text) → trim_left (trim_left s) ≡ trim_left s
unfolding trim_left
trim_left-trim_left [] = refl
trim_left-trim_left (c ∷ s) = ground (arith, trim_left-trim_left s)

trim_right-trim_right : (s : Text) → trim_right (trim_right s) ≡ trim_right s
unfolding trim_right
trim_right-trim_right [] = refl
trim_right-trim_right (c ∷ s) = ground (arith, trim_right-trim_right s)

length-trim_left : (s : Text) → length (trim_left s) ≤ length s
unfolding trim_left
length-trim_left [] = omega arith
length-trim_left (c ∷ s) = ground (arith, length-trim_left s)

-- The head of a text that is trimmed on the right stays its head.
trim_left-trim_right : (s : Text) → trim_left s ≡ s → trim_left (trim_right s) ≡ trim_right s
unfolding trim_left trim_right
trim_left-trim_right [] h = refl
trim_left-trim_right (c ∷ s) h = ground (arith, length-trim_left s, ap (length {A = ℕ}) h)

pub trim_space-trim_space : (s : Text) → trim_space (trim_space s) ≡ trim_space s
unfolding trim_space
trim_space-trim_space s =
    rw (trim_left-trim_right (trim_left s) (trim_left-trim_left s))
      (trim_right-trim_right (trim_left s))

pub trim_space-nil : (s : Text) → s ≡ [] → is_empty (trim_space s) ≡ true
unfolding trim_space
trim_space-nil s h = rw h refl

lowers : to_lower (codes "ÅSE Žižek ΑΩ ЖЁ İK") ≡ codes "åse žižek αω жё ik"
unfolding to_lower lower_rune
lowers = refl
