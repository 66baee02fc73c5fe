-- ===== src/Prelude/Keyset.antt =====
-- Rows in the descending order of two columns (ORDER BY key DESC, id DESC), and the rows past one of
-- them.
use mathlib.Core.Path.{subst}
use Prim.Native.Nat.{ℕ}
use mathlib.Core.Path.{◌≡◌, refl, sym, ap, ◌∙◌}
use mathlib.Core.Logic.{◌≢◌, inl, inr}
use mathlib.Core.Bool.{Bool, true, false, ◌&&◌, ◌||◌}
use mathlib.Core.List.{List, [], ◌∷◌, ◌++◌}
use native.Mathlib.Omega.{arith}
use cv_evaluator.Prelude.Tests.{ltb, ◌==◌, if◌then◌else◌, Bool-cases}
use cv_evaluator.Prelude.Lists.{All}
use cv_evaluator.Prelude.Table.{select, placed, order_by}

module _ {R : Type 0} where
  pub All-select : (P : R → Type 0) (p : R → Bool) (xs : List R) → All P xs → All P (select p xs)
  unfolding select
  All-select P p [] h = tt
  All-select P p (x ∷ xs) h = elim (Bool-cases (p x)) [
    | inl t ↦ rw t (h.0, All-select P p xs h.1)
    | inr f ↦ rw f (All-select P p xs h.1)
  ]

module _ {R : Type 0} (k : R → ℕ) where
  -- No two rows have the same value in the column.
  abbrev pub IsDistinct : List R → Type 0
  IsDistinct [] = Unit
  IsDistinct (x ∷ xs) = All (λ y. k y ≢ k x) xs × IsDistinct xs

  pub select-IsDistinct : (p : R → Bool) (xs : List R) → IsDistinct xs → IsDistinct (select p xs)
  unfolding select
  select-IsDistinct p [] h = tt
  select-IsDistinct p (x ∷ xs) h = elim (Bool-cases (p x)) [
    | inl t ↦ rw t (All-select (λ y. k y ≢ k x) p xs h.0, select-IsDistinct p xs h.1)
    | inr f ↦ rw f (select-IsDistinct p xs h.1)
  ]

module _ {R : Type 0} (k i : R → ℕ) where
  abbrev pub desc : R → R → Bool
  desc a b = ltb (k b) (k a) || (k b == k a && ltb (i b) (i a))

  -- Each row comes before all that follow it.
  abbrev pub IsSorted : List R → Type 0
  IsSorted [] = Unit
  IsSorted (x ∷ xs) = All (λ y. desc x y ≡ true) xs × IsSorted xs

  desc_trans : (a b c : R) → desc a b ≡ true → desc b c ≡ true → desc a c ≡ true
  desc_trans a b c h g = ground arith

  desc_total : (a b : R) → i b ≢ i a → desc a b ≡ false → desc b a ≡ true
  desc_total a b n h = ground arith

  desc_asym : (a b : R) → desc a b ≡ true → desc b a ≡ false
  desc_asym a b h = ground arith

  -- What does not come before `r` is past what `r` comes before.
  desc_past : (s r t : R) → desc s r ≡ false → desc s t ≡ true → desc t r ≡ false
  desc_past s r t h g = ground arith

  All-desc :
      (r s : R) (l : List R)
      → desc r s ≡ true
      → All (λ y. desc s y ≡ true) l
      → All (λ y. desc r y ≡ true) l
  All-desc r s [] e h = tt
  All-desc r s (x ∷ l) e h = (desc_trans r s x e h.0, All-desc r s l e h.1)

  All-placed : (P : R → Type 0) (r : R) (l : List R) → P r → All P l → All P (placed desc r l)
  All-placed P r [] e h = (e, tt)
  All-placed P r (s ∷ l) e h = elim (Bool-cases (desc s r)) [
    | inl t ↦ rw t (h.0, All-placed P r l e h.1)
    | inr f ↦ rw f (e, h)
  ]

  placed-IsSorted :
      (r : R) (l : List R) → All (λ y. i y ≢ i r) l → IsSorted l → IsSorted (placed desc r l)
  placed-IsSorted r [] n h = (tt, tt)
  placed-IsSorted r (s ∷ l) n h = elim (Bool-cases (desc s r)) [
    | inl t ↦ rw t (All-placed (λ y. desc s y ≡ true) r l t h.0, placed-IsSorted r l n.1 h.1)
    | inr f ↦ let e = desc_total s r (λ q. n.0 (sym q)) f in rw f ((e, All-desc r s l e h.0), h)
  ]

  pub All-order_by : (P : R → Type 0) (rows : List R) → All P rows → All P (order_by desc rows)
  unfolding order_by
  All-order_by P [] h = tt
  All-order_by P (r ∷ rows) h = All-placed P r (order_by desc rows) h.0 (All-order_by P rows h.1)

  pub order_by-IsSorted : (rows : List R) → IsDistinct i rows → IsSorted (order_by desc rows)
  unfolding order_by
  order_by-IsSorted [] d = tt
  order_by-IsSorted (r ∷ rows) d =
      placed-IsSorted r (order_by desc rows) (All-order_by (λ y. i y ≢ i r) rows d.0)
        (order_by-IsSorted rows d.1)

  -- A row is placed first where all the rows are past it.
  placed-first : (r : R) (l : List R) → All (λ y. desc y r ≡ false) l → placed desc r l ≡ r ∷ l
  placed-first r [] h = refl
  placed-first r (s ∷ l) h = rw h.0

  All-past :
      (p : R → Bool) (s r : R) (l : List R)
      → desc s r ≡ false
      → All (λ y. desc s y ≡ true) l
      → All (λ y. desc y r ≡ false) (select p l)
  unfolding select
  All-past p s r [] f h = tt
  All-past p s r (x ∷ l) f h = elim (Bool-cases (p x)) [
    | inl t ↦ rw t (desc_past s r x f h.0, All-past p s r l f h.1)
    | inr u ↦ rw u (All-past p s r l f h.1)
  ]

  select-placed :
      (p : R → Bool) (r : R) (l : List R)
      → IsSorted l
      → select p (placed desc r l) ≡ (if p r then placed desc r (select p l) else select p l)
  unfolding select
  select-placed p r [] h = elim (Bool-cases (p r)) [ inl t ↦ rw t | inr f ↦ rw f ]
  select-placed p r (s ∷ l) h = elim (Bool-cases (desc s r)) [
    | inl t ↦ ground (arith, select-placed p r l h.1)
    | inr f ↦ ground (arith, placed-first r (select p l) (All-past p s r l f h.0))
  ]

  -- To choose rows and then order them is to choose them from the ordered ones.
  pub select-order_by :
      (p : R → Bool) (rows : List R)
      → IsDistinct i rows
      → order_by desc (select p rows) ≡ select p (order_by desc rows)
  unfolding order_by select
  select-order_by p [] d = refl
  select-order_by p (r ∷ rows) d =
      let here = select-placed p r (order_by desc rows) (order_by-IsSorted rows d.1) in
      let rest = select-order_by p rows d.1 in
      elim (Bool-cases (p r)) [
        | inl t ↦ rw t (
            ap (placed desc r) rest
            ∙ sym (
                here
                ∙ ap
                    (λ b.
                      if b
                      then placed desc r (select p (order_by desc rows))
                      else select p (order_by desc rows))
                    t))
        | inr f ↦ rw f (
            rest
            ∙ sym (
                here
                ∙ ap
                    (λ b.
                      if b
                      then placed desc r (select p (order_by desc rows))
                      else select p (order_by desc rows))
                    f))
      ]

  select-all : (p : R → Bool) (l : List R) → All (λ y. p y ≡ true) l → select p l ≡ l
  unfolding select
  select-all p [] h = refl
  select-all p (x ∷ l) h = rw h.0 (ap (λ (m : List R). x ∷ m) (select-all p l h.1))

  select_before :
      (c : R) (xs ys : List R) → IsSorted (xs ++ c ∷ ys) → select (desc c) (xs ++ c ∷ ys) ≡ ys
  unfolding select
  select_before c [] ys h =
      let e : desc c c ≡ false = ground arith in rw e (select-all (desc c) ys h.0)
  select_before c (x ∷ xs) ys h =
      let e = desc_asym x c (mid xs h.0) in rw e (select_before c xs ys h.1)
    where
      mid : (l : List R) → All (λ y. desc x y ≡ true) (l ++ c ∷ ys) → desc x c ≡ true
      mid [] g = g.0
      mid (z ∷ l) g = mid l g.1

  -- The rows past one of the ordered rows are those that follow it in the order.
  pub order_by-past :
      (rows xs ys : List R) (c : R)
      → IsDistinct i rows
      → order_by desc rows ≡ xs ++ c ∷ ys
      → order_by desc (select (desc c) rows) ≡ ys
  order_by-past rows xs ys c d e =
      select-order_by (desc c) rows d
      ∙ ap (select (desc c)) e
      ∙ select_before c xs ys (subst IsSorted e (order_by-IsSorted rows d))
