-- ===== src/Prelude/Joins.antt =====
-- The joins of SQL, on lists of rows.
use Prim.Native.Nat.{ℕ, ◌≤◌, suc}
use mathlib.Core.Path.{◌≡◌, refl, sym, ◌∙◌, subst}
use mathlib.Core.Bool.{Bool, true}
use mathlib.Core.Option.{Option, none, some}
use mathlib.Core.List.{List, [], ◌∷◌, ◌++◌, map}
use mathlib.Core.Logic.{◌≢◌, inl, inr}
use native.Mathlib.Omega.{arith}
use cv_evaluator.Prelude.Tests.{Bool-cases}
use cv_evaluator.Prelude.Lists.{length, All, All-append}
use cv_evaluator.Prelude.Table.{select}
use cv_evaluator.Prelude.Keyset.{IsDistinct}

-- The row of NULLs of an outer join.
abbrev or_null : {B : Type 0} → List B → List (Option B)
or_null [] = none ∷ []
or_null (b ∷ bs) = map some (b ∷ bs)

module _ {A B C : Type 0} where
  -- a JOIN b ON on
  unfoldable pub join : (A → B → Bool) → (A → B → C) → List A → List B → List C
  join on f [] bs = []
  join on f (a ∷ as') bs = map (f a) (select (on a) bs) ++ join on f as' bs

  -- a LEFT JOIN b ON on
  unfoldable pub left_join : (A → B → Bool) → (A → Option B → C) → List A → List B → List C
  left_join on f [] bs = []
  left_join on f (a ∷ as') bs = map (f a) (or_null (select (on a) bs)) ++ left_join on f as' bs

  pub All-join :
      (P : A → Type 0) (Q : C → Type 0) (on : A → B → Bool) (f : A → B → C) (xs : List A)
      (bs : List B)
      → ((a : A) (b : B) → P a → Q (f a b))
      → All P xs
      → All Q (join on f xs bs)
  unfolding join
  All-join P Q on f [] bs g h = tt
  All-join P Q on f (a ∷ xs) bs g h =
      All-append Q (map (f a) (select (on a) bs)) (join on f xs bs) (each (select (on a) bs))
        (All-join P Q on f xs bs g h.1)
    where
      each : (m : List B) → All Q (map (f a) m)
      each [] = tt
      each (b ∷ m) = (g a b h.0, each m)

  pub All-left_join :
      (P : A → Type 0) (Q : C → Type 0) (on : A → B → Bool) (f : A → Option B → C) (xs : List A)
      (bs : List B)
      → ((a : A) (b : Option B) → P a → Q (f a b))
      → All P xs
      → All Q (left_join on f xs bs)
  unfolding left_join
  All-left_join P Q on f [] bs g h = tt
  All-left_join P Q on f (a ∷ xs) bs g h =
      All-append Q (map (f a) (or_null (select (on a) bs))) (left_join on f xs bs)
        (each (or_null (select (on a) bs))) (All-left_join P Q on f xs bs g h.1)
    where
      each : (m : List (Option B)) → All Q (map (f a) m)
      each [] = tt
      each (b ∷ m) = (g a b h.0, each m)

  -- A row that is joined with one other at most keeps its key for itself.
  pub join-IsDistinct :
      (k : A → ℕ) (l : C → ℕ) (on : A → B → Bool) (f : A → B → C) (xs : List A) (bs : List B)
      → ((a : A) (b : B) → l (f a b) ≡ k a)
      → ((a : A) → length (select (on a) bs) ≤ 1)
      → IsDistinct k xs
      → IsDistinct l (join on f xs bs)
  unfolding join
  join-IsDistinct k l on f [] bs key one d = tt
  join-IsDistinct k l on f (a ∷ xs) bs key one d =
      ahead (select (on a) bs) (one a) (join-IsDistinct k l on f xs bs key one d.1)
    where
      ahead :
          (m : List B)
          → length m ≤ 1
          → IsDistinct l (join on f xs bs)
          → IsDistinct l (map (f a) m ++ join on f xs bs)
      ahead [] s h = h
      ahead (b ∷ []) s h = (
        All-join (λ x. k x ≢ k a) (λ c. l c ≢ l (f a b)) on f xs bs
            (λ x y n e. n (sym (key x y) ∙ e ∙ key a b)) d.0,
        h,
      )
      ahead (b ∷ c ∷ m) s h = absurd (omega arith)

  pub left_join-IsDistinct :
      (k : A → ℕ) (l : C → ℕ) (on : A → B → Bool) (f : A → Option B → C) (xs : List A) (bs : List B)
      → ((a : A) (b : Option B) → l (f a b) ≡ k a)
      → ((a : A) → length (select (on a) bs) ≤ 1)
      → IsDistinct k xs
      → IsDistinct l (left_join on f xs bs)
  unfolding left_join
  left_join-IsDistinct k l on f [] bs key one d = tt
  left_join-IsDistinct k l on f (a ∷ xs) bs key one d =
      ahead (select (on a) bs) (one a) (left_join-IsDistinct k l on f xs bs key one d.1)
    where
      others : (b : Option B) → All (λ c. l c ≢ l (f a b)) (left_join on f xs bs)
      others b =
          All-left_join (λ x. k x ≢ k a) (λ c. l c ≢ l (f a b)) on f xs bs
            (λ x y n e. n (sym (key x y) ∙ e ∙ key a b)) d.0

      ahead :
          (m : List B)
          → length m ≤ 1
          → IsDistinct l (left_join on f xs bs)
          → IsDistinct l (map (f a) (or_null m) ++ left_join on f xs bs)
      ahead [] s h = (others none, h)
      ahead (b ∷ []) s h = (others (some b), h)
      ahead (b ∷ c ∷ m) s h = absurd (omega arith)

  -- An outer join with one row at most is as long as the table on its left.
  pub length-left_join :
      (on : A → B → Bool) (f : A → Option B → C) (xs : List A) (bs : List B)
      → ((a : A) → length (select (on a) bs) ≤ 1)
      → length (left_join on f xs bs) ≡ length xs
  unfolding left_join
  length-left_join on f [] bs one = refl
  length-left_join on f (a ∷ xs) bs one =
      ahead (select (on a) bs) (one a) (length-left_join on f xs bs one)
    where
      ahead :
          (m : List B)
          → length m ≤ 1
          → length (left_join on f xs bs) ≡ length xs
          → length (map (f a) (or_null m) ++ left_join on f xs bs) ≡ suc (length xs)
      ahead [] s h = omega (arith, h)
      ahead (b ∷ []) s h = omega (arith, h)
      ahead (b ∷ c ∷ m) s h = absurd (omega arith)

module _ {B : Type 0} (k : B → ℕ) (p : B → Bool) (n : ℕ)
    (key : (b : B) → p b ≡ true → k b ≡ n) where
  select_none : (bs : List B) → All (λ b. k b ≢ n) bs → length (select p bs) ≤ 0
  unfolding select
  select_none [] h = omega arith
  select_none (b ∷ bs) h = elim (Bool-cases (p b)) [
    | inl t ↦ absurd (h.0 (key b t))
    | inr f ↦ rw f (select_none bs h.1)
  ]

  -- At most one row has a given primary key.
  pub select_one : (bs : List B) → IsDistinct k bs → length (select p bs) ≤ 1
  unfolding select
  select_one [] d = omega arith
  select_one (b ∷ bs) d = elim (Bool-cases (p b)) [
    | inl t ↦
        rw t (omega (arith, select_none bs (subst (λ m. All (λ y. k y ≢ m) bs) (key b t) d.0)))
    | inr f ↦ rw f (select_one bs d.1)
  ]
