-- ===== src/Prelude/Table.antt =====
-- SQL statements over a table, a list of rows: the parts of SELECT, UPDATE, DELETE and
-- INSERT that the program's queries use.
use Prim.Native.Nat.{ℕ, suc}
use mathlib.Core.Path.{◌≡◌, refl, sym, ap, ◌∙◌, subst}
use mathlib.Core.Logic.{◌⊎◌, inl, inr}
use mathlib.Core.Bool.{Bool, true, false}
use mathlib.Core.Option.{Option, none, some}
use mathlib.Core.List.{List, [], ◌∷◌}
use native.Mathlib.Omega.{arith}
use cv_evaluator.Prelude.Tests.{ltb, if◌then◌else◌, Bool-cases, Option-cases}
use cv_evaluator.Prelude.Lists.{In, length}

-- ORDER BY next_attempt_at ASC NULLS FIRST, created_at ASC, id ASC
pub record Key : Type 0 where
  pub next_attempt_at : Option ℕ
  pub created_at : ℕ
  pub id : ℕ

abbrev nulls_first : Option ℕ → ℕ
nulls_first none = 0
nulls_first (some t) = suc t

unfoldable pub key_before : Key → Key → Bool
key_before a b =
    if ltb (nulls_first a.next_attempt_at) (nulls_first b.next_attempt_at)
    then true
    else if ltb (nulls_first b.next_attempt_at) (nulls_first a.next_attempt_at)
    then false
    else if ltb a.created_at b.created_at
    then true
    else if ltb b.created_at a.created_at
    then false
    else ltb a.id b.id

pub key_before_asym : (a b : Key) → key_before a b ≡ true → key_before b a ≡ false
unfolding key_before
key_before_asym a b h = ground arith

pub key_before_neg_trans :
    (a b c : Key) → key_before a b ≡ false → key_before b c ≡ false → key_before a c ≡ false
unfolding key_before
key_before_neg_trans a b c h k = ground arith

module _ {R : Type 0} where
  -- WHERE p
  unfoldable pub select : (R → Bool) → List R → List R
  select p [] = []
  select p (r ∷ rs) = let rest = select p rs in if p r then r ∷ rest else rest

  -- UPDATE ... SET f WHERE p
  unfoldable pub update_where : (R → Bool) → (R → R) → List R → List R
  update_where p f [] = []
  update_where p f (r ∷ rs) = (if p r then f r else r) ∷ update_where p f rs

  abbrev earlier : (R → R → Bool) → R → Option R → Option R
  earlier before r none = some r
  earlier before r (some s) = if before s r then some s else some r

  -- The first row in the order `before` (ORDER BY ... LIMIT 1).
  unfoldable pub least : (R → R → Bool) → List R → Option R
  least before [] = none
  least before (r ∷ rs) = earlier before r (least before rs)

  -- RowsAffected of a statement WHERE p
  unfoldable pub count_where : (R → Bool) → List R → ℕ
  count_where p [] = 0
  count_where p (r ∷ rs) = if p r then suc (count_where p rs) else count_where p rs

  abbrev pub placed : (R → R → Bool) → R → List R → List R
  placed before r [] = r ∷ []
  placed before r (s ∷ rs) = if before s r then s ∷ placed before r rs else r ∷ s ∷ rs

  -- The rows in the order `before` (ORDER BY); rows that tie keep the table's order.
  unfoldable pub order_by : (R → R → Bool) → List R → List R
  order_by before [] = []
  order_by before (r ∷ rs) = placed before r (order_by before rs)

  -- Whether a row meets the condition
  unfoldable pub exists_where : (R → Bool) → List R → Bool
  exists_where p [] = false
  exists_where p (r ∷ rs) = if p r then true else exists_where p rs

  -- The first of the rows that meet it
  unfoldable pub first_where : (R → Bool) → List R → Option R
  first_where p [] = none
  first_where p (r ∷ rs) = if p r then some r else first_where p rs

  length-placed :
      (before : R → R → Bool) (r : R) (rs : List R) → length (placed before r rs) ≡ suc (length rs)
  length-placed before r [] = refl
  length-placed before r (s ∷ rs) = ground (arith, length-placed before r rs)

  pub length-order_by :
      (before : R → R → Bool) (rs : List R) → length (order_by before rs) ≡ length rs
  unfolding order_by
  length-order_by before [] = refl
  length-order_by before (r ∷ rs) =
      length-placed before r (order_by before rs) ∙ ap suc (length-order_by before rs)

  pub first-exists :
      (p q : R → Bool) (rs : List R) (r : R)
      → first_where p rs ≡ some r
      → ((s : R) → p s ≡ true → q s ≡ true)
      → exists_where q rs ≡ true
  unfolding first_where exists_where
  first-exists p q [] r h f = cc
  first-exists p q (s ∷ rs) r h f = elim (Bool-cases (p s)) [
    | inl t ↦ rw (f s t)
    | inr u ↦
        let rest =
          first-exists p q rs r (subst (λ b. (if b then some s else first_where p rs) ≡ some r) u h)
            f in
        elim (Bool-cases (q s)) [ inl x ↦ rw x | inr x ↦ rw x rest ]
  ]

  In-head :
      (b : Bool) (r s : R) (l : List R)
      → In r (if b then s ∷ l else l)
      → ((r ≡ s) × (b ≡ true)) ⊎ In r l
  In-head true r s l (inl e) = inl (e, refl)
  In-head true r s l (inr h) = inr h
  In-head false r s l h = inr h

  pub In-select : (p : R → Bool) (r : R) (rs : List R) → In r (select p rs) → In r rs × (p r ≡ true)
  unfolding select
  In-select p r [] h = elim h [ ]
  In-select p r (s ∷ rs) h = elim (In-head (p s) r s (select p rs) h) [
    | inl (e, t) ↦ (inl e, rw e t)
    | inr m ↦ (inr (In-select p r rs m).0, (In-select p r rs m).1)
  ]

  pub select-In : (p : R → Bool) (r : R) (rs : List R) → In r rs → p r ≡ true → In r (select p rs)
  unfolding select
  select-In p r [] h t = elim h [ ]
  select-In p r (s ∷ rs) (inl e) t = let u : p s ≡ true = rw (← e) t in rw u (inl e)
  select-In p r (s ∷ rs) (inr h) t = elim (Bool-cases (p s)) [
    | inl u ↦ rw u (inr (select-In p r rs h t))
    | inr u ↦ rw u (select-In p r rs h t)
  ]

  -- A row after an UPDATE is a row of before, changed if it met the condition.
  pub In-update_where :
      (p : R → Bool) (f : R → R) (r : R) (rs : List R)
      → In r (update_where p f rs)
      → (s : R) × In s rs × (r ≡ (if p s then f s else s))
  unfolding update_where
  In-update_where p f r [] h = elim h [ ]
  In-update_where p f r (s ∷ rs) (inl e) = (s, inl refl, e)
  In-update_where p f r (s ∷ rs) (inr h) =
      let (t, i, e) = In-update_where p f r rs h in (t, inr i, e)

  pub update_where-In :
      (p : R → Bool) (f : R → R) (s : R) (rs : List R)
      → In s rs
      → In (if p s then f s else s) (update_where p f rs)
  unfolding update_where
  update_where-In p f s [] h = elim h [ ]
  update_where-In p f s (t ∷ rs) (inl e) = inl (rw e refl)
  update_where-In p f s (t ∷ rs) (inr h) = inr (update_where-In p f s rs h)

  earlier-cases :
      (before : R → R → Bool) (s : R) (o : Option R) {r : R}
      → earlier before s o ≡ some r
      → (s ≡ r) ⊎ (o ≡ some r)
  earlier-cases before s none h = ground arith
  earlier-cases before s (some t) h = ground arith

  pub least-In : (before : R → R → Bool) (rs : List R) (r : R) → least before rs ≡ some r → In r rs
  unfolding least
  least-In before [] r h = ground arith
  least-In before (s ∷ rs) r h = elim (earlier-cases before s (least before rs) h) [
    | inl e ↦ inl (sym e)
    | inr m ↦ inr (least-In before rs r m)
  ]

  -- A choice is made whenever there is a row.
  pub least-none : (before : R → R → Bool) (rs : List R) → least before rs ≡ none → rs ≡ []
  unfolding least
  least-none before [] h = refl
  least-none before (r ∷ rs) h = ground arith

  module _ (before : R → R → Bool) (asym : (a b : R) → before a b ≡ true → before b a ≡ false)
      (neg_trans : (a b c : R) → before a b ≡ false → before b c ≡ false → before a c ≡ false) where
    irrefl : (a : R) → before a a ≡ false
    irrefl a = elim (Bool-cases (before a a)) [ inl t ↦ asym a a t | inr f ↦ f ]

    earlier-head : (q : R) (o : Option R) (r : R) → earlier before q o ≡ some r → before q r ≡ false
    earlier-head q none r h = ground (arith, irrefl q)
    earlier-head q (some t) r h = ground (arith, asym t q, irrefl q)

    earlier-tail : (q : R) (t : R) (r : R) → earlier before q (some t) ≡ some r → before t r ≡ false
    earlier-tail q t r h = ground (arith, irrefl t)

    -- No row of the list comes before the chosen one.
    pub least_minimal :
        (rs : List R) (s r : R) → least before rs ≡ some r → In s rs → before s r ≡ false
    unfolding least
    least_minimal [] s r h m = elim m [ ]
    least_minimal (q ∷ rs) s r h (inl e) = rw e (earlier-head q (least before rs) r h)
    least_minimal (q ∷ rs) s r h (inr m) = elim (Option-cases (least before rs)) [
      | inl n ↦ absurd (elim (subst (In s) (least-none before rs n) m) [ ])
      | inr (t, e) ↦
          neg_trans s t r (least_minimal rs s t e m)
            (earlier-tail q t r (subst (λ o. earlier before q o ≡ some r) e h))
    ]
