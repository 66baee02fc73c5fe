-- ===== src/Account/Ids.antt =====
-- Subqueries of ids, and the rows that a DELETE leaves.
use mathlib.Core.Path.{subst}
use cv_evaluator.Prelude.{
  ℕ, ◌≡◌, ◌↔◌, refl, sym, ap, ◌∙◌, Bool, true, false, not, List, [], ◌∷◌, map, ◌==◌, arith, inl,
  inr, Bool-cases, All, In,
}
use cv_evaluator.Prelude.Table.{In-select, select-In, select, exists_where}
use cv_evaluator.Account.{id_in, without}

module _ {R : Type 0} (key : R → ℕ) (p : R → Bool) where
  -- The id of a chosen row is in the subquery.
  pub id_in-select :
      (x : R) (rows : List R)
      → In x rows
      → p x ≡ true
      → id_in (key x) (map key (select p rows)) ≡ true
  unfolding id_in select
  id_in-select x [] i h = elim i [ ]
  id_in-select x (y ∷ rows) (inl e) h =
      let h' : p y ≡ true = ap p (sym e) ∙ h in
      let k : key y ≡ key x = ap key (sym e) in rw h' (ground (arith, k))
  id_in-select x (y ∷ rows) (inr i) h = ground (arith, id_in-select x rows i h)

  -- An id in the subquery is that of a chosen row.
  pub select-id_in :
      (n : ℕ) (rows : List R)
      → id_in n (map key (select p rows)) ≡ true
      → (x : R) × In x rows × (p x ≡ true) × (key x ≡ n)
  unfolding id_in select
  select-id_in n [] h = absurd (ground arith)
  select-id_in n (y ∷ rows) h = elim (Bool-cases (p y)) [
    | inr f ↦ let (x, i, t, e) = select-id_in n rows (ground (arith, f)) in (x, inr i, t, e)
    | inl t ↦ elim (Bool-cases (key y == n)) [
      | inl e ↦ (y, inl refl, t, ground arith)
      | inr f ↦ let (x, i, u, e) = select-id_in n rows (ground (arith, t, f)) in (x, inr i, u, e)
    ]
  ]

  -- A row that others refer to stays, if its id is not in the subquery.
  pub exists-without :
      (n : ℕ) (rows : List R)
      → exists_where (λ x. key x == n) rows ≡ true
      → id_in n (map key (select p rows)) ≡ false
      → exists_where (λ x. key x == n) (without p rows) ≡ true
  unfolding id_in select exists_where
  exists-without n [] h f = absurd (ground arith)
  exists-without n (y ∷ rows) h f = ground (arith, exists-without n rows)

module _ {R : Type 0} (p : R → Bool) where
  pub All-without :
      (P : R → Type 0) (rows : List R)
      → All P rows
      → All (λ r. P r × (p r ≡ false)) (without p rows)
  unfolding select
  All-without P [] h = tt
  All-without P (x ∷ rows) h = elim (Bool-cases (p x)) [
    | inl t ↦ rw t (All-without P rows h.1)
    | inr f ↦ rw f ((h.0, f), All-without P rows h.1)
  ]

  pub All-left : (rows : List R) → All (λ r. p r ≡ false) (without p rows)
  unfolding select
  All-left [] = tt
  All-left (x ∷ rows) = elim (Bool-cases (p x)) [
    | inl t ↦ rw t (All-left rows)
    | inr f ↦ rw f (f, All-left rows)
  ]

  -- What no deleted row has, is still there.
  pub exists-kept :
      (q : R → Bool) (rows : List R)
      → ((r : R) → q r ≡ true → p r ≡ false)
      → exists_where q rows ≡ true
      → exists_where q (without p rows) ≡ true
  unfolding select exists_where
  exists-kept q [] d h = absurd (ground arith)
  exists-kept q (x ∷ rows) d h = ground (arith, d x, exists-kept q rows d)

-- Whether an id is in the subquery is whether it is that of a row which is chosen.
pub id_in-false :
    {R : Type 0} (key : R → ℕ) (p : R → Bool) (P : R → Type 0) (n : ℕ) (rows : List R)
    → ((x : R) → p x ≡ false → P x)
    → id_in n (map key (select p rows)) ≡ false
    → (x : R) → In x rows
    → n ≡ key x
    → P x
id_in-false key p P n rows apart f x i e = elim (Bool-cases (p x)) [
  | inr g ↦ apart x g
  | inl t ↦
      cc (subst (λ m. id_in m (map key (select p rows)) ≡ false) e f, id_in-select key p x rows i t)
]

-- The rows that a DELETE leaves, by what they have in common.
pub In-without :
    {R : Type 0} (p : R → Bool) (P : R → Type 0) (rows : List R)
    → ((x : R) → p x ≡ false → P x)
    → ((x : R) → p x ≡ true → ¬ P x)
    → (x : R) → In x (without p rows) ↔ (In x rows × P x)
In-without p P rows yes' no' x = (
  λ i. let (j, t) = In-select (λ r. not (p r)) x rows i in (j, yes' x (not_true (p x) t)),
  λ h. select-In (λ r. not (p r)) x rows h.0 (not_false (p x) (apart (p x) refl h.1)),
)
  where
    not_true : (b : Bool) → not b ≡ true → b ≡ false
    not_true b t = ground arith

    not_false : (b : Bool) → b ≡ false → not b ≡ true
    not_false b t = ground arith

    apart : (b : Bool) → p x ≡ b → P x → p x ≡ false
    apart true e h = absurd (no' x e h)
    apart false e h = e
