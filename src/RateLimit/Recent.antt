-- ===== src/RateLimit/Recent.antt =====
-- The hits of a key, and those of them that are inside the window.
use mathlib.Core.Path.{subst}
use cv_evaluator.Prelude.{
  ℕ, ◌≤◌, ◌≡◌, refl, ap, ◌∙◌, true, List, [], ◌∷◌, ◌++◌, if◌then◌else◌, is_empty, length, arith,
  Bool-cases, inl, inr,
}
use cv_evaluator.Prelude.Text.{Text, text_eq, text_eq→eq, text_eq_refl, text_eq_comm}
use cv_evaluator.RateLimit.{Hits, hits_of, set_hits, recent, sweep}

pub hits_of-set_hits :
    (key j : Text) (ts : List ℕ) (m : Hits)
    → hits_of j (set_hits key ts m) ≡ (if text_eq key j then ts else hits_of j m)
unfolding hits_of set_hits
hits_of-set_hits key j ts [] = refl
hits_of-set_hits key j ts ((k, us) ∷ m) = ground (
  arith,
  hits_of-set_hits key j ts m,
  text_eq→eq k key,
  text_eq_refl j,
  text_eq→eq key j,
  text_eq→eq k j,
  text_eq_refl k,
)

-- What has left the window stays outside.
pub recent-recent : (w s t : ℕ) (ts : List ℕ) → s ≤ t → recent w t (recent w s ts) ≡ recent w t ts
unfolding recent
recent-recent w s t [] h = refl
recent-recent w s t (x ∷ ts) h = ground (arith, recent-recent w s t ts h)

recent-nil : (w t : ℕ) → recent w t [] ≡ []
unfolding recent
recent-nil w t = refl

is_empty-nil : (ts : List ℕ) → is_empty ts ≡ true → ts ≡ []
is_empty-nil [] h = refl
is_empty-nil (t ∷ ts) h = ground arith

pub length-recent : (w t : ℕ) (ts : List ℕ) → length (recent w t ts) ≤ length ts
unfolding recent
length-recent w t [] = omega arith
length-recent w t (x ∷ ts) = ground (arith, length-recent w t ts)

pub recent-append :
    (w t : ℕ) (xs ys : List ℕ)
    → recent w t (xs ++ ys)
      ≡ (if is_empty (recent w t xs) then recent w t ys else recent w t xs ++ ys)
unfolding recent
recent-append w t [] ys = refl
recent-append w t (x ∷ xs) ys = ground (arith, recent-append w t xs ys)

-- No key stands twice in the map.
abbrev pub Unique : Hits → Type 0
Unique [] = Unit
Unique ((k, ts) ∷ m) = (hits_of k m ≡ []) × Unique m

pub set_hits-Unique : (key : Text) (ts : List ℕ) (m : Hits) → Unique m → Unique (set_hits key ts m)
unfolding set_hits
set_hits-Unique key ts [] u = (unfold hits_of in refl, tt)
set_hits-Unique key ts ((k, us) ∷ m) u = elim (Bool-cases (text_eq k key)) [
  | inl t ↦ rw t (subst (λ x. hits_of x m ≡ []) (text_eq→eq k key t) u.0, u.1)
  | inr f ↦ rw f (
    hits_of-set_hits key k ts m
        ∙ ap (λ b. if b then ts else hits_of k m) (text_eq_comm key k ∙ f)
        ∙ u.0,
    set_hits-Unique key ts m u.1,
  )
]

missing-sweep :
    (w s : ℕ) (k : Text) (m : Hits) → Unique m → hits_of k m ≡ [] → hits_of k (sweep w s m) ≡ []
unfolding sweep hits_of recent
missing-sweep w s k [] u h = refl
missing-sweep w s k ((j, ts) ∷ m) u h = ground (arith, missing-sweep w s k m u.1, text_eq→eq j k)

pub sweep-Unique : (w s : ℕ) (m : Hits) → Unique m → Unique (sweep w s m)
unfolding sweep
sweep-Unique w s [] u = tt
sweep-Unique w s ((k, ts) ∷ m) u = elim (Bool-cases (is_empty (recent w s ts))) [
  | inl t ↦ rw t (sweep-Unique w s m u.1)
  | inr f ↦ rw f (missing-sweep w s k m u.1 u.0, sweep-Unique w s m u.1)
]

-- A sweep changes no window.
pub recent-sweep :
    (w s t : ℕ) (key : Text) (m : Hits)
    → s ≤ t
    → Unique m
    → recent w t (hits_of key (sweep w s m)) ≡ recent w t (hits_of key m)
unfolding sweep hits_of
recent-sweep w s t key [] h u = refl
recent-sweep w s t key ((k, ts) ∷ m) h u = ground (
  arith,
  recent-sweep w s t key m h u.1,
  missing-sweep w s k m u.1 u.0,
  recent-recent w s t ts h,
  text_eq→eq k key,
  recent-nil w t,
  is_empty-nil (recent w s ts),
)
