-- ===== src/ApiKeys/Secrets.antt =====
-- The secrets that generateKey gives.
use cv_evaluator.Prelude.{ℕ, zero, suc, ◌+◌, ◌≤◌, ◌≡◌, List, [], ◌∷◌, ◌++◌, length, take, arith}
use cv_evaluator.Prelude.Text.{Text}
use cv_evaluator.Prelude.Table.{select}
use cv_evaluator.Pipeline.Failure.{ForeignError, Result, ok}
use cv_evaluator.ApiKeys.{is_unbiased}

-- The first `m` buffers from the k-th on, one after the other.
abbrev pub stream : (ℕ → List ℕ) → ℕ → ℕ → List ℕ
stream bufs k zero = []
stream bufs k (suc m) = bufs k ++ stream bufs (k + 1) m

-- Every read succeeds, and gives these buffers.
abbrev pub Reads : (ℕ → Result ForeignError (List ℕ)) → (ℕ → List ℕ) → Type 0
Reads read bufs = (k : ℕ) → read k ≡ ok (bufs k)

length-take : (n : ℕ) (xs : List ℕ) → length (take n xs) ≤ n
length-take zero xs = omega arith
length-take (suc n) [] = omega arith
length-take (suc n) (x ∷ xs) = omega (arith, length-take n xs)

module _ (read : ℕ → Result ForeignError (List ℕ)) (bufs : ℕ → List ℕ)
    (reads : Reads read bufs) where
  abbrev drawn : ℕ → ℕ → List ℕ
  drawn k m = select is_unbiased (stream bufs k m)
