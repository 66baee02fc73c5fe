-- ===== src/Matcher/Lists.antt =====
-- cleanList and cleanRequirements against what they are to compute.
use cv_evaluator.Prelude.{
  ℕ, zero, suc, ◌+◌, ◌≡◌, refl, Bool, not, List, [], ◌∷◌, is_empty, take, map, arith,
}
use cv_evaluator.Prelude.Table.{select}
use cv_evaluator.Prelude.Text.{Text, trim_space}
use cv_evaluator.Matcher.{
  Requirement, clean_list, clean_list_from, normalize, is_well_formed, clean_requirements,
  clean_requirements_from, max_list_items, max_requirements,
}

abbrev pub is_filled : Text → Bool
is_filled t = not (is_empty t)

clean_list_from_lem :
    (items : List Text) (k n : ℕ)
    → n + suc k ≡ max_list_items
    → clean_list_from n items ≡ take (suc k) (select is_filled (map trim_space items))
unfolding clean_list_from select
clean_list_from_lem [] k n h = refl
clean_list_from_lem (item ∷ items) zero n h = ground (arith, clean_list_from_lem items zero n h)
clean_list_from_lem (item ∷ items) (suc k) n h =
    ground (arith, clean_list_from_lem items (suc k) n h, clean_list_from_lem items k (n + 1))

-- The items trimmed, without the empty ones, and of those the first five.
pub clean_list_lem :
    (items : List Text)
    → clean_list items ≡ take max_list_items (select is_filled (map trim_space items))
unfolding clean_list
clean_list_lem items = clean_list_from_lem items 4 0 refl

clean_requirements_from_lem :
    (rs : List Requirement) (k n : ℕ)
    → n + suc k ≡ max_requirements
    → clean_requirements_from n rs ≡ take (suc k) (select is_well_formed (map normalize rs))
unfolding clean_requirements_from select
clean_requirements_from_lem [] k n h = refl
clean_requirements_from_lem (r ∷ rs) zero n h =
    ground (arith, clean_requirements_from_lem rs zero n h)
clean_requirements_from_lem (r ∷ rs) (suc k) n h =
    ground
      (arith, clean_requirements_from_lem rs (suc k) n h, clean_requirements_from_lem rs k (n + 1))

-- The requirements normalised, without the ill-formed ones, and of those the first twenty.
pub clean_requirements_lem :
    (rs : List Requirement)
    → clean_requirements rs ≡ take max_requirements (select is_well_formed (map normalize rs))
unfolding clean_requirements
clean_requirements_lem rs = clean_requirements_from_lem rs 19 0 refl
