-- ===== src/Results/Pages.antt =====
-- A walk through the pages of a list of results, as a client makes it.
use mathlib.Core.List.{map-append, append_assoc}
use mathlib.Core.Path.{subst, fun_ext}
use cv_evaluator.Prelude.{
  ℕ, zero, suc, ◌+◌, ◌<◌, ◌≡◌, refl, sym, ap, ◌∙◌, Bool, true, false, Option, none, some, List, [],
  ◌∷◌, ◌++◌, map, arith, inl, inr, Bool-cases, ltb, length, take, length-take, take-all, take-take,
  length-append, split, All, if◌then◌else◌,
}
use cv_evaluator.Prelude.Int.{pos}
use cv_evaluator.Prelude.Text.{Text, text_eq}
use cv_evaluator.Prelude.Table.{length-order_by, select, order_by, first_where}
use cv_evaluator.Prelude.Keyset.{order_by-past, All-order_by}
use cv_evaluator.Pipeline.Failure.{Result, ok, err}
use cv_evaluator.Results.Params.{ListParams, ResultsError, normalize, sort_newest}
use cv_evaluator.Results.Valid.{at, at_ok, normalize-at, normalize-IsValid}
use cv_evaluator.Results.Rows.{
  Database, ListRow, filtered, matches, with_evaluations, list_before, pair_lt, sort_key, score_key,
}
use cv_evaluator.Results.Lists.{
  Listed, Page, result, list, required, page_of, query_page, follows, follows_scored, after,
  is_owned, nat_of, list_normal, queried, cursor_row,
}
use cv_evaluator.Results.Keys.{
  IsKeyed, IsFound, row_id, listed-IsDistinct, length-listed, listed-IsFound,
}

abbrev last_id : List Listed → Option ℕ
last_id [] = none
last_id (x ∷ []) = some x.id
last_id (x ∷ y ∷ xs) = last_id (y ∷ xs)

abbrev joined : List Listed → Option (List Listed) → Option (List Listed)
joined xs none = none
joined xs (some ys) = some (xs ++ ys)

abbrev walked : (Option ℕ → Option (List Listed)) → Result ResultsError Page → Option (List Listed)
walked more (err e) = none
walked more (ok page) =
    if page.has_more then joined page.results (more (last_id page.results)) else some page.results

-- All results of the pages from the one after `s` on, each page asked for with the id of the last
-- result of the one before; `none` if a page is an error, or there are more than `n`.
unfoldable pub walk : ℕ → ℕ → ListParams → Option ℕ → Database → Option (List Listed)
walk zero user p s db = none
walk (suc n) user p s db = walked (λ last. walk n user p last db) (list user (at s p) db)

follows_scored-eq :
    (s t : Option ℕ) (i j : ℕ) → follows_scored s i j t ≡ pair_lt (score_key t) j (score_key s) i
follows_scored-eq none none i j = ground arith
follows_scored-eq none (some t) i j = ground arith
follows_scored-eq (some s) none i j = ground arith
follows_scored-eq (some s) (some t) i j = ground arith

-- The rows past a cursor are those that it comes before.
follows_desc :
    (sort : Text) (c r : ListRow) → follows sort c.row.result r.row.result ≡ list_before sort c r
unfolding follows sort_key
follows_desc sort c r = elim (Bool-cases (text_eq sort sort_newest)) [
  | inl t ↦ rw t refl
  | inr f ↦ rw f (
      follows_scored-eq c.row.result.overall_score r.row.result.overall_score c.row.result.id
        r.row.result.id)
]

-- A page of the rows that are left.
page_of_rest :
    (total limit : ℕ) (ys : List ListRow)
    → page_of total limit (take (limit + 1) ys) ≡ record {
      results = map result (take limit ys);
      has_more = ltb limit (length ys);
      total_count = total;
    }
unfolding page_of
page_of_rest total limit ys =
    ap (λ n. page_of total limit (take n ys)) (plus_one limit)
    ∙ ap (λ b. page b (if b then take limit (take (suc limit) ys) else take (suc limit) ys)) more
    ∙ chosen (ltb limit (length ys)) refl
  where
    plus_one : (n : ℕ) → n + 1 ≡ suc n
    plus_one n = omega arith

    page : Bool → List ListRow → Page
    page b l = record { results = map result l; has_more = b; total_count = total }

    more : ltb limit (length (take (suc limit) ys)) ≡ ltb limit (length ys)
    more = ground (arith, length-take (suc limit) ys)

    chosen :
        (b : Bool)
        → ltb limit (length ys) ≡ b
        → page b (if b then take limit (take (suc limit) ys) else take (suc limit) ys)
          ≡ page b (take limit ys)
    chosen true h = ap (page true) (take-take limit ys)
    chosen false h =
        ap (page false)
          (take-all (suc limit) ys (ground arith) ∙ sym (take-all limit ys (ground arith)))

take-mid :
    (xs ys : List ListRow) (c : ListRow) → take (suc (length xs)) (xs ++ c ∷ ys) ≡ xs ++ c ∷ []
take-mid [] ys c = refl
take-mid (x ∷ xs) ys c = ap (λ (l : List ListRow). x ∷ l) (take-mid xs ys c)

last_id-append :
    (xs : List ListRow) (c : ListRow) → last_id (map result (xs ++ c ∷ [])) ≡ some (row_id c)
unfolding result
last_id-append [] c = refl
last_id-append (x ∷ []) c = refl
last_id-append (x ∷ y ∷ xs) c = last_id-append (y ∷ xs) c

All-mid : (P : ListRow → Type 0) (xs ys : List ListRow) (c : ListRow) → All P (xs ++ c ∷ ys) → P c
All-mid P [] ys c h = h.0
All-mid P (x ∷ xs) ys c h = All-mid P xs ys c h.1

module _ (user : ℕ) (p q : ListParams) (db : Database) (keyed : IsKeyed db)
    (valid : normalize p ≡ ok q) (has : required user q.job_search_id db.searches ≡ true) where
  abbrev rows : List ListRow
  rows = with_evaluations db.store.evaluations (filtered user q db)

  abbrev ordered : List ListRow
  ordered = order_by (list_before q.sort) rows

  abbrev IsPage : Option ℕ → List ListRow → Type 0
  IsPage s ys =
      list user (at s p) db
      ≡ ok (page_of (length (filtered user q db)) (nat_of q.limit) (take (nat_of q.limit + 1) ys))

  list-at : (s : Option ℕ) → list user (at s p) db ≡ query_page user (at s q) db
  unfolding list
  list-at s =
      ap (list_normal user db) (normalize-at s p ∙ ap (at_ok s) valid)
      ∙ ap (λ b. if b then query_page user (at s q) db else err ResultsError.search_not_found) has

  first-IsPage : IsPage none ordered
  unfolding after filtered matches
  first-IsPage = list-at none

  next-IsPage :
      (xs ys : List ListRow) (c : ListRow) → ordered ≡ xs ++ c ∷ ys → IsPage (some (row_id c)) ys
  unfolding after filtered matches
  next-IsPage xs ys c e =
      list-at (some (row_id c))
      ∙ ap (λ o. queried total q (cursor_row q.sort rows o)) found
      ∙ ap (λ l. ok (page_of total (nat_of q.limit) (take (nat_of q.limit + 1) l)))
          (ap (λ f. order_by (list_before q.sort) (select f rows))
              (fun_ext (λ x. follows_desc q.sort c x))
            ∙ order_by-past (λ (x : ListRow). sort_key q.sort x.row.result) row_id rows xs ys c
                (listed-IsDistinct db keyed user q) e)
    where
      total : ℕ
      total = length (filtered user q db)

      Found : ListRow → Type 0
      Found x = IsFound user db.results x.row.result

      found : first_where (is_owned user (row_id c)) db.results ≡ some c.row.result
      found = All-mid Found xs ys c (
          subst (All Found) e (
            All-order_by (λ (x : ListRow). sort_key q.sort x.row.result) row_id Found rows
              (listed-IsFound db user q keyed.results)))

  walk-rest :
      (n m : ℕ) (s : Option ℕ) (xs ys : List ListRow)
      → q.limit ≡ pos (suc m)
      → ordered ≡ xs ++ ys
      → IsPage s ys
      → length ys < n
      → walk n user p s db ≡ some (map result ys)
  unfolding walk
  walk-rest zero m s xs ys l e here h = elim h [ ]
  walk-rest (suc n) m s xs ys l e here h =
      ap (walked more) (
        here
        ∙ ap (λ k. ok (page_of total (nat_of k) (take (nat_of k + 1) ys))) l
        ∙ ap (λ x. ok x) (page_of_rest total (suc m) ys))
      ∙ elim (Bool-cases (ltb (suc m) (length ys))) [
        | inr last ↦ rw last (ap (λ l. some (map result l)) (take-all (suc m) ys (ground arith)))
        | inl longer ↦
            let (f, c, r, mid, long) = split m ys (ground arith) in
            let page : take (suc m) ys ≡ f ++ c ∷ [] =
              ap (take (suc m)) mid
              ∙ ap (λ k. take (suc k) (f ++ c ∷ r)) (sym long)
              ∙ take-mid f r c in
            let split_here : ordered ≡ (xs ++ f) ++ c ∷ r =
              e ∙ ap (λ t. xs ++ t) mid ∙ sym (append_assoc xs f (c ∷ r)) in
            let moved : ordered ≡ ((xs ++ f) ++ c ∷ []) ++ r =
              split_here ∙ sym (append_assoc (xs ++ f) (c ∷ []) r) in
            let shorter : length r < n =
              omega (arith, ap (length {A = ListRow}) mid, length-append f (c ∷ r), h) in
            let rest =
              walk-rest n m (some (row_id c)) ((xs ++ f) ++ c ∷ []) r l moved
                (next-IsPage (xs ++ f) r c split_here) shorter in
            rw longer (
              ap (λ t. joined (map result t) (more (last_id (map result t)))) page
              ∙ ap (λ o. joined (map result (f ++ c ∷ [])) (more o)) (last_id-append f c)
              ∙ ap (joined (map result (f ++ c ∷ []))) rest
              ∙ ap (λ t. some t)
                  (sym (map-append result (f ++ c ∷ []) r)
                    ∙ ap (map result) (append_assoc f (c ∷ []) r ∙ sym mid)))
      ]
    where
      total : ℕ
      total = length (filtered user q db)

      more : Option ℕ → Option (List Listed)
      more last = walk n user p last db

-- A walk through the pages, each asked for with the id of the last result of the one before, gives
-- exactly what one unbounded page would: all results that match the filters, in the order of the
-- list. No page is an error, and there are at most as many pages as such results, and one. The
-- tables, whose ids are unique, stay as they are, and the parameters and the search that they name
-- are accepted.
pub walk_lem :
    (user n : ℕ) (p q : ListParams) (db : Database)
    → IsKeyed db
    → normalize p ≡ ok q
    → required user q.job_search_id db.searches ≡ true
    → length (filtered user q db) < n
    → walk n user p none db
      ≡ some (
          map result (
            order_by
              (list_before q.sort)
              (with_evaluations db.store.evaluations (filtered user q db))))
walk_lem user n p q db keyed valid has h =
    let (m, l, k) = (normalize-IsValid p q valid).limit in
    walk-rest user p q db keyed valid has n m none []
      (order_by (list_before q.sort) (with_evaluations db.store.evaluations (filtered user q db))) l
      refl (first-IsPage user p q db keyed valid has)
      (omega (
        arith,
        length-order_by (list_before q.sort)
            (with_evaluations db.store.evaluations (filtered user q db)),
        length-listed db keyed user q,
        h,
      ))
