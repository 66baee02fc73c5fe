-- ===== src/ApiKeys/Access.antt =====
-- Which keys Verify accepts.
use mathlib.Core.Path.{subst}
use cv_evaluator.Prelude.{
  ℕ, ◌≡◌, refl, sym, ap, ◌∙◌, Bool, true, false, Option, none, some, List, [], ◌∷◌, length,
  if◌then◌else◌, arith, Bool-cases, inl, inr, In,
}
use cv_evaluator.Prelude.Text.{Text, text_eq_refl, text_eq→eq, trim_space, has_prefix}
use cv_evaluator.Prelude.Table.{update_where, first_where, In-update_where}
use cv_evaluator.Pipeline.Failure.{ok, err}
use cv_evaluator.ApiKeys.{
  ApiKey, KeyError, key_prefix, key_length, new_key, create, is_owned, delete, grants, verified,
  verify,
}

-- The row was created for this key and not revoked, and its owner's account exists.
abbrev pub Grants : (Text → Text) → (ℕ → Bool) → Text → ApiKey → Type 0
Grants hash live raw k = (k.key_hash ≡ hash raw) × (live k.user_id ≡ true) × (k.deleted_at ≡ none)

first-holds :
    (p : ApiKey → Bool) (keys : List ApiKey) (k : ApiKey)
    → first_where p keys ≡ some k
    → In k keys × (p k ≡ true)
unfolding first_where
first-holds p [] k h = absurd (ground arith)
first-holds p (r ∷ keys) k h = elim (Bool-cases (p r)) [
  | inl t ↦ let e : r ≡ k = ground arith in (inl (sym e), ap p (sym e) ∙ t)
  | inr f ↦ let (i, q) = first-holds p keys k (ground arith) in (inr i, q)
]

first-none :
    (p : ApiKey → Bool) (keys : List ApiKey)
    → ((k : ApiKey) → In k keys → p k ≡ false)
    → first_where p keys ≡ none
unfolding first_where
first-none p [] h = refl
first-none p (r ∷ keys) h = rw (h r (inl refl)) (first-none p keys (λ k i. h k (inr i)))

verified-ok :
    (now : ℕ) (keys : List ApiKey) (o : Option ApiKey) (user : ℕ)
    → (verified now keys o).0 ≡ ok user
    → (k : ApiKey) × (o ≡ some k) × (k.user_id ≡ user)
verified-ok now keys none user h = absurd (ground arith)
verified-ok now keys (some k) user h = (k, refl, ground arith)

module _ (hash : Text → Text) (live : ℕ → Bool) where
  grants→Grants : (raw : Text) (k : ApiKey) → grants hash live raw k ≡ true → Grants hash live raw k
  grants→Grants raw k h =
      (text_eq→eq k.key_hash (hash raw) (ground arith), ground arith, ground arith)

  -- A key is accepted for a user only if the hash of the key is that of a row of this user which has
  -- not been revoked, and the user's account exists.
  pub verify-ok :
      (now user : ℕ) (raw : Text) (keys : List ApiKey)
      → (verify hash live now raw keys).0 ≡ ok user
      → (k : ApiKey) × In k keys × Grants hash live raw k × (k.user_id ≡ user)
  unfolding verify
  verify-ok now user raw keys h =
      let passed : (verified now keys (first_where (grants hash live raw) keys)).0 ≡ ok user =
        ground arith in
      let (k, e, owner) =
        verified-ok now keys (first_where (grants hash live raw) keys) user passed in
      let (i, q) = first-holds (grants hash live raw) keys k e in
      (k, i, grants→Grants raw k q, owner)

  -- A secret with the prefix and the length of one, for which a key was created, is accepted and
  -- gives the user it was created for, as long as the account exists.
  pub verify-create :
      (id now user later : ℕ) (name secret : Text) (keys keys' : List ApiKey) (k : ApiKey)
      → create hash id now user name secret keys ≡ (ok k, keys')
      → has_prefix secret key_prefix ≡ true
      → length secret ≡ key_length
      → live user ≡ true
      → (verify hash live later secret keys').0 ≡ ok user
  unfolding create verify first_where
  verify-create id now user later name secret keys keys' k h prefixed long exists =
      let rows : new_key hash id now user (trim_space name) secret ∷ keys ≡ keys' = ground arith in
      subst (λ x. (verify hash live later secret x).0 ≡ ok user) rows
        (ground (arith, text_eq_refl (hash secret)))

  -- A key that its owner has deleted is refused from then on, if no two rows have the same hash (the
  -- unique index).
  pub verify-delete :
      (now later : ℕ) (raw : Text) (keys : List ApiKey) (k : ApiKey)
      → ((i j : ApiKey) → In i keys → In j keys → i.key_hash ≡ j.key_hash → i ≡ j)
      → In k keys
      → k.deleted_at ≡ none
      → k.key_hash ≡ hash raw
      → (verify hash live later raw (delete now k.user_id k.id keys).1).0 ≡ err KeyError.invalid_key
  unfolding verify delete
  verify-delete now later raw keys k unique i undeleted hashed =
      let revoke = λ (j : ApiKey). record j { deleted_at = some now } in
      let rows = update_where (is_owned k.user_id k.id) revoke keys in
      let refused : first_where (grants hash live raw) rows ≡ none =
        first-none (grants hash live raw) rows
          (λ r m. refuses r (In-update_where (is_owned k.user_id k.id) revoke r keys m)) in
      ground (arith, refused)
    where
      clash : false ≡ true → ⊥
      clash h = cc

      revoked : (j : ApiKey) → grants hash live raw (record j { deleted_at = some now }) ≡ false
      revoked j = ground arith

      owned : is_owned k.user_id k.id k ≡ true
      owned = ground arith

      refuses :
          (r : ApiKey)
          → (s : ApiKey) × In s keys
            × (r ≡ (if is_owned k.user_id k.id s then record s { deleted_at = some now } else s))
          → grants hash live raw r ≡ false
      refuses r (s, m, e) = elim (Bool-cases (is_owned k.user_id k.id s)) [
        | inl t ↦
            ap (grants hash live raw)
              (e ∙ ap (λ b. if b then record s { deleted_at = some now } else s) t)
            ∙ revoked s
        | inr f ↦
            let same_row : r ≡ s =
              e ∙ ap (λ b. if b then record s { deleted_at = some now } else s) f in
            elim (Bool-cases (grants hash live raw s)) [
              | inr n ↦ ap (grants hash live raw) same_row ∙ n
              | inl t ↦
                  let same = unique s k m i ((grants→Grants raw s t).0 ∙ sym hashed) in
                  absurd (clash (sym f ∙ ap (is_owned k.user_id k.id) same ∙ owned))
            ]
      ]
