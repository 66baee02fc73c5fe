-- ===== src/ApiKeys.antt =====
-- internal/services/apikeys: personal API keys. A key is a list of bytes. SHA-256 and the source of
-- random bytes are parameters.
pub mod Secrets
pub mod Access
use cv_evaluator.Prelude.{
  map, ℕ, zero, suc, ◌+◌, ◌-◌, ◌%◌, Bool, true, false, not, ◌&&◌, ◌||◌, Option, none, some, List,
  [], ◌∷◌, ◌++◌, ltb, leb, ◌==◌, is_empty, length, take, if◌then◌else◌,
}
use cv_evaluator.Prelude.Text.{Text, codes, text_eq, trim_space, has_prefix}
use cv_evaluator.Prelude.Table.{order_by, select, update_where, first_where, exists_where}
use cv_evaluator.Models.{is_live, minute}
use cv_evaluator.Pipeline.Failure.{ForeignError, Result, ok, err}

-- KeyPrefix, secretLength, displayPrefixLength, MaxNameLength
abbrev pub key_prefix : Text
key_prefix = codes "sk_live_"

abbrev pub secret_length : ℕ
secret_length = 40

abbrev pub key_length : ℕ
key_length = 48

abbrev pub display_prefix_length : ℕ
display_prefix_length = 12

abbrev pub max_name_length : ℕ
max_name_length = 100

abbrev pub base62 : Text
base62 = codes "0123456789ABCDEFGHIJKLMNOPQRSTUVWXYZabcdefghijklmnopqrstuvwxyz"

-- 256 - (256 % len(base62))
abbrev pub max_unbiased : ℕ
max_unbiased = 248

-- s[i], 0 out of range
unfoldable pub byte_at : Text → ℕ → ℕ
byte_at [] i = 0
byte_at (c ∷ s) zero = c
byte_at (c ∷ s) (suc i) = byte_at s i

-- base62[int(c)%len(base62)]
unfoldable pub digit : ℕ → ℕ
digit c = byte_at base62 (c % 62)

abbrev pub is_unbiased : ℕ → Bool
is_unbiased c = not (leb max_unbiased c)

-- The loop over one buffer: `n` characters are still to be written.
unfoldable pub chars_from : ℕ → List ℕ → Text
chars_from zero buf = []
chars_from (suc n) [] = []
chars_from (suc n) (c ∷ buf) =
    let skip = chars_from (suc n) buf in
    let rest = chars_from n buf in if leb max_unbiased c then skip else digit c ∷ rest

-- What a run of the generator gives: `none` if its fuel is used up.
abbrev pub Generated : Type 0
Generated = Option (Result ForeignError Text)

abbrev pub prepend : Text → Generated → Generated
prepend s none = none
prepend s (some (err e)) = some (err e)
prepend s (some (ok t)) = some (ok (s ++ t))

-- The loop of generateKey: the k-th buffer is read next, and `n` characters are still to be written.
-- One fuel is one buffer.
unfoldable pub generate_from : (ℕ → Result ForeignError (List ℕ)) → ℕ → ℕ → ℕ → Generated
generate_from read fuel k zero = some (ok [])
generate_from read zero k (suc n) = none
generate_from read (suc fuel) k (suc n) = elim (read k) [
  | err e ↦ some (err e)
  | ok buf ↦
      let s = chars_from (suc n) buf in
      prepend s (generate_from read fuel (k + 1) (suc n - length s))
]

-- generateKey
unfoldable pub generate_key : (ℕ → Result ForeignError (List ℕ)) → ℕ → Generated
generate_key read fuel = prepend key_prefix (generate_from read fuel 0 secret_length)

-- A row of the table api_keys
pub record ApiKey : Type 0 where
  pub id : ℕ
  pub created_at : ℕ
  pub updated_at : ℕ
  pub deleted_at : Option ℕ
  pub user_id : ℕ
  pub name : Text
  pub prefix : Text
  pub key_hash : Text
  pub last_used_at : Option ℕ

-- ErrNameRequired, ErrNameTooLong, ErrNotFound, ErrInvalidKey, and the unique index of the hashes
pub data KeyError : Type 0 where
  name_required name_too_long not_found invalid_key duplicate : KeyError

abbrev pub has_hash : Text → ApiKey → Bool
has_hash h k = text_eq k.key_hash h

abbrev pub new_key : (Text → Text) → ℕ → ℕ → ℕ → Text → Text → ApiKey
new_key hash id now user name secret = record {
  id = id;
  created_at = now;
  updated_at = now;
  deleted_at = none;
  user_id = user;
  name = name;
  prefix = take display_prefix_length secret;
  key_hash = hash secret;
  last_used_at = none;
}

-- Create, with the secret that generateKey gave
unfoldable pub create :
    (Text → Text) → ℕ → ℕ → ℕ → Text → Text → List ApiKey → Result KeyError ApiKey × List ApiKey
create hash id now user name secret keys =
    if is_empty (trim_space name)
    then (err KeyError.name_required, keys)
    else if ltb max_name_length (length (trim_space name))
    then (err KeyError.name_too_long, keys)
    else if exists_where (has_hash (hash secret)) keys
    then (err KeyError.duplicate, keys)
    else (
      ok (new_key hash id now user (trim_space name) secret),
      new_key hash id now user (trim_space name) secret ∷ keys,
    )

-- Key, which has no trace of the secret but its prefix
pub record Key : Type 0 where
  pub id : ℕ
  pub name : Text
  pub prefix : Text
  pub created_at : ℕ
  pub last_used_at : Option ℕ

-- toKey
unfoldable pub to_key : ApiKey → Key
to_key k = record {
  id = k.id;
  name = k.name;
  prefix = k.prefix;
  created_at = k.created_at;
  last_used_at = k.last_used_at;
}

-- List: the user's active keys, newest first
unfoldable pub list : ℕ → List ApiKey → List Key
list user keys = map to_key (
    order_by (λ (a : ApiKey) (b : ApiKey). ltb b.created_at a.created_at)
      (select (λ (k : ApiKey). k.user_id == user && is_live k.deleted_at) keys))

abbrev pub is_owned : ℕ → ℕ → ApiKey → Bool
is_owned user id k = (k.id == id && k.user_id == user) && is_live k.deleted_at

-- Delete
unfoldable pub delete : ℕ → ℕ → ℕ → List ApiKey → Option KeyError × List ApiKey
delete now user id keys = (
  if exists_where (is_owned user id) keys then none else some KeyError.not_found,
  update_where (is_owned user id) (λ (k : ApiKey). record k { deleted_at = some now }) keys,
)

-- last_used_at IS NULL OR last_used_at < now - lastUsedResolution
abbrev is_unused : ℕ → Option ℕ → Bool
is_unused now none = true
is_unused now (some t) = ltb (t + minute) now

-- The row that Verify looks for: `live` says which users are not deleted.
abbrev pub grants : (Text → Text) → (ℕ → Bool) → Text → ApiKey → Bool
grants hash live raw k = (has_hash (hash raw) k && live k.user_id) && is_live k.deleted_at

abbrev touch : ℕ → ApiKey → List ApiKey → List ApiKey
touch now k =
    update_where
      (λ (j : ApiKey). (j.id == k.id && is_unused now j.last_used_at) && is_live j.deleted_at)
      (λ (j : ApiKey). record j { last_used_at = some now })

abbrev verified : ℕ → List ApiKey → Option ApiKey → Result KeyError ℕ × List ApiKey
verified now keys none = (err KeyError.invalid_key, keys)
verified now keys (some k) = (ok k.user_id, touch now k keys)

-- Verify
unfoldable pub verify :
    (Text → Text) → (ℕ → Bool) → ℕ → Text → List ApiKey → Result KeyError ℕ × List ApiKey
verify hash live now raw keys =
    if not (has_prefix raw key_prefix) || not (length raw == key_length)
    then (err KeyError.invalid_key, keys)
    else verified now keys (first_where (grants hash live raw) keys)
