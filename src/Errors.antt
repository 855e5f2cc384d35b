-- ===== src/Errors.antt =====
-- The error values of internal/webdav/fs.go and internal/files/errors.go, and the mapping between
-- them. `key_locked` is encrypt.ErrKeyLocked behind the wrapper of internal/files/keylocked.go;
-- `store_failure` is any error that the database or the storage driver reports.
use nextcloud_go.Prelude.{ℕ, ◌≡◌, refl, ◌⊎◌, inl, inr}

-- Errors as the files package hands them to its WebDAV callers.
pub data Error : Type 0 where
  not_found not_dir is_dir forbidden parent_missing exists locked bad_request precondition : Error
  conflict method_not_allowed unsupported_media not_implemented : Error
  key_locked invalid_path : Error
  store_failure : ℕ → Error

-- Errors that the stores of the files package return.
pub data FileError : Type 0 where
  not_found exists parent_missing not_dir is_dir invalid_path forbidden etag_conflict : FileError
  name_budget key_locked : FileError
  store_failure : ℕ → FileError

-- mapMeta
unfoldable pub map_meta : FileError → Error
map_meta FileError.not_found = Error.not_found
map_meta FileError.exists = Error.exists
map_meta FileError.parent_missing = Error.parent_missing
map_meta FileError.not_dir = Error.not_dir
map_meta FileError.is_dir = Error.is_dir
map_meta FileError.forbidden = Error.forbidden
map_meta FileError.etag_conflict = Error.precondition
map_meta FileError.name_budget = Error.bad_request
map_meta FileError.key_locked = Error.key_locked
map_meta FileError.invalid_path = Error.invalid_path
map_meta (FileError.store_failure n) = Error.store_failure n

pub data Result {ℓ κ} (E : Type ℓ) (A : Type κ) : Type (ℓ ⊔ κ) where
  ok : A → Result E A
  err : E → Result E A

infixl 10 ◌>>=◌ ◌>>◌
abbrev pub ◌>>=◌ {ℓ κ μ} :
    {E : Type ℓ} {A : Type κ} {B : Type μ} → Result E A → (A → Result E B) → Result E B
ok a >>= f = f a
err e >>= f = err e

abbrev pub ◌>>◌ {ℓ κ} : {E : Type ℓ} {B : Type κ} → Result E (Unit {0}) → Result E B → Result E B
m >> k = m >>= λ _. k

-- A chain that answers came through its first step.
pub >>=-eq_ok {ℓ κ μ} :
    {E : Type ℓ} {A : Type κ} {B : Type μ} (r : Result E A) (f : A → Result E B) (b : B)
    → (r >>= f) ≡ ok b
    → (a : A) × (r ≡ ok a) × (f a ≡ ok b)
>>=-eq_ok (ok a) f b h = (a, refl, h)
>>=-eq_ok (err e) f b h = cc

pub Result-cases {ℓ κ} :
    {E : Type ℓ} {A : Type κ} (r : Result E A) → ((e : E) × (r ≡ err e)) ⊎ ((a : A) × (r ≡ ok a))
Result-cases (ok a) = inr (a, refl)
Result-cases (err e) = inl (e, refl)
