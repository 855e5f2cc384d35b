-- ===== src/Wopi/Tokens.antt =====
-- The table wopi_tokens of internal/wopi/store.go, and Mint, Authenticate and resolve of
-- internal/wopi/service.go. The key wraps are calls of the encryption: a parameter says whether
-- there is one to make and whether it fails.
pub mod Mint
pub mod Expiry
use nextcloud_go.Prelude.{
  ℕ, ◌+◌, ◌/◌, ◌%◌, Bool, true, false, not, ◌&&◌, ◌||◌, Option, none, some, List, [], ◌∷◌, ◌++◌,
  Bytes, text, ltb, leb, ◌==◌, ◌=?◌, bytes_equality, if◌then◌else◌, keep, any,
}
use nextcloud_go.Text.{has_prefix, trim_prefix}
use nextcloud_go.Errors.{Error, FileError, Result, ok, err, ◌>>=◌}
use nextcloud_go.Sharing.Public.{IncomingMount}

pub data WopiError : Type 0 where
  not_found is_dir token_not_found invalid_token : WopiError
  webdav : Error → WopiError
  failure : ℕ → WopiError

-- Token; the expiry is in milliseconds.
pub record Token : Type 0 where
  pub token : Bytes
  pub uid : Bytes
  pub file_id : ℕ
  pub can_write : Bool
  pub expires_at : ℕ

abbrev pub TokenTable : Type 0
TokenTable = List Token

-- Insert, under the primary key
unfoldable pub insert : TokenTable → Token → TokenTable × Result WopiError (Unit {0})
insert rows t =
    if t.token =? [] || t.uid =? []
    then (rows, err WopiError.invalid_token)
    else if any (λ r. r.token =? t.token) rows
    then (rows, err (WopiError.failure 0))
    else (rows ++ (t ∷ []), ok tt)

abbrev pub found : Option Token → Result WopiError Token
found none = err WopiError.token_not_found
found (some t) = ok t

-- WHERE token = ? AND expires_at > ?
unfoldable pub valid_row : ℕ → Bytes → TokenTable → Option Token
valid_row now token [] = none
valid_row now token (r ∷ rows) =
    let rest = valid_row now token rows in
    if r.token =? token && ltb now r.expires_at then some r else rest

-- GetByToken
unfoldable pub get_by_token : ℕ → Bytes → TokenTable → Result WopiError Token
get_by_token now token rows =
    if token =? [] then err WopiError.token_not_found else found (valid_row now token rows)

-- Delete
unfoldable pub delete : Bytes → TokenTable → TokenTable
delete token rows = keep (λ r. not (r.token =? token)) rows

-- DeleteExpired
unfoldable pub delete_expired : ℕ → TokenTable → TokenTable
delete_expired now rows = keep (λ r. not (leb r.expires_at now)) rows

-- ExpiredTokens
unfoldable pub expired_tokens : ℕ → TokenTable → List Bytes
expired_tokens now [] = []
expired_tokens now (r ∷ rows) =
    let rest = expired_tokens now rows in if leb r.expires_at now then r.token ∷ rest else rest

-- Run of the job in internal/wopi/gc.go: the table, and the tokens whose key wraps it deletes where
-- there are keys. Key errors are only logged.
unfoldable pub gc : Bool → ℕ → TokenTable → TokenTable × List Bytes
gc keys now rows = (delete_expired now rows, if keys then expired_tokens now rows else [])

-- A row of the file cache, as resolve reads it
pub record FileRow : Type 0 where
  pub user_id : ℕ
  pub path : Bytes
  pub is_dir : Bool

-- A user, as Authenticate and resolve read it
pub record Account : Type 0 where
  pub uid : Bytes
  pub enabled : Bool

-- What the service is made of beside its store; `not_found` is ErrNotFound of the users too. `key_wrap` is
-- none where no key is wrapped, and else whether the wrap succeeds.
pub record Backend : Type 0 where
  pub file_by_id : ℕ → Result FileError FileRow
  pub user_by_id : ℕ → Result WopiError Account
  pub user_by_uid : Bytes → Result WopiError Account
  pub list_incoming : Option (Bytes → Result WopiError (List IncomingMount))
  pub key_wrap : Option Bool
  pub ttl : ℕ

pub record Resolved : Type 0 where
  pub user : Bytes
  pub path : Bytes
  pub perms : ℕ

-- The first mount that holds the path
unfoldable pub in_mounts : Bytes → Bytes → List IncomingMount → Result WopiError Resolved
in_mounts uid p [] = err WopiError.not_found
in_mounts uid p (m ∷ ms) =
    let rest = in_mounts uid p ms in
    if p =? m.owner_path || has_prefix (m.owner_path ++ text "/") p
    then ok
        (record { user = uid; path = m.mount ++ trim_prefix m.owner_path p; perms = m.permissions })
    else rest

abbrev pub through_shares :
    Bytes
    → Bytes
    → Option (Bytes → Result WopiError (List IncomingMount))
    → Result WopiError Resolved
through_shares uid p none = err WopiError.not_found
through_shares uid p (some list) = do ms ← list uid; in_mounts uid p ms

abbrev pub for_owner :
    Backend → Bytes → FileRow → Result WopiError Account → Result WopiError Resolved
for_owner b uid row (err e) = err e
for_owner b uid row (ok owner) =
    if owner.uid =? uid
    then ok (record { user = uid; path = row.path; perms = 3 })
    else through_shares uid row.path b.list_incoming

abbrev pub of_row : Backend → Bytes → Result FileError FileRow → Result WopiError Resolved
of_row b uid (err FileError.not_found) = err WopiError.not_found
of_row b uid (err FileError.key_locked) = err (WopiError.webdav Error.key_locked)
of_row b uid (err e) = err (WopiError.failure 1)
of_row b uid (ok row) =
    if row.is_dir then err WopiError.is_dir else for_owner b uid row (b.user_by_id row.user_id)

-- resolve
unfoldable pub resolve : Backend → Bytes → ℕ → Result WopiError Resolved
resolve b uid file_id = of_row b uid (b.file_by_id file_id)

abbrev pub may_update : ℕ → Bool
may_update perms = perms / 2 % 2 == 1

abbrev pub for_account : Token → Result WopiError Account → Result WopiError Token
for_account t (err WopiError.not_found) = err WopiError.token_not_found
for_account t (err e) = err e
for_account t (ok u) = if u.enabled then ok t else err WopiError.token_not_found

-- Authenticate
unfoldable pub authenticate : Backend → ℕ → Bytes → TokenTable → Result WopiError Token
authenticate b now access_token rows = do
  t ← get_by_token now access_token rows
  for_account t (b.user_by_uid t.uid)

abbrev pub wrapped :
    Token
    → Option Bool
    → TokenTable × Result WopiError (Unit {0})
    → TokenTable × Result WopiError Token
wrapped t wrap (rows, err e) = (rows, err e)
wrapped t none (rows, ok u) = (rows, ok t)
wrapped t (some true) (rows, ok u) = (rows, ok t)
wrapped t (some false) (rows, ok u) = (delete t.token rows, err (WopiError.failure 2))

abbrev pub minted :
    Backend
    → ℕ
    → Bytes
    → ℕ
    → Result WopiError Bytes
    → TokenTable
    → Result WopiError Resolved
    → TokenTable × Result WopiError Token
minted b now uid file_id new_token rows (err e) = (rows, err e)
minted b now uid file_id (err e) rows (ok r) = (rows, err e)
minted b now uid file_id (ok tok) rows (ok r) =
    let t : Token = record {
      token = tok;
      uid = uid;
      file_id = file_id;
      can_write = may_update r.perms;
      expires_at = now + b.ttl;
    } in
    wrapped t b.key_wrap (insert rows t)

-- Mint
unfoldable pub mint :
    Backend
    → ℕ
    → Bytes
    → ℕ
    → Result WopiError Bytes
    → TokenTable
    → TokenTable × Result WopiError Token
mint b now uid file_id new_token rows =
    minted b now uid file_id new_token rows (resolve b uid file_id)
