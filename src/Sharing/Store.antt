-- ===== src/Sharing/Store.antt =====
-- files.Share of internal/files/sharestore.go and the statements of SQLShareStore of
-- internal/sharing/sqlstore.go on the table shares. The rows stand in the order of their ids, which
-- is the order of insertion; the database answers every statement.
pub mod Rows
pub mod Valid
use nextcloud_go.Prelude.{
  ℕ, zero, suc, ◌+◌, Bool, true, false, not, ◌&&◌, ◌||◌, Option, none, some, List, [], ◌∷◌, ◌++◌,
  Bytes, ltb, leb, ◌==◌, ◌=?◌, bytes_equality, if◌then◌else◌, keep, any, map, contains, ℤ, pos,
  negsuc,
}
use nextcloud_go.Text.{has_prefix, trim_prefix}
use nextcloud_go.Errors.{Error, Result, ok, err, ◌>>=◌}
use nextcloud_go.Files.Path.{normalize_path}

-- The errors of the package, with those of files, users and webdav that it hands on.
pub data ShareError : Type 0 where
  not_found user_not_found exists invalid_path bad_share_type bad_permissions : ShareError
  bad_expire bad_share_with unauthorized cannot_federate hasher_required : ShareError
  invalid_share no_meta_seam inconsistent_row : ShareError
  webdav : Error → ShareError
  failure : ℕ → ShareError

abbrev pub share_type_user : ℕ
share_type_user = 0

abbrev pub share_type_group : ℕ
share_type_group = 1

abbrev pub share_type_link : ℕ
share_type_link = 3

abbrev pub share_type_remote : ℕ
share_type_remote = 6

pub record Share : Type 0 where
  pub id : ℕ
  pub owner_user_id : ℕ
  pub share_type : ℕ
  pub path : Bytes
  pub item_type : Bytes
  pub token : Bytes
  pub password_hash : Bytes
  pub permissions : ℕ
  pub label : Bytes
  pub expire_ms : ℤ
  pub stime_ms : ℕ
  pub share_with : Bytes
  pub accepted : ℕ
  pub mount_name_enc : Bytes
  pub abs_path_enc : Bytes

pub record ShareTable : Type 0 where
  pub rows : List Share
  pub next_id : ℕ

abbrev pub found : Option Share → Result ShareError Share
found none = err ShareError.not_found
found (some sh) = ok sh

-- The first row of a SELECT
unfoldable pub first_row : (Share → Bool) → List Share → Option Share
first_row p [] = none
first_row p (r ∷ rows) = let rest = first_row p rows in if p r then some r else rest

-- GetByID
unfoldable pub get_by_id : ShareTable → ℕ → Result ShareError Share
get_by_id t id =
    if id == 0 then err ShareError.not_found else found (first_row (λ r. r.id == id) t.rows)

-- GetByToken
unfoldable pub get_by_token : ShareTable → Bytes → Result ShareError Share
get_by_token t token =
    if token =? []
    then err ShareError.not_found
    else found (first_row (λ r. r.token =? token) t.rows)

-- INSERT INTO shares, under UNIQUE (token)
unfoldable pub add_row : ShareTable → Share → ShareTable × Result ShareError (Unit {0})
add_row t sh = if any (λ r. r.token =? sh.token) t.rows then (t, err ShareError.exists) else (
  record { rows = t.rows ++ (record sh { id = t.next_id } ∷ []); next_id = suc t.next_id },
  ok tt,
)

-- The row that Insert reads back by its token
abbrev pub read_back :
    Bytes → ShareTable × Result ShareError (Unit {0}) → ShareTable × Result ShareError Share
read_back token (t, err e) = (t, err e)
read_back token (t, ok u) = (t, get_by_token t token)

abbrev pub insert_at : ShareTable → Share → Option Bytes → ShareTable × Result ShareError Share
insert_at t sh none = (t, err ShareError.invalid_path)
insert_at t sh (some np) =
    read_back sh.token
      (add_row t (record sh { path = np; accepted = if sh.accepted == 0 then 1 else sh.accepted }))

-- Insert
unfoldable pub insert : ShareTable → Share → ShareTable × Result ShareError Share
insert t sh =
    if sh.owner_user_id == 0 || sh.token =? []
    then (t, err ShareError.invalid_share)
    else insert_at t sh (normalize_path sh.path)

-- UPDATE shares SET … WHERE id = ?
unfoldable pub update_row : (Share → Share) → ℕ → List Share → List Share
update_row f id [] = []
update_row f id (r ∷ rows) = (if r.id == id then f r else r) ∷ update_row f id rows

abbrev pub with_settings : Share → Share → Share
with_settings sh r = record r {
  password_hash = sh.password_hash;
  permissions = sh.permissions;
  label = sh.label;
  expire_ms = sh.expire_ms;
}

-- Update
unfoldable pub update : ShareTable → Share → ShareTable × Result ShareError (Unit {0})
update t sh =
    if sh.id == 0
    then (t, err ShareError.invalid_share)
    else (record t { rows = update_row (with_settings sh) sh.id t.rows }, ok tt)

-- UpdateEncFields
unfoldable pub update_enc_fields :
    ShareTable → ℕ → Bytes → Bytes → ShareTable × Result ShareError (Unit {0})
update_enc_fields t id mount abs = if id == 0 then (t, err ShareError.invalid_share) else (
  record t {
    rows = update_row (λ r. record r { mount_name_enc = mount; abs_path_enc = abs }) id t.rows;
  },
  ok tt,
)

-- Delete
unfoldable pub delete : ShareTable → ℕ → ShareTable
delete t id = if id == 0 then t else record t { rows = keep (λ r. not (r.id == id)) t.rows }

abbrev pub of_owner : ℕ → Bytes → Share → Bool
of_owner uid np r = r.owner_user_id == uid && (np =? [] || r.path =? np)

abbrev pub owned_at : ShareTable → ℕ → Option Bytes → Result ShareError (List Share)
owned_at t uid none = err ShareError.invalid_path
owned_at t uid (some np) = ok (keep (of_owner uid np) t.rows)

-- ListByOwner
unfoldable pub list_by_owner : ShareTable → ℕ → Bytes → Result ShareError (List Share)
list_by_owner t uid path_filter =
    if uid == 0
    then ok []
    else if path_filter =? []
    then ok (keep (of_owner uid []) t.rows)
    else owned_at t uid (normalize_path path_filter)

abbrev pub for_sharee : Bytes → List Bytes → Share → Bool
for_sharee uid gids r =
    r.accepted == 1
    && (not (uid =? []) && (r.share_type == share_type_user && r.share_with =? uid)
        || r.share_type == share_type_group && contains gids r.share_with)

-- ListBySharee. With no user and no group both conditions are false of every row.
unfoldable pub list_by_sharee : ShareTable → Bytes → List Bytes → List Share
list_by_sharee t uid gids = keep (for_sharee uid gids) t.rows

-- ForGroup
unfoldable pub for_group : ShareTable → Bytes → List Share
for_group t gid =
    if gid =? []
    then []
    else keep (λ r. r.share_type == share_type_group && r.share_with =? gid) t.rows

-- WHERE expire_ms > 0 AND expire_ms <= ?
abbrev pub reaped : ℕ → ℤ → Bool
reaped now (pos zero) = false
reaped now (pos (suc n)) = leb (suc n) now
reaped now (negsuc n) = false

-- ListExpired
unfoldable pub list_expired : ShareTable → ℕ → List Share
list_expired t now = keep (λ r. reaped now r.expire_ms) t.rows

-- DeleteExpired
unfoldable pub delete_expired : ShareTable → ℕ → ShareTable × List ℕ
delete_expired t now = (
  record t { rows = keep (λ r. not (reaped now r.expire_ms)) t.rows },
  map (λ r. r.id) (list_expired t now),
)
