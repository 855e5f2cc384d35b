-- ===== src/Sharing/Access.antt =====
-- The other operations of Service of internal/sharing/service.go, and the sweep of
-- internal/sharing/expire.go.
use nextcloud_go.Prelude.{
  ℕ, Bool, not, ◌&&◌, ◌||◌, Option, none, some, List, [], ◌∷◌, Bytes, ◌==◌, ◌=?◌, bytes_equality,
  if◌then◌else◌, nat_equality,
}
use nextcloud_go.Errors.{Result, ok, err, ◌>>=◌, ◌>>◌}
use nextcloud_go.Sharing.ExpireDate.{parse_expire_date}
use nextcloud_go.Sharing.Store.{
  ShareError, Share, get_by_id, list_by_owner, update, share_type_remote,
}
use nextcloud_go.Sharing.Service.{
  User, NameCodec, Services, Call, State, log_if, forget, expire_if_needed, owner_of,
  valid_share_perms, hash_password, or_error, split_cloud_id, normalize_origin,
}

abbrev pub owned : ℕ → Share → State × Bool → State × Result ShareError Share
owned uid sh (s, gone) =
    (s, if gone || not (sh.owner_user_id == uid) then err ShareError.not_found else ok sh)

abbrev pub seen_by :
    Services → ℕ → ℕ → State → Result ShareError Share → State × Result ShareError Share
seen_by env now uid s (err e) = (s, err e)
seen_by env now uid s (ok sh) = owned uid sh (expire_if_needed env now sh s)

abbrev pub for_user :
    Services → ℕ → ℕ → State → Result ShareError User → State × Result ShareError Share
for_user env now id s (err e) = (s, err e)
for_user env now id s (ok u) = seen_by env now u.id s (get_by_id s.table id)

-- GetForOwner
unfoldable pub get_for_owner : Services → ℕ → Bytes → ℕ → State → State × Result ShareError Share
get_for_owner env now uid id s = for_user env now id s (owner_of env uid)

-- The loop over the rows of a list: what has expired is deleted and left out.
unfoldable pub drop_expired : Services → ℕ → List Share → State → State × List Share
drop_expired env now [] s = (s, [])
drop_expired env now (sh ∷ items) s =
    let (s1, gone) = expire_if_needed env now sh s in
    let (s2, out) = drop_expired env now items s1 in (s2, if gone then out else sh ∷ out)

abbrev pub cipher_filter :
    Bytes → Result ShareError (Bytes × Bool) → Result ShareError (Option Bytes)
cipher_filter f (ok (ct, encrypted)) = ok (some ct)
cipher_filter f (err ShareError.not_found) = ok none
cipher_filter f (err e) = err e

-- The filter as the table has it; `none` for a path that resolves to nothing.
abbrev pub stored_filter : ℕ → Bytes → Option NameCodec → Result ShareError (Option Bytes)
stored_filter uid f none = ok (some f)
stored_filter uid f (some c) =
    if f =? [] then ok (some f) else cipher_filter f (c.share_cipher_path uid f)

abbrev pub filtered_rows :
    State → ℕ → Result ShareError (Option Bytes) → Result ShareError (List Share)
filtered_rows s uid (err e) = err e
filtered_rows s uid (ok none) = ok []
filtered_rows s uid (ok (some f)) = list_by_owner s.table uid f

abbrev pub live_rows :
    Services → ℕ → State → Result ShareError (List Share) → State × Result ShareError (List Share)
live_rows env now s (err e) = (s, err e)
live_rows env now s (ok items) = let (s', out) = drop_expired env now items s in (s', ok out)

-- ListForOwner
unfoldable pub list_for_owner :
    Services → ℕ → Bytes → Bytes → State → State × Result ShareError (List Share)
list_for_owner env now uid path_filter s =
    live_rows env now s (do
      u ← owner_of env uid
      filtered_rows s u.id (stored_filter u.id path_filter env.name_codec))

-- The arguments of Update that are not nil
pub record Changes : Type 0 where
  pub permissions : Option ℕ
  pub password : Option Bytes
  pub expire_date : Option Bytes
  pub label : Option Bytes

abbrev pub set_permissions : Option ℕ → Share → Result ShareError Share
set_permissions none sh = ok sh
set_permissions (some perms) sh =
    if valid_share_perms sh.item_type perms
    then ok (record sh { permissions = perms })
    else err ShareError.bad_permissions

abbrev pub set_password : Services → Option Bytes → Share → Result ShareError Share
set_password env none sh = ok sh
set_password env (some password) sh = do
  hash ← hash_password env password
  ok (record sh { password_hash = hash })

abbrev pub set_expire : Option Bytes → Share → Result ShareError Share
set_expire none sh = ok sh
set_expire (some raw) sh = do
  ms ← or_error ShareError.bad_expire (parse_expire_date raw)
  ok (record sh { expire_ms = ms })

abbrev pub set_label : Option Bytes → Share → Share
set_label none sh = sh
set_label (some label) sh = record sh { label = label }

-- The share that Update writes
unfoldable pub changed : Services → Changes → Share → Result ShareError Share
changed env c sh = do
  sh1 ← set_permissions c.permissions sh
  sh2 ← set_password env c.password sh1
  sh3 ← set_expire c.expire_date sh2
  ok (set_label c.label sh3)

abbrev pub written : State → Result ShareError Share → State × Result ShareError Share
written s (err e) = (s, err e)
written s (ok sh) = let (t, r) = update s.table sh in (record s { table = t }, r >> ok sh)

abbrev pub change_found :
    Services → Changes → State × Result ShareError Share → State × Result ShareError Share
change_found env c (s, err e) = (s, err e)
change_found env c (s, ok sh) = written s (changed env c sh)

-- Update
unfoldable pub update_share :
    Services → ℕ → Bytes → ℕ → Changes → State → State × Result ShareError Share
update_share env now uid id c s = change_found env c (get_for_owner env now uid id s)

-- notifyUnshare reached the remote server; its answer is ignored.
unfoldable pub unshare_sent : Services → Share → Bool
unshare_sent env sh =
    sh.share_type == share_type_remote
    && (env.has_ocm && env.discover (normalize_origin (split_cloud_id sh.share_with).1))

abbrev pub deleted :
    Services → State × Result ShareError Share → State × Result ShareError (Unit {0})
deleted env (s, err e) = (s, err e)
deleted env (s, ok sh) =
    (forget env sh (log_if (unshare_sent env sh) (Call.remote_unshared sh) s), ok tt)

-- Delete
unfoldable pub delete_share :
    Services → ℕ → Bytes → ℕ → State → State × Result ShareError (Unit {0})
delete_share env now uid id s = deleted env (get_for_owner env now uid id s)
