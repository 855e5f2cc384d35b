-- ===== src/Sharing/Public.antt =====
-- The resolvers of public links and of federated shares, and ListIncoming, of
-- internal/sharing/service.go; the sweep of internal/sharing/expire.go.
use nextcloud_go.Prelude.{
  ℕ, Bool, false, ◌||◌, Option, none, some, List, [], ◌∷◌, Bytes, text, ◌==◌, ◌=?◌, bytes_equality,
  if◌then◌else◌, contains, nat_equality,
}
use nextcloud_go.Errors.{Result, ok, err, ◌>>=◌}
use nextcloud_go.Sharing.Store.{
  ShareError, Share, get_by_token, list_by_sharee, list_expired, delete_expired, share_type_link,
  share_type_remote,
}
use nextcloud_go.Sharing.Service.{
  User, PasswordHasher, NameCodec, Services, Call, State, log_if, expire_if_needed, path_base,
}

-- A share with its owner
abbrev pub Opened : Type 0
Opened = State × Result ShareError (Share × User)

abbrev pub with_owner : Share → Result ShareError User → Result ShareError (Share × User)
with_owner sh (err e) = err e
with_owner sh (ok u) = ok (sh, u)

abbrev pub unless_expired : Services → Share → State × Bool → Opened
unless_expired env sh (s, gone) =
    (s, if gone then err ShareError.not_found else with_owner sh (env.user_by_id sh.owner_user_id))

abbrev pub opened : Services → ℕ → State → Result ShareError Share → Opened
opened env now s (err e) = (s, err e)
opened env now s (ok sh) = unless_expired env sh (expire_if_needed env now sh s)

-- lookupValidShare
unfoldable pub lookup_valid_share : Services → ℕ → Bytes → State → Opened
lookup_valid_share env now token s = opened env now s (get_by_token s.table token)

abbrev pub of_type : (ℕ → Bool) → Opened → Opened
of_type p (s, err e) = (s, err e)
of_type p (s, ok (sh, u)) = (s, if p sh.share_type then ok (sh, u) else err ShareError.not_found)

abbrev pub is_link : ℕ → Bool
is_link k = k == share_type_link

abbrev pub is_link_or_remote : ℕ → Bool
is_link_or_remote k = k == share_type_link || k == share_type_remote

-- LookupValid
unfoldable pub lookup_valid : Services → ℕ → Bytes → State → Opened
lookup_valid env now token s = of_type is_link (lookup_valid_share env now token s)

-- LookupValidPublicDAV
unfoldable pub lookup_valid_public_dav : Services → ℕ → Bytes → State → Opened
lookup_valid_public_dav env now token s =
    of_type is_link_or_remote (lookup_valid_share env now token s)

abbrev pub verified : Bytes → Bytes → Option PasswordHasher → Option Bool
verified hash password none = none
verified hash password (some h) = h.verify hash password

abbrev pub is_verified : Option Bool → Bool
is_verified none = false
is_verified (some b) = b

-- resolveWithPassword: whether it lets the share through
unfoldable pub passes : Services → Share → Bytes → Bool
passes env sh password =
    sh.password_hash =? [] || is_verified (verified sh.password_hash password env.hasher)

abbrev pub resolve_with_password : Services → Bytes → Opened → Opened
resolve_with_password env password (s, err e) = (s, err e)
resolve_with_password env password (s, ok (sh, u)) =
    (s, if passes env sh password then ok (sh, u) else err ShareError.unauthorized)

-- ResolvePublic
unfoldable pub resolve_public : Services → ℕ → Bytes → Bytes → State → Opened
resolve_public env now token password s =
    resolve_with_password env password (lookup_valid env now token s)

-- ResolvePublicDAV
unfoldable pub resolve_public_dav : Services → ℕ → Bytes → Bytes → State → Opened
resolve_public_dav env now token password s =
    resolve_with_password env password (lookup_valid_public_dav env now token s)

-- files.IncomingMount of a share
pub record IncomingMount : Type 0 where
  pub owner_uid : Bytes
  pub owner_path : Bytes
  pub owner_cipher_path : Bytes
  pub mount : Bytes
  pub permissions : ℕ
  pub item_type : Bytes

abbrev pub mount_of : User → Share → Bytes → Bytes → Bytes → IncomingMount
mount_of u sh path name cipher = record {
  owner_uid = u.uid;
  owner_path = path;
  owner_cipher_path = cipher;
  mount = b'/' ∷ name;
  permissions = sh.permissions;
  item_type = sh.item_type;
}

abbrev pub open_with : User → Share → Option NameCodec → Result ShareError IncomingMount
open_with u sh none = ok (mount_of u sh sh.path (path_base sh.path) [])
open_with u sh (some c) =
    if sh.abs_path_enc =? [] then ok (mount_of u sh sh.path (path_base sh.path) []) else (do
      (plain, name) ← c.open_share_meta sh.owner_user_id sh
      ok (mount_of u sh plain name sh.path))

-- A share of an owner who is not there is left out.
abbrev pub opened_for :
    Services → Share → Result ShareError User → Result ShareError (Option IncomingMount)
opened_for env sh (err e) = ok none
opened_for env sh (ok u) = do m ← open_with u sh env.name_codec; ok (some m)

abbrev pub cons_some {ℓ} : {A : Type ℓ} → Option A → List A → List A
cons_some none xs = xs
cons_some (some x) xs = x ∷ xs

abbrev pub mount_one : Services → Share → Result ShareError (Option IncomingMount)
mount_one env sh =
    if sh.path =? text "/" then ok none else opened_for env sh (env.user_by_id sh.owner_user_id)

abbrev pub gather :
    Result ShareError (Option IncomingMount)
    → State × Result ShareError (List IncomingMount)
    → State
    → State × Result ShareError (List IncomingMount)
gather (err e) rest s = (s, err e)
gather (ok m) (s, err e) _ = (s, err e)
gather (ok m) (s, ok ms) _ = (s, ok (cons_some m ms))

-- The loop of ListIncoming
unfoldable pub mounts :
    Services → ℕ → List Share → State → State × Result ShareError (List IncomingMount)
mounts env now [] s = (s, ok [])
mounts env now (sh ∷ items) s =
    let (s1, gone) = expire_if_needed env now sh s in
    let rest = mounts env now items s1 in if gone then rest else gather (mount_one env sh) rest s1

abbrev pub for_groups :
    Services
    → ℕ
    → Bytes
    → State
    → Result ShareError (List Bytes)
    → State × Result ShareError (List IncomingMount)
for_groups env now uid s (err e) = (s, err e)
for_groups env now uid s (ok gids) = mounts env now (list_by_sharee s.table uid gids) s

abbrev pub for_sharee_user :
    Services
    → ℕ
    → Bytes
    → State
    → Result ShareError User
    → State × Result ShareError (List IncomingMount)
for_sharee_user env now uid s (err ShareError.user_not_found) = (s, ok [])
for_sharee_user env now uid s (err e) = (s, err e)
for_sharee_user env now uid s (ok u) = for_groups env now uid s (env.groups_of uid)

-- ListIncoming
unfoldable pub list_incoming :
    Services → ℕ → Bytes → State → State × Result ShareError (List IncomingMount)
list_incoming env now uid s =
    if uid =? [] then (s, ok []) else for_sharee_user env now uid s (env.user_by_uid uid)

unfoldable pub dismiss_all : Services → List ℕ → State → State
dismiss_all env [] s = s
dismiss_all env (id ∷ ids) s =
    dismiss_all env ids (log_if env.has_notifs (Call.notification_dismissed id) s)

-- The doomed rows that were deleted lose their key wraps.
unfoldable pub unwrap_all : Services → List ℕ → List Share → State → State
unwrap_all env ids [] s = s
unwrap_all env ids (sh ∷ doomed) s =
    unwrap_all env ids doomed (log_if (contains ids sh.id) (Call.key_unwrapped sh) s)

-- expireSharesJob.Run
unfoldable pub sweep : Services → ℕ → State → State
sweep env now s =
    let doomed = if env.has_keys then list_expired s.table now else [] in
    let (t, ids) = delete_expired s.table now in
    unwrap_all env ids doomed (dismiss_all env ids (record s { table = t }))
