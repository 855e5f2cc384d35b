-- ===== src/Sharing/Service.antt =====
-- Service of internal/sharing/service.go: its dependencies, what it does when a share is gone, and
-- Create. Notifications, key wraps and federation are calls of other components: the model logs each.
use nextcloud_go.Prelude.{
  ℕ, zero, suc, ◌/◌, ◌*◌, Bool, true, false, not, ◌&&◌, ◌||◌, Option, none, some, List, [], ◌∷◌,
  ◌++◌, Bytes, text, leb, ◌==◌, ◌=?◌, bytes_equality, if◌then◌else◌, ℤ, pos, negsuc, nat_equality,
  length, drop,
}
use nextcloud_go.Text.{trim_space, trim_right, trim_suffix, has_prefix, before_last, to_lower}
use nextcloud_go.Errors.{Error, Result, ok, err, ◌>>=◌, ◌>>◌}
use nextcloud_go.Files.Path.{normalize_path, is_slash}
use nextcloud_go.Sharing.ExpireDate.{parse_expire_date}
use nextcloud_go.Sharing.Store.{
  ShareError, Share, ShareTable, insert, delete, share_type_user, share_type_group, share_type_link,
  share_type_remote,
}

pub record User : Type 0 where
  pub id : ℕ
  pub uid : Bytes
  pub display_name : Bytes

-- auth.PasswordHasher; `none` is an error.
pub record PasswordHasher : Type 0 where
  pub hash : Bytes → Option Bytes
  pub verify : Bytes → Bytes → Option Bool

-- NameCodec: the ciphertext path of a plain one, the sealed copies, and what they open to.
pub record NameCodec : Type 0 where
  pub share_cipher_path : ℕ → Bytes → Result ShareError (Bytes × Bool)
  pub seal_share_meta : ℕ → Bytes → Result ShareError (Bytes × Bytes × Bytes)
  pub open_share_meta : ℕ → Share → Result ShareError (Bytes × Bytes)

-- ocm.OutgoingNotice
pub record OutgoingNotice : Type 0 where
  pub share_with : Bytes
  pub name : Bytes
  pub provider_id : ℕ
  pub owner : Bytes
  pub resource_type : Bytes
  pub token : Bytes
  pub permissions : ℕ

-- What the service is made of beside its store. `discover` and `notify_outgoing` say
-- whether the remote server answers its discovery and takes a notice, `url_host` the host of a URL that url.Parse takes.
pub record Services : Type 0 where
  pub user_by_uid : Bytes → Result ShareError User
  pub user_by_id : ℕ → Result ShareError User
  pub has_group : Bytes → Bool
  pub groups_of : Bytes → Result ShareError (List Bytes)
  pub stat : Bytes → Bytes → Result Error Bool
  pub hasher : Option PasswordHasher
  pub has_ocm : Bool
  pub discover : Bytes → Bool
  pub notify_outgoing : OutgoingNotice → Bool
  pub has_notifs : Bool
  pub has_keys : Bool
  pub name_codec : Option NameCodec
  pub url_host : Bytes → Option Bytes

-- The calls of other components
pub data Call : Type 0 where
  share_created key_wrapped key_unwrapped remote_noticed remote_unshared : Share → Call
  notification_dismissed : ℕ → Call

pub record State : Type 0 where
  pub table : ShareTable
  pub calls : List Call

abbrev pub log_if : Bool → Call → State → State
log_if b c s = if b then record s { calls = c ∷ s.calls } else s

-- Store.Delete, dismissShareNotifications and unwrapShareKeys
unfoldable pub forget : Services → Share → State → State
forget env sh s = log_if env.has_keys (Call.key_unwrapped sh) (
    log_if env.has_notifs (Call.notification_dismissed sh.id)
      (record s { table = delete s.table sh.id }))

-- sh.ExpireMs != 0 && sh.ExpireMs <= now
abbrev pub expired : ℕ → ℤ → Bool
expired now (pos zero) = false
expired now (pos (suc n)) = leb (suc n) now
expired now (negsuc n) = true

-- expireIfNeeded
unfoldable pub expire_if_needed : Services → ℕ → Share → State → State × Bool
expire_if_needed env now sh s =
    if expired now sh.expire_ms then (forget env sh s, true) else (s, false)

abbrev pub owner_error : Result ShareError User → Result ShareError User
owner_error (err ShareError.user_not_found) = err ShareError.not_found
owner_error (err e) = err e
owner_error (ok u) = ok u

-- ownerOf
unfoldable pub owner_of : Services → Bytes → Result ShareError User
owner_of env uid = owner_error (env.user_by_uid uid)

-- perms &^ (PermRead | PermUpdate | PermCreate | PermDelete), on the word of the int
abbrev pub other_bits : ℕ → ℕ
other_bits w = w / 16 * 16

abbrev pub perm_read : ℕ
perm_read = 1

-- validSharePerms
unfoldable pub valid_share_perms : Bytes → ℕ → Bool
valid_share_perms item_type perms =
    if item_type =? text "file"
    then perms == perm_read
    else other_bits perms == 0 && not (perms == 0)

abbrev split_at : Bytes → Option Bytes → Bytes × Bytes
split_at s none = ([], [])
split_at s (some a) =
    let b = drop (suc (length a)) s in if a =? [] || b =? [] then ([], []) else (a, b)

-- ocm.SplitCloudID
unfoldable pub split_cloud_id : Bytes → Bytes × Bytes
split_cloud_id id = let s = trim_space id in split_at s (before_last b'@' s)

-- strings.Contains(s, "://")
unfoldable pub has_scheme : Bytes → Bool
has_scheme [] = false
has_scheme (c ∷ s) = has_prefix (text "://") (c ∷ s) || has_scheme s

-- ocm.NormalizeOrigin
unfoldable pub normalize_origin : Bytes → Bytes
normalize_origin remote =
    let r = trim_space (trim_right is_slash remote) in
    if r =? [] then [] else if has_scheme r then r else text "https://" ++ r

abbrev same_host : Option Bytes → Option Bytes → Bool
same_host (some a) (some b) = if a =? [] || b =? [] then false else to_lower a =? to_lower b
same_host _ _ = false

-- sameHTTPHost
unfoldable pub same_http_host : Services → Bytes → Bytes → Bool
same_http_host env a b = same_host (env.url_host a) (env.url_host b)

pub record CreateRequest : Type 0 where
  pub uid : Bytes
  pub path : Bytes
  pub share_type : ℕ
  pub permissions : ℕ
  pub share_with : Bytes
  pub password : Bytes
  pub expire_date : Bytes
  pub label : Bytes
  pub origin : Bytes

abbrev pub guard : Bool → ShareError → Result ShareError (Unit {0})
guard true e = ok tt
guard false e = err e

abbrev pub answered {ℓ} : {A : Type ℓ} → Result ShareError A → Bool
answered (ok a) = true
answered (err e) = false

-- The sharee that each type of share asks for
unfoldable pub good_sharee : Services → CreateRequest → Bool
good_sharee env req =
    let who = req.share_with in
    let (remote_uid, remote_host) = split_cloud_id who in
    if req.share_type == share_type_user
    then not (who =? [] || who =? req.uid) && answered (env.user_by_uid who)
    else if req.share_type == share_type_group
    then not (who =? []) && env.has_group who
    else if req.share_type == share_type_remote
    then not (remote_uid =? [] || remote_host =? [])
      && not
          (not (req.origin =? []) && same_http_host env req.origin (normalize_origin remote_host))
    else true

abbrev pub known_type : ℕ → Bool
known_type k =
    k == share_type_link
    || (k == share_type_user || (k == share_type_group || k == share_type_remote))

abbrev pub or_error {ℓ} : {A : Type ℓ} → ShareError → Option A → Result ShareError A
or_error e none = err e
or_error e (some a) = ok a

abbrev pub stat_error : Result Error Bool → Result ShareError Bool
stat_error (err Error.not_found) = err ShareError.not_found
stat_error (err e) = err (ShareError.webdav e)
stat_error (ok d) = ok d

abbrev pub hash_with : Bytes → Option PasswordHasher → Result ShareError Bytes
hash_with password none = err ShareError.hasher_required
hash_with password (some h) = or_error (ShareError.failure 0) (h.hash password)

-- Of an empty password the hash is empty.
unfoldable pub hash_password : Services → Bytes → Result ShareError Bytes
hash_password env password = if password =? [] then ok [] else hash_with password env.hasher

abbrev pub seal_with : ℕ → Bytes → Option NameCodec → Result ShareError (Bytes × Bytes × Bytes)
seal_with owner np none = ok (np, [], [])
seal_with owner np (some c) = c.seal_share_meta owner np

abbrev pub item_type_of : Bool → Bytes
item_type_of dir = if dir then text "folder" else text "file"

abbrev pub or_read : ℕ → ℕ
or_read perms = if perms == 0 then perm_read else perms

-- What Create has at hand when it inserts: the owner, the plain path and the row
pub record Prepared : Type 0 where
  pub owner : User
  pub plain_path : Bytes
  pub row : Share

-- &files.Share{…} of Create
abbrev pub new_share :
    ℕ → CreateRequest → User → Bool → Bytes → Bytes → ℤ → Bytes × Bytes × Bytes → Share
new_share now req u dir tok hash expire (stored, mount_enc, abs_enc) = record {
  id = 0;
  owner_user_id = u.id;
  share_type = req.share_type;
  path = stored;
  item_type = item_type_of dir;
  token = tok;
  password_hash = if req.share_type == share_type_link then hash else [];
  permissions = or_read req.permissions;
  label = req.label;
  expire_ms = expire;
  stime_ms = now;
  share_with = if req.share_type == share_type_link then [] else req.share_with;
  accepted = 1;
  mount_name_enc = mount_enc;
  abs_path_enc = abs_enc;
}

-- Create up to Insert. `new_token` is the answer of the token generator.
unfoldable pub prepare :
    Services → ℕ → Result ShareError Bytes → CreateRequest → Result ShareError Prepared
prepare env now new_token req = do
  guard (known_type req.share_type) ShareError.bad_share_type
  u ← owner_of env req.uid
  guard (good_sharee env req) ShareError.bad_share_with
  np ← or_error ShareError.invalid_path (normalize_path req.path)
  dir ← stat_error (env.stat req.uid np)
  guard (valid_share_perms (item_type_of dir) (or_read req.permissions)) ShareError.bad_permissions
  tok ← new_token
  hash ← hash_password env req.password
  expire ← or_error ShareError.bad_expire (parse_expire_date req.expire_date)
  sealed ← seal_with u.id np env.name_codec
  ok (record { owner = u; plain_path = np; row = new_share now req u dir tok hash expire sealed })

abbrev behind_last : Bytes → Option Bytes → Bytes
behind_last p none = p
behind_last p (some a) = drop (suc (length a)) p

-- pathBase
unfoldable pub path_base : Bytes → Bytes
path_base p = let q = trim_suffix b'/' p in behind_last q (before_last b'/' q)

-- path.Base of a canonical path
abbrev pub base_of : Bytes → Bytes
base_of p = if p =? text "/" then p else path_base p

-- The notice of notifyRemote
unfoldable pub notice : Bytes → Prepared → Share → OutgoingNotice
notice origin p sh = record {
  share_with = sh.share_with;
  name = base_of p.plain_path;
  provider_id = sh.id;
  owner = if origin =? [] then p.owner.uid else p.owner.uid ++ (b'@' ∷ origin);
  resource_type = if sh.item_type =? [] then text "file" else sh.item_type;
  token = sh.token;
  permissions = sh.permissions;
}

-- notifyRemote: whether it answers no error
unfoldable pub notify_remote : Services → Bytes → Prepared → Share → Bool
notify_remote env origin p sh =
    env.has_ocm
    && (env.discover (normalize_origin (split_cloud_id sh.share_with).1)
        && env.notify_outgoing (notice origin p sh))

-- Behind Insert: a remote share is noticed or taken back, others ring and wrap.
unfoldable pub announce :
    Services → Bytes → Prepared → Share → State → State × Result ShareError Share
announce env origin p sh s =
    if sh.share_type == share_type_remote
    then (if notify_remote env origin p sh
        then (record s { calls = Call.remote_noticed sh ∷ s.calls }, ok sh)
        else (record s { table = delete s.table sh.id }, err ShareError.cannot_federate))
    else if sh.share_type == share_type_user || sh.share_type == share_type_group
    then (
      log_if env.has_keys (Call.key_wrapped sh) (log_if env.has_notifs (Call.share_created sh) s),
      ok sh,
    )
    else (s, ok sh)

abbrev pub announced :
    Services
    → Bytes
    → Prepared
    → State
    → ShareTable × Result ShareError Share
    → State × Result ShareError Share
announced env origin p s (t, err e) = (record s { table = t }, err e)
announced env origin p s (t, ok sh) = announce env origin p sh (record s { table = t })

abbrev pub inserted :
    Services → Bytes → State → Result ShareError Prepared → State × Result ShareError Share
inserted env origin s (err e) = (s, err e)
inserted env origin s (ok p) = announced env origin p s (insert s.table p.row)

-- Create
unfoldable pub create :
    Services → ℕ → Result ShareError Bytes → CreateRequest → State → State × Result ShareError Share
create env now new_token req s = inserted env req.origin s (prepare env now new_token req)
