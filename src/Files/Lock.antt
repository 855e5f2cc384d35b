-- ===== src/Files/Lock.antt =====
-- internal/files/lock.go on a user's own files, with the parts of internal/files/dav.go and
-- incoming.go that it goes through. Times are nanoseconds since the epoch. A request reads the
-- clock twice: in Stat, and for the lock.
pub mod View
pub mod Exclusion
pub mod Foreign
use nextcloud_go.Prelude.{
  ℕ, zero, suc, ◌+◌, ◌*◌, ◌-◌, ◌/◌, Bool, true, false, not, ◌||◌, Option, none, some, [], ◌∷◌,
  Bytes, text, ltb, ◌=?◌, bytes_equality, nat_equality, if◌then◌else◌, length, contains, ℤ, pos,
  negsuc,
}
use nextcloud_go.Errors.{Error, FileError, Result, ok, err, map_meta}
use nextcloud_go.Webdav.LockToken.{strip_lock_token, lock_header_has_token}
use nextcloud_go.Files.Path.{normalize_path, parent_file_path}
use nextcloud_go.Files.LockStore.{FileLock, LockTable, get_by_path, insert, update_timeout, delete}

-- What the operations take from the other parts of DAV.
pub record Services : Type 0 where
  -- d.Locks != nil
  pub has_locks : Bool
  -- the part of resolveUser behind its test of the name
  pub account : Bytes → Result Error ℕ
  -- d.Meta.GetByPath: whether a user has a file at a path
  pub file_at : ℕ → Bytes → Result FileError (Unit {0})

pub record LockRequest : Type 0 where
  pub refresh : Bool
  pub owner : Bytes
  pub timeout : ℤ
  pub token : Bytes
  pub depth_infinity : Bool

pub record LockInfo : Type 0 where
  pub token : Bytes
  pub owner : Bytes
  pub timeout : ℕ
  pub path : Bytes
  pub depth_infinity : Bool

abbrev pub second : ℕ
second = 1000000000

abbrev pub default_lock_timeout : ℕ
default_lock_timeout = 1800 * second

abbrev pub max_lock_timeout : ℕ
max_lock_timeout = 86400 * second

-- time.Time.UnixMilli
abbrev pub milli : ℕ → ℕ
milli t = t / 1000000

-- The two tests on req.Timeout.
unfoldable pub lock_timeout : ℤ → ℕ
lock_timeout (negsuc n) = default_lock_timeout
lock_timeout (pos zero) = default_lock_timeout
lock_timeout (pos (suc n)) = if ltb max_lock_timeout (suc n) then max_lock_timeout else suc n

-- lockInfoFromRow: `-` stops at 0, as the source's test makes it
abbrev pub lock_info : FileLock → ℕ → LockInfo
lock_info l now = record {
  token = l.token;
  owner = l.owner;
  timeout = l.timeout_ms * 1000000 - now;
  path = l.path;
  depth_infinity = false;
}

unfoldable pub resolve_user : Services → Bytes → Result Error ℕ
unfolding contains
resolve_user env uid =
    if uid =? [] || (contains uid b'/' || uid =? text "..")
    then err Error.forbidden
    else env.account uid

-- expireLock
unfoldable pub expire_lock : LockTable → FileLock → ℕ → LockTable × Bool
expire_lock t l now = if ltb (milli now) l.timeout_ms then (t, false) else (delete t l.id, true)

-- What the loop of applyLock does with the row of one path: `none` is the next round.
abbrev pub live_or_next : LockTable → Result FileError FileLock → ℕ → LockTable × Option FileLock
live_or_next t (err e) now = (t, none)
live_or_next t (ok l) now =
    let (t', expired) = expire_lock t l now in if expired then (t', none) else (t', some l)

-- applyLock: the row that it shows on the entry, and the table without the expired rows it met
unfoldable pub apply_lock : ℕ → ℕ → ℕ → Bytes → LockTable → LockTable × Option FileLock
apply_lock zero now uid cur t = (t, none)
apply_lock (suc fuel) now uid cur t =
    let (t', l) = live_or_next t (get_by_path t uid cur) now in
    elim l [
      | some l ↦ (t', some l)
      | none ↦ elim (cur =? (b'/' ∷ [])) [
        | true ↦ (t', none)
        | false ↦ apply_lock fuel now uid (parent_file_path cur) t'
      ]
    ]

-- statOwned: whether the file is there. Its toEntry runs applyLock.
unfoldable pub stat : Services → ℕ → ℕ → Bytes → LockTable → LockTable × Result Error (Unit {0})
stat env now uid np t = elim (env.file_at uid np) [
  | err e ↦ (t, err (map_meta e))
  | ok u ↦ ((apply_lock (suc (length np)) now uid np t).0, ok tt)
]

unfoldable pub refresh_lock : ℕ → ℕ → FileLock → LockTable → LockTable × Result Error LockInfo
refresh_lock now timeout l t =
    let expiry = milli (now + timeout) in
    let (t', r) = update_timeout t l.id expiry in
    elim r [
      | err e ↦ (t', err (map_meta e))
      | ok u ↦ (t', ok (lock_info (record l { timeout_ms = expiry }) now))
    ]

-- existing != nil
unfoldable pub held : ℕ → LockRequest → FileLock → LockTable → LockTable × Result Error LockInfo
unfolding refresh_lock
held now req l t =
    if lock_header_has_token req.token l.token
    then refresh_lock now (lock_timeout req.timeout) l t
    else (t, err Error.locked)

abbrev pub inserted :
    ℕ → LockRequest → LockTable × Result FileError FileLock → LockTable × Result Error LockInfo
inserted now req (t, err FileError.exists) = (t, err Error.locked)
inserted now req (t, err e) = (t, err (map_meta e))
inserted now req (t, ok row) =
    (t, ok (let info = lock_info row now in record info { depth_infinity = req.depth_infinity }))

-- The row that Lock builds.
abbrev pub new_row : ℕ → ℕ → Bytes → LockRequest → Bytes → FileLock
new_row now uid np req token = record {
  id = 0;
  user_id = uid;
  path = np;
  token = token;
  owner = req.owner;
  timeout_ms = milli (now + lock_timeout req.timeout);
  created_ms = milli now;
}

-- no lock is there
unfoldable pub fresh :
    ℕ → Result Error Bytes → ℕ → Bytes → LockRequest → LockTable → LockTable × Result Error LockInfo
fresh now new_token uid np req t =
    if req.refresh then (t, err Error.precondition) else elim new_token [
      | err e ↦ (t, err e)
      | ok token ↦ inserted now req (insert t (new_row now uid np req token))
    ]

abbrev pub lock_found :
    ℕ
    → Result Error Bytes
    → ℕ
    → Bytes
    → LockRequest
    → LockTable
    → Result FileError FileLock
    → LockTable × Result Error LockInfo
lock_found now new_token uid np req t (err FileError.not_found) = fresh now new_token uid np req t
lock_found now new_token uid np req t (err e) = (t, err (map_meta e))
lock_found now new_token uid np req t (ok l) =
    let (t', expired) = expire_lock t l now in
    if expired then fresh now new_token uid np req t' else held now req l t'

-- Lock, once the user, the path and the file are known
unfoldable pub lock_at :
    ℕ → Result Error Bytes → ℕ → Bytes → LockRequest → LockTable → LockTable × Result Error LockInfo
lock_at now new_token uid np req t = lock_found now new_token uid np req t (get_by_path t uid np)

-- What Lock and Unlock share: the tests, then `act` on the user's id and the canonical path.
module _ {ℓ} {A : Type ℓ} (act : ℕ → Bytes → LockTable → LockTable × Result Error A) where
  abbrev pub with_stat :
      ℕ → Bytes → LockTable × Result Error (Unit {0}) → LockTable × Result Error A
  with_stat uid np (t, err e) = (t, err e)
  with_stat uid np (t, ok u) = act uid np t

  abbrev pub with_path : Services → ℕ → LockTable → ℕ → Option Bytes → LockTable × Result Error A
  with_path env now_stat t uid none = (t, err Error.invalid_path)
  with_path env now_stat t uid (some np) = with_stat uid np (stat env now_stat uid np t)

  abbrev pub with_user :
      Services → ℕ → Bytes → LockTable → Result Error ℕ → LockTable × Result Error A
  with_user env now_stat p t (err e) = (t, err e)
  with_user env now_stat p t (ok uid) = with_path env now_stat t uid (normalize_path p)

  unfoldable pub on_own_file : Services → ℕ → Bytes → Bytes → LockTable → LockTable × Result Error A
  on_own_file env now_stat user p t =
      if not env.has_locks
      then (t, err Error.forbidden)
      else with_user env now_stat p t (resolve_user env user)

-- DAV.Lock
unfoldable pub lock :
    Services
    → ℕ
    → ℕ
    → Result Error Bytes
    → Bytes
    → Bytes
    → LockRequest
    → LockTable
    → LockTable × Result Error LockInfo
unfolding on_own_file lock_at
lock env now_stat now new_token user p req t =
    on_own_file (λ uid np t'. lock_at now new_token uid np req t') env now_stat user p t

-- lockTokenMatches, where the token given has been stripped already
abbrev pub token_matches : Bytes → Bytes → Bool
token_matches stored provided = elim (stored =? []) [
  | true ↦ false
  | false ↦ stored =? strip_lock_token provided
]

abbrev pub unlock_found :
    ℕ → Bytes → LockTable → Result FileError FileLock → LockTable × Result Error (Unit {0})
unlock_found now token t (err FileError.not_found) = (t, err Error.conflict)
unlock_found now token t (err e) = (t, err (map_meta e))
unlock_found now token t (ok l) =
    let (t', expired) = expire_lock t l now in
    if expired
    then (t', err Error.conflict)
    else if token_matches l.token token
    then (delete t' l.id, ok tt)
    else (t', err Error.conflict)

unfoldable pub unlock_at : ℕ → Bytes → ℕ → Bytes → LockTable → LockTable × Result Error (Unit {0})
unlock_at now token uid np t =
    if token =? []
    then (t, err Error.bad_request)
    else unlock_found now token t (get_by_path t uid np)

-- DAV.Unlock
unfoldable pub unlock :
    Services → ℕ → ℕ → Bytes → Bytes → Bytes → LockTable → LockTable × Result Error (Unit {0})
unfolding on_own_file unlock_at
unlock env now_stat now user p token t =
    on_own_file (λ uid np t'. unlock_at now (strip_lock_token token) uid np t') env now_stat user p
      t
