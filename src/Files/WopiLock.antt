-- ===== src/Files/WopiLock.antt =====
-- internal/files/wopilock.go: locks under a token that the client chooses. The mount that
-- `lookupIncoming` finds for a path is a parameter.
pub mod Contract
use nextcloud_go.Prelude.{
  ℕ, zero, suc, ◌+◌, Bool, true, false, not, Option, none, some, [], ◌∷◌, Bytes, ◌=?◌,
  bytes_equality, if◌then◌else◌, ℤ,
}
use nextcloud_go.Errors.{Error, FileError, Result, ok, err, map_meta}
use nextcloud_go.Files.Path.{normalize_path}
use nextcloud_go.Files.LockStore.{FileLock, LockTable, get_by_path, insert, delete}
use nextcloud_go.Files.Lock.{
  Services, LockInfo, milli, lock_timeout, lock_info, resolve_user, expire_lock, refresh_lock,
  on_own_file,
}

-- What lookupIncoming finds: a mount of another server, or the owner and the owner's path.
pub data Incoming : Type 0 where
  no_mount remote key_locked : Incoming
  mount : Bytes → Bytes → Incoming

-- wopiLockTarget
unfoldable pub wopi_lock_target : Incoming → Bytes → Bytes → Result Error (Bytes × Bytes)
wopi_lock_target no_mount user p = ok (user, p)
wopi_lock_target remote user p = err Error.not_implemented
wopi_lock_target key_locked user p = err Error.key_locked
wopi_lock_target (mount owner owner_path) user p = ok (owner, owner_path)

unfoldable pub held_with_token :
    ℕ → Bytes → ℤ → FileLock → LockTable → LockTable × Result Error LockInfo
unfolding refresh_lock
held_with_token now token timeout l t =
    if l.token =? token then refresh_lock now (lock_timeout timeout) l t else (t, err Error.locked)

abbrev pub stored : ℕ → LockTable × Result FileError FileLock → LockTable × Result Error LockInfo
stored now (t, err FileError.exists) = (t, err Error.locked)
stored now (t, err e) = (t, err (map_meta e))
stored now (t, ok row) = (t, ok (lock_info row now))

abbrev pub token_row : ℕ → ℕ → Bytes → Bytes → ℤ → FileLock
token_row now uid np token timeout = record {
  id = 0;
  user_id = uid;
  path = np;
  token = token;
  owner = [];
  timeout_ms = milli (now + lock_timeout timeout);
  created_ms = milli now;
}

unfoldable pub fresh_with_token :
    ℕ → ℕ → Bytes → Bytes → ℤ → LockTable → LockTable × Result Error LockInfo
fresh_with_token now uid np token timeout t =
    stored now (insert t (token_row now uid np token timeout))

abbrev pub token_found :
    ℕ
    → ℕ
    → Bytes
    → Bytes
    → ℤ
    → LockTable
    → Result FileError FileLock
    → LockTable × Result Error LockInfo
token_found now uid np token timeout t (err FileError.not_found) =
    fresh_with_token now uid np token timeout t
token_found now uid np token timeout t (err e) = (t, err (map_meta e))
token_found now uid np token timeout t (ok l) =
    let (t', expired) = expire_lock t l now in
    if expired
    then fresh_with_token now uid np token timeout t'
    else held_with_token now token timeout l t'

-- lockOwnedWithToken behind its tests
unfoldable pub lock_at_with_token :
    ℕ → Bytes → ℤ → ℕ → Bytes → LockTable → LockTable × Result Error LockInfo
lock_at_with_token now token timeout uid np t =
    token_found now uid np token timeout t (get_by_path t uid np)

-- LockWithToken
unfoldable pub lock_with_token :
    Services
    → Incoming
    → ℕ
    → ℕ
    → Bytes
    → Bytes
    → Bytes
    → ℤ
    → LockTable
    → LockTable × Result Error LockInfo
unfolding wopi_lock_target on_own_file lock_at_with_token
lock_with_token env incoming now_stat now user p token timeout t =
    if token =? [] then (t, err Error.bad_request) else elim (wopi_lock_target incoming user p) [
      | err e ↦ (t, err e)
      | ok (owner, path) ↦
          on_own_file (λ uid np t'. lock_at_with_token now token timeout uid np t') env now_stat
            owner path t
    ]

abbrev pub token_unlocked :
    ℕ → Bytes → LockTable → Result FileError FileLock → LockTable × Result Error (Unit {0})
token_unlocked now token t (err FileError.not_found) = (t, err Error.conflict)
token_unlocked now token t (err e) = (t, err (map_meta e))
token_unlocked now token t (ok l) =
    let (t', expired) = expire_lock t l now in
    if expired
    then (t', err Error.conflict)
    else if not (l.token =? token)
    then (t', err Error.conflict)
    else (delete t' l.id, ok tt)

-- unlockOwnedWithToken behind its tests
unfoldable pub unlock_at_with_token :
    ℕ → Bytes → ℕ → Bytes → LockTable → LockTable × Result Error (Unit {0})
unlock_at_with_token now token uid np t = token_unlocked now token t (get_by_path t uid np)

-- UnlockWithToken
unfoldable pub unlock_with_token :
    Services
    → Incoming
    → ℕ
    → ℕ
    → Bytes
    → Bytes
    → Bytes
    → LockTable
    → LockTable × Result Error (Unit {0})
unfolding wopi_lock_target on_own_file unlock_at_with_token
unlock_with_token env incoming now_stat now user p token t =
    if token =? [] then (t, err Error.bad_request) else elim (wopi_lock_target incoming user p) [
      | err e ↦ (t, err e)
      | ok (owner, path) ↦
          on_own_file (λ uid np t'. unlock_at_with_token now token uid np t') env now_stat owner
            path t
    ]

abbrev pub token_seen :
    ℕ → LockTable → Result FileError FileLock → LockTable × Result Error (Option Bytes)
token_seen now t (err FileError.not_found) = (t, ok none)
token_seen now t (err e) = (t, err (map_meta e))
token_seen now t (ok l) =
    let (t', expired) = expire_lock t l now in
    if expired then (t', ok none) else (t', ok (some l.token))

-- LockTokenAt once the user's id and the path are known
unfoldable pub lock_token_of : ℕ → ℕ → Bytes → LockTable → LockTable × Result Error (Option Bytes)
lock_token_of now uid np t = token_seen now t (get_by_path t uid np)

abbrev token_at_path : ℕ → ℕ → LockTable → Option Bytes → LockTable × Result Error (Option Bytes)
token_at_path now uid t none = (t, err Error.invalid_path)
token_at_path now uid t (some np) = lock_token_of now uid np t

abbrev token_of_user :
    ℕ → Bytes → LockTable → Result Error ℕ → LockTable × Result Error (Option Bytes)
token_of_user now p t (err e) = (t, err e)
token_of_user now p t (ok uid) = token_at_path now uid t (normalize_path p)

-- LockTokenAt; `ok none` is the answer ("", false, nil)
unfoldable pub lock_token_at :
    Services → Incoming → ℕ → Bytes → Bytes → LockTable → LockTable × Result Error (Option Bytes)
unfolding wopi_lock_target resolve_user lock_token_of
lock_token_at env incoming now user p t =
    if not env.has_locks then (t, ok none) else elim (wopi_lock_target incoming user p) [
      | err e ↦ (t, err e)
      | ok (owner, path) ↦ token_of_user now path t (resolve_user env owner)
    ]
