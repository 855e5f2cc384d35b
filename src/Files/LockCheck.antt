-- ===== src/Files/LockCheck.antt =====
-- checkLockOwned, LockByFileID and UnlockByFileID of internal/files/lock.go.
pub mod Held
use nextcloud_go.Prelude.{
  ℕ, zero, suc, true, false, not, Option, none, some, [], ◌∷◌, Bytes, ◌==◌, ◌=?◌, bytes_equality,
  if◌then◌else◌, length,
}
use nextcloud_go.Errors.{Error, FileError, Result, ok, err, map_meta}
use nextcloud_go.Webdav.LockToken.{lock_header_has_token}
use nextcloud_go.Files.Path.{normalize_path, parent_file_path}
use nextcloud_go.Files.LockStore.{FileLock, LockTable, get_by_path}
use nextcloud_go.Files.Lock.{
  Services, LockRequest, LockInfo, expire_lock, resolve_user, lock, unlock,
}

abbrev pub Answer : Type 0
Answer = Result Error (Unit {0})

-- The test of one round: the answer, or `none` for the next round.
abbrev pub check_found :
    Bytes → ℕ → LockTable → Result FileError FileLock → LockTable × Option Answer
check_found header now t (err FileError.not_found) = (t, none)
check_found header now t (err e) = (t, some (err (map_meta e)))
check_found header now t (ok l) =
    let (t', expired) = expire_lock t l now in
    if expired
    then (t', none)
    else (t', some (if lock_header_has_token header l.token then ok tt else err Error.locked))

abbrev pub or_rest : LockTable × Option Answer → LockTable × Answer → LockTable × Answer
or_rest (t, some a) rest = (t, a)
or_rest (t, none) rest = rest

-- for cur := np; ; cur = parentFilePath(cur). The fuel never runs out.
unfoldable pub check_from : ℕ → ℕ → ℕ → Bytes → Bytes → LockTable → LockTable × Answer
check_from zero now uid cur header t = (t, err (Error.store_failure 0))
check_from (suc fuel) now uid cur header t =
    let round = check_found header now t (get_by_path t uid cur) in
    let rest = check_from fuel now uid (parent_file_path cur) header round.0 in
    or_rest round (if cur =? (b'/' ∷ []) then (round.0, ok tt) else rest)

abbrev pub check_path : ℕ → ℕ → Bytes → LockTable → Option Bytes → LockTable × Answer
check_path now uid header t none = (t, err Error.invalid_path)
check_path now uid header t (some np) = check_from (suc (length np)) now uid np header t

abbrev pub check_user : ℕ → Bytes → Bytes → LockTable → Result Error ℕ → LockTable × Answer
check_user now p header t (err e) = (t, err e)
check_user now p header t (ok uid) = check_path now uid header t (normalize_path p)

-- DAV.checkLockOwned
unfoldable pub check_lock_owned :
    Services → ℕ → Bytes → Bytes → Bytes → LockTable → LockTable × Answer
check_lock_owned env now user p header t =
    if not env.has_locks then (t, ok tt) else check_user now p header t (resolve_user env user)

-- d.Meta.GetByID: the owner's id and the path of a file
abbrev pub FileById : Type 0
FileById = ℕ → Result FileError (ℕ × Bytes)

abbrev owned_by : ℕ → Result FileError (ℕ × Bytes) → Result Error Bytes
owned_by uid (err e) = err (map_meta e)
owned_by uid (ok (owner, path)) = if not (owner == uid) then err Error.not_found else ok path

-- DAV.ownedFile, where d.Meta is set
unfoldable pub owned_file : Services → FileById → Bytes → ℕ → Result Error Bytes
unfolding resolve_user
owned_file env by_id uid file_id = elim (resolve_user env uid) [
  | err e ↦ err e
  | ok u ↦ if file_id == 0 then err Error.not_found else owned_by u (by_id file_id)
]

-- DAV.LockByFileID
unfoldable pub lock_by_file_id :
    Services
    → FileById
    → ℕ
    → ℕ
    → Result Error Bytes
    → Bytes
    → ℕ
    → LockRequest
    → LockTable
    → LockTable × Result Error LockInfo
unfolding owned_file
lock_by_file_id env by_id now_stat now new_token uid file_id req t =
    elim (owned_file env by_id uid file_id) [
      | err e ↦ (t, err e)
      | ok path ↦ lock env now_stat now new_token uid path req t
    ]

-- DAV.UnlockByFileID
unfoldable pub unlock_by_file_id :
    Services → FileById → ℕ → ℕ → Bytes → ℕ → Bytes → LockTable → LockTable × Answer
unfolding owned_file
unlock_by_file_id env by_id now_stat now uid file_id token t =
    elim (owned_file env by_id uid file_id) [
      | err e ↦ (t, err e)
      | ok path ↦ unlock env now_stat now uid path token t
    ]
