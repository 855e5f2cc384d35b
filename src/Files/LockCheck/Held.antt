-- ===== src/Files/LockCheck/Held.antt =====
-- What a lock in force means to Unlock and to the check of a write on its path.
use nextcloud_go.Prelude.{
  ℕ, suc, ◌+◌, ◌<◌, true, false, Option, none, some, [], Bytes, ◌≡◌, refl, ap, ◌∙◌, lt→ltb, ◌==◌,
  ◌=?◌, bytes_equality, if◌then◌else◌, length, arith, Bool-cases, inl, inr,
}
use nextcloud_go.Errors.{Error, Result, ok, err}
use nextcloud_go.Webdav.LockToken.{lock_header_has_token}
use nextcloud_go.Files.Path.{normalize_path}
use nextcloud_go.Files.Path.Idempotent.{normalize_path_idem}
use nextcloud_go.Files.LockStore.{FileLock, LockTable, select, get_by_path, delete, found}
use nextcloud_go.Files.LockStore.Unique.{IsTable}
use nextcloud_go.Files.LockStore.Lookup.{filter_row, get_by_path-select}
use nextcloud_go.Files.Lock.{
  Services, LockRequest, LockInfo, milli, lock_timeout, expire_lock, resolve_user, lock_at,
  unlock_at, token_matches,
}
use nextcloud_go.Files.Lock.View.{in_force, live}
use nextcloud_go.Files.Lock.Exclusion.{IsTarget, Granted, lock_at-Granted}
use nextcloud_go.Files.LockCheck.{check_from, check_user, check_path, check_lock_owned}

select-live :
    (now : ℕ) (l : FileLock) (o : Option FileLock)
    → filter_row (in_force now) o ≡ some l
    → (o ≡ some l) × (in_force now l ≡ true)
select-live now l none e = absurd (ground arith)
select-live now l (some m) e = elim (Bool-cases (in_force now m)) [
  | inl f ↦ (ground arith, ground arith)
  | inr f ↦ absurd (ground arith)
]

get_by_path-live :
    (now : ℕ) (t : LockTable) (uid : ℕ) (np : Bytes) (l : FileLock)
    → IsTarget uid np
    → live now t uid np ≡ some l
    → (get_by_path t uid np ≡ ok l) × (in_force now l ≡ true)
unfolding live
get_by_path-live now t uid np l target e =
    let (s, f) = select-live now l (select uid np t.rows) e in
    (get_by_path-select t uid np target.1 target.0 ∙ ap found s, f)

check_from-live :
    (fuel now uid : ℕ) (np header : Bytes) (t : LockTable) (l : FileLock)
    → IsTarget uid np
    → live now t uid np ≡ some l
    → check_from (suc fuel) now uid np header t
      ≡ (t, if lock_header_has_token header l.token then ok tt else err Error.locked)
unfolding check_from expire_lock
check_from-live fuel now uid np header t l target e =
    let (g, f) = get_by_path-live now t uid np l target e in rw g (rw f refl)

-- A write to a valid path of a stored user on which a lock is in force passes with the lock's
-- token in its header and is answered by ErrLocked otherwise; the table stays as it is.
pub check_lock_owned-live :
    (env : Services) (now uid : ℕ) (user p np header : Bytes) (t : LockTable) (l : FileLock)
    → env.has_locks ≡ true
    → resolve_user env user ≡ ok uid
    → (uid == 0) ≡ false
    → normalize_path p ≡ some np
    → live now t uid np ≡ some l
    → check_lock_owned env now user p header t
      ≡ (t, if lock_header_has_token header l.token then ok tt else err Error.locked)
unfolding check_lock_owned
check_lock_owned-live env now uid user p np header t l locks resolved real path e = simp locks (
    ap (check_user now p header t) resolved
    ∙ ap (check_path now uid header t) path
    ∙ check_from-live (length np) now uid np header t l (real, normalize_path_idem p np path) e)

-- Unlock with a token that is not empty, on a canonical path of a stored user on which a lock is
-- in force: under the lock's own token the row goes, and under another the answer is ErrConflict
-- and the table stays.
pub unlock_at-live :
    (now uid : ℕ) (np token : Bytes) (t : LockTable) (l : FileLock)
    → IsTarget uid np
    → live now t uid np ≡ some l
    → (token =? []) ≡ false
    → unlock_at now token uid np t
      ≡ (if token_matches l.token token then (delete t l.id, ok tt) else (t, err Error.conflict))
unfolding unlock_at expire_lock
unlock_at-live now uid np token t l target e some_token =
    let (g, f) = get_by_path-live now t uid np l target e in rw (some_token, g) (rw f refl)

-- Where the path is valid, the user is stored and the table meets its constraints: behind a Lock
-- that succeeds and until it expires, checkLockOwned passes a write to the path if the header has
-- the token that Lock answered, and answers ErrLocked otherwise; the table stays as it is.
pub check_lock_owned-lock_at :
    (env : Services) (now later uid : ℕ) (new_token : Result Error Bytes) (user p np header : Bytes)
    (req : LockRequest) (t t' : LockTable) (info : LockInfo)
    → env.has_locks ≡ true
    → resolve_user env user ≡ ok uid
    → (uid == 0) ≡ false
    → normalize_path p ≡ some np
    → IsTable t
    → lock_at now new_token uid np req t ≡ (t', ok info)
    → milli later < milli (now + lock_timeout req.timeout)
    → check_lock_owned env later user p header t'
      ≡ (t', if lock_header_has_token header info.token then ok tt else err Error.locked)
unfolding live
check_lock_owned-lock_at env now later uid new_token user p np header req t t' info locks resolved
      real path h q early =
    let target : IsTarget uid np = (real, normalize_path_idem p np path) in
    let g : Granted now uid np req t t' info =
      lock_at-Granted now new_token uid np req t t' info h target q in
    let f : in_force later g.row ≡ true =
      lt→ltb (milli later) g.row.timeout_ms (omega (arith, g.expiry, early)) in
    let e : live later t' uid np ≡ some g.row = rw g.stored (rw f refl) in
    check_lock_owned-live env later uid user p np header t' g.row locks resolved real path e
    ∙ ap (λ tok. (t', if lock_header_has_token header tok then ok tt else err Error.locked)) g.token
