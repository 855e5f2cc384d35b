-- ===== src/Files/WopiLock/Contract.antt =====
-- What WOPI relies on: a lock excludes other tokens, is seen under its token until it expires, and
-- goes only under its token.
use nextcloud_go.Prelude.{
  ℕ, ◌+◌, ◌<◌, true, false, ◌&&◌, Option, none, some, Bytes, ◌≡◌, refl, sym, ◌∙◌, lt→ltb, ◌==◌,
  ◌=?◌, bytes_equality, bytes_eq_iff, if◌then◌else◌, arith, Bool-cases, Option-cases, inl, inr, ℤ,
}
use nextcloud_go.Errors.{Error, FileError, Result, ok, err}
use nextcloud_go.Files.LockStore.{
  FileLock, LockTable, select, insert, set_timeout, update_timeout, delete,
}
use nextcloud_go.Files.LockStore.Unique.{IsTable}
use nextcloud_go.Files.LockStore.Lookup.{select-set_timeout, get_by_path-select}
use nextcloud_go.Files.Lock.{LockInfo, milli, lock_timeout, expire_lock}
use nextcloud_go.Files.Lock.View.{in_force, live, live_given, live-delete}
use nextcloud_go.Files.Lock.Exclusion.{IsTarget, insert_ok, select_head}
use nextcloud_go.Files.WopiLock.{
  held_with_token, stored, token_row, fresh_with_token, token_found, lock_at_with_token,
  unlock_at_with_token, lock_token_of,
}

module _ (now uid : ℕ) (np : Bytes) (t : LockTable) (target : IsTarget uid np) where
  at_row :
      (o : Option FileLock)
      → select uid np t.rows ≡ o
      → (l : FileLock) → live now t uid np ≡ some l
      → (select uid np t.rows ≡ some l) × (in_force now l ≡ true)
  unfolding live
  at_row none s l e = absurd (ground arith)
  at_row (some m) s l e = elim (Bool-cases (in_force now m)) [
    | inl f ↦ (ground arith, ground arith)
    | inr f ↦ absurd (ground arith)
  ]

  -- On a canonical path of a stored user, while a lock is in force there under another token:
  -- LockWithToken answers ErrLocked and changes nothing.
  pub lock_at_with_token_excluded :
      (token : Bytes) (timeout : ℤ) (l : FileLock)
      → live now t uid np ≡ some l
      → (l.token =? token) ≡ false
      → lock_at_with_token now token timeout uid np t ≡ (t, err Error.locked)
  unfolding lock_at_with_token held_with_token expire_lock
  lock_at_with_token_excluded token timeout l e other =
      let (s, f) = at_row (select uid np t.rows) refl l e in
      rw (get_by_path-select t uid np target.1 target.0, s) (rw (f, other) refl)

  -- On a canonical path of a stored user, while a lock is in force there under another token:
  -- UnlockWithToken answers ErrConflict and the lock stays.
  pub unlock_at_with_token_mismatch :
      (token : Bytes) (l : FileLock)
      → live now t uid np ≡ some l
      → (l.token =? token) ≡ false
      → unlock_at_with_token now token uid np t ≡ (t, err Error.conflict)
  unfolding unlock_at_with_token expire_lock
  unlock_at_with_token_mismatch token l e other =
      let (s, f) = at_row (select uid np t.rows) refl l e in
      rw (get_by_path-select t uid np target.1 target.0, s) (rw (f, other) refl)

  -- On a table that meets its constraints and a canonical path of a stored user: UnlockWithToken
  -- under the token of the lock in force deletes its row, and every other path has the lock in
  -- force that it had.
  pub unlock_at_with_token_own :
      (token : Bytes) (l : FileLock)
      → IsTable t
      → live now t uid np ≡ some l
      → (l.token =? token) ≡ true
      → (unlock_at_with_token now token uid np t ≡ (delete t l.id, ok tt))
        × ((u : ℕ) (p : Bytes)
            → live now (delete t l.id) u p ≡ (if uid == u && np =? p then none else live now t u p))
  unfolding unlock_at_with_token expire_lock
  unlock_at_with_token_own token l h e own =
      let (s, f) = at_row (select uid np t.rows) refl l e in
      (
        rw (get_by_path-select t uid np target.1 target.0, s) (rw (f, own) refl),
        λ u p. live-delete now t uid np l u p h s,
      )

  stored_ok :
      (token : Bytes) (timeout : ℤ) (t1 t' : LockTable) (r : LockTable × Result FileError FileLock)
      (info : LockInfo)
      → insert t1 (token_row now uid np token timeout) ≡ r
      → stored now r ≡ (t', ok info)
      → (row : FileLock) × (select uid np t'.rows ≡ some row)
        × (row.token ≡ token)
        × (row.timeout_ms ≡ milli (now + lock_timeout timeout))
  stored_ok token timeout t1 t' (t2, err FileError.exists) info q e = absurd (ground arith)
  stored_ok token timeout t1 t' (t2, err x) info q e = absurd (ground arith)
  stored_ok token timeout t1 t' (t2, ok row) info q e =
      let (built, rows) = insert_ok t1 t2 (token_row now uid np token timeout) row target.1 q in
      let same : t2.rows ≡ t'.rows = ground arith in
      (
        row,
        select_head uid np row t1 t' (ground arith) (ground arith) (sym same ∙ rows),
        ground arith,
        ground arith,
      )

  -- The row that a successful LockWithToken leaves.
  abbrev Left : Bytes → ℤ → LockTable → Type 0
  Left token timeout t' =
      (row : FileLock) × (select uid np t'.rows ≡ some row)
      × (row.token ≡ token)
      × (row.timeout_ms ≡ milli (now + lock_timeout timeout))

  held_with_token_ok :
      (token : Bytes) (timeout : ℤ) (l : FileLock) (t' : LockTable) (info : LockInfo)
      → IsTable t
      → select uid np t.rows ≡ some l
      → held_with_token now token timeout l t ≡ (t', ok info)
      → Left token timeout t'
  unfolding held_with_token update_timeout
  held_with_token_ok token timeout l t' info h s q = elim (Bool-cases (l.token =? token)) [
    | inl e ↦
        let id = live_given t uid np l h s in
        let ms : ℕ = milli (now + lock_timeout timeout) in
        let rows : t'.rows ≡ set_timeout l.id ms t.rows = ground arith in
        (
          record l { timeout_ms = ms },
          rw (rows, select-set_timeout l.id ms uid np t.rows, s) (ground arith),
          (bytes_eq_iff l.token token).0 e,
          refl,
        )
    | inr e ↦ absurd (ground arith)
  ]

  lock_at_with_token_ok :
      (token : Bytes) (timeout : ℤ) (t' : LockTable) (info : LockInfo)
      → IsTable t
      → lock_at_with_token now token timeout uid np t ≡ (t', ok info)
      → Left token timeout t'
  unfolding lock_at_with_token fresh_with_token expire_lock
  lock_at_with_token_ok token timeout t' info h q = elim (Option-cases (select uid np t.rows)) [
    | inl n ↦
        stored_ok token timeout t t' (insert t (token_row now uid np token timeout)) info refl
          (rw (get_by_path-select t uid np target.1 target.0, n) at q)
    | inr (l, s) ↦
        let q' : token_found now uid np token timeout t (ok l) ≡ (t', ok info) =
          rw (get_by_path-select t uid np target.1 target.0, s) at q in
        elim (Bool-cases (in_force now l)) [
          | inl f ↦ held_with_token_ok token timeout l t' info h s (rw f at q')
          | inr f ↦
              stored_ok token timeout (delete t l.id) t'
                (insert (delete t l.id) (token_row now uid np token timeout)) info refl (rw f at q')
        ]
  ]

  -- On a table that meets its constraints and a canonical path of a stored user: after a
  -- successful LockWithToken and until the lock expires, LockTokenAt answers the token and changes
  -- nothing.
  pub lock_token_of-lock_at_with_token :
      (token : Bytes) (timeout : ℤ) (t' : LockTable) (info : LockInfo) (later : ℕ)
      → IsTable t
      → lock_at_with_token now token timeout uid np t ≡ (t', ok info)
      → milli later < milli (now + lock_timeout timeout)
      → lock_token_of later uid np t' ≡ (t', ok (some token))
  unfolding lock_token_of expire_lock
  lock_token_of-lock_at_with_token token timeout t' info later h q early =
      let (row, s, same, until) = lock_at_with_token_ok token timeout t' info h q in
      let f : in_force later row ≡ true =
        lt→ltb (milli later) row.timeout_ms (omega (arith, until, early)) in
      rw (get_by_path-select t' uid np target.1 target.0, s) (rw (f, same) refl)
