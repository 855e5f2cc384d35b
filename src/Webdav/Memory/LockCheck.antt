-- ===== src/Webdav/Memory/LockCheck.antt =====
-- What a lock of InMemoryFS means to the check of a write on its path.
use nextcloud_go.Prelude.{
  ℕ, ◌+◌, ◌<◌, Option, none, some, [], Bytes, ◌≡◌, refl, sym, ap, subst, lt→ltb, bytes_equality,
  if◌then◌else◌, arith, Bool-cases, inl, inr, beq_refl,
}
use nextcloud_go.Dict.{Dict, get, put, get-put}
use nextcloud_go.Errors.{Error, Result, ok, err}
use nextcloud_go.Webdav.LockToken.{lock_header_has_token}
use nextcloud_go.Files.Lock.{LockRequest, LockInfo, lock_timeout}
use nextcloud_go.Webdav.Memory.{Entry, MemLock, InMemoryFs, mem_path}
use nextcloud_go.Webdav.Memory.Locks.{
  mem_lock, expire_mem_lock, store_lock, or_no_locks, new_lock, mem_lock_info, lock_found_mem,
  lock_after_stat, mem_lock_op, mem_stat, check_lock, check_lock_loop,
}

-- A lock on a path, as an answer of Lock describes it.
record Placed (user np : Bytes) (until : ℕ) (fs : InMemoryFs) (info : LockInfo) : Type 0 where
  locks : Dict Bytes MemLock
  lock : MemLock
  here : get fs.locks user ≡ some locks
  at : get locks np ≡ some lock
  token : lock.token ≡ info.token
  expires : lock.timeout ≡ until

store_lock-Placed :
    (now until : ℕ) (user np : Bytes) (fs fs' : InMemoryFs) (l : MemLock) (info : LockInfo)
    → l.timeout ≡ until
    → ◌≡◌ {A = InMemoryFs × Result Error LockInfo}
        (store_lock fs user np l, ok (mem_lock_info np l now))
        (fs', ok info)
    → Placed user np until fs' info
store_lock-Placed now until user np fs fs' l info h q =
    let locks = put (or_no_locks (get fs.locks user)) np l in
    let same : store_lock fs user np l ≡ fs' = ap (λ x. x.0) q in
    record {
      locks = locks;
      lock = l;
      here = subst (λ f. get f.locks user ≡ some locks) same (rw (get-put, beq_refl user) refl);
      at = rw (get-put, beq_refl np) refl;
      token = ap (λ x. token_or x.1) q;
      expires = h;
    }
  where
    token_or : Result Error LockInfo → Bytes
    token_or (ok i) = i.token
    token_or (err e) = []

lock_found_mem-Placed :
    (now : ℕ) (token : Result Error Bytes) (user np : Bytes) (req : LockRequest)
    (fs fs' : InMemoryFs) (o : Option MemLock) (info : LockInfo)
    → lock_found_mem now token user np req fs o ≡ (fs', ok info)
    → Placed user np (now + lock_timeout req.timeout) fs' info
unfolding lock_found_mem
lock_found_mem-Placed now token user np req fs fs' (some l) info q =
    elim (Bool-cases (lock_header_has_token req.token l.token)) [
      | inl e ↦
          store_lock-Placed now (now + lock_timeout req.timeout) user np fs fs'
            (record l { timeout = now + lock_timeout req.timeout }) info refl (ground arith)
      | inr e ↦ absurd (ground arith)
    ]
lock_found_mem-Placed now (err x) user np req fs fs' none info q = elim (Bool-cases req.refresh) [
  | inl e ↦ absurd (ground arith)
  | inr e ↦ absurd (ground arith)
]
lock_found_mem-Placed now (ok token) user np req fs fs' none info q =
    elim (Bool-cases req.refresh) [
      | inl e ↦ absurd (ground arith)
      | inr e ↦
          store_lock-Placed now (now + lock_timeout req.timeout) user np fs fs'
            (new_lock now req token) info refl (ground arith)
    ]

lock_after_stat-Placed :
    (now : ℕ) (token : Result Error Bytes) (user np : Bytes) (req : LockRequest)
    (r : InMemoryFs × Result Error Entry) (fs' : InMemoryFs) (info : LockInfo)
    → lock_after_stat now token user np req r ≡ (fs', ok info)
    → Placed user np (now + lock_timeout req.timeout) fs' info
lock_after_stat-Placed now token user np req (fs, err e) fs' info q = absurd (ground arith)
lock_after_stat-Placed now token user np req (fs, ok e) fs' info q =
    lock_found_mem-Placed now token user np req (expire_mem_lock now user np fs) fs'
      (mem_lock (expire_mem_lock now user np fs) user np) info q

-- A lock in force is still there after the expiry of its path.
mem_lock-expire_mem_lock :
    (now until : ℕ) (user np : Bytes) (fs : InMemoryFs) (info : LockInfo)
    (h : Placed user np until fs info)
    → now < until
    → mem_lock (expire_mem_lock now user np fs) user np ≡ some h.lock
unfolding mem_lock expire_mem_lock
mem_lock-expire_mem_lock now until user np fs info h early =
    rw (h.here, h.at)
      (rw
        (
          lt→ltb now h.lock.timeout (subst (λ x. now < x) (sym h.expires) early),
          get-put,
          beq_refl user,
        )
        h.at)

-- Behind a Lock of the in-memory file system that succeeds and until the lock expires, CheckLock
-- passes a write to the path if the header has the token that Lock answered, and answers ErrLocked
-- otherwise.
pub check_lock-mem_lock_op :
    (now later : ℕ) (token : Result Error Bytes) (user p header : Bytes) (req : LockRequest)
    (fs fs' : InMemoryFs) (info : LockInfo)
    → mem_lock_op now token user p req fs ≡ (fs', ok info)
    → later < now + lock_timeout req.timeout
    → (check_lock later user p header fs').1
      ≡ (if lock_header_has_token header info.token then ok tt else err Error.locked)
unfolding mem_lock_op check_lock check_lock_loop
check_lock-mem_lock_op now later token user p header req fs fs' info q early =
    let h : Placed user (mem_path p) (now + lock_timeout req.timeout) fs' info =
      lock_after_stat-Placed now token user (mem_path p) req (mem_stat now user (mem_path p) fs) fs'
        info q in
    rw
      (
        mem_lock-expire_mem_lock later (now + lock_timeout req.timeout) user (mem_path p) fs' info h
            early,
        beq_refl (mem_path p),
      )
      (ap (λ tok. if lock_header_has_token header tok then ok tt else err Error.locked) h.token)
