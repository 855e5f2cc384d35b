-- ===== src/Webdav/Memory/Locks.antt =====
-- The locks of InMemoryFS, in internal/webdav/lock.go, and the operations of fs.go that read them
-- (Stat, List), drop them (Remove) or set a property (PatchProps). Times are nanoseconds.
use nextcloud_go.Prelude.{
  ℕ, zero, suc, ◌+◌, ◌-◌, Bool, not, ◌&&◌, ◌||◌, Option, none, some, List, [], ◌∷◌, ◌++◌, Bytes,
  ltb, ◌=?◌, bytes_equality, if◌then◌else◌, length,
}
use nextcloud_go.Text.{trim_prefix}
use nextcloud_go.Dict.{Dict, get, put, remove, remove_if}
use nextcloud_go.Errors.{Error, Result, ok, err}
use nextcloud_go.Webdav.LockToken.{strip_lock_token, lock_header_has_token}
use nextcloud_go.Files.Path.{parent_file_path}
use nextcloud_go.Files.Lock.{LockRequest, LockInfo, lock_timeout}
use nextcloud_go.Webdav.Memory.{
  Entry, FileNode, Files, UserTree, MemLock, InMemoryFs, set_tree, set_files, slash, ensure_user,
  mem_path, dir_of, below, drop_node,
}

abbrev pub in_locks : Option (Dict Bytes MemLock) → Bytes → Option MemLock
in_locks none p = none
in_locks (some m) p = get m p

-- memLockLocked
unfoldable pub mem_lock : InMemoryFs → Bytes → Bytes → Option MemLock
mem_lock fs user p = in_locks (get fs.locks user) p

abbrev pub set_locks : InMemoryFs → Bytes → Dict Bytes MemLock → InMemoryFs
set_locks fs user m = record fs { locks = put fs.locks user m }

-- What happens to the user's map, if there is one.
abbrev pub change_locks :
    InMemoryFs
    → Bytes
    → Option (Dict Bytes MemLock)
    → (Dict Bytes MemLock → Dict Bytes MemLock)
    → InMemoryFs
change_locks fs user none f = fs
change_locks fs user (some m) f = set_locks fs user (f m)

abbrev pub drop_expired : ℕ → Bytes → Dict Bytes MemLock → Option MemLock → Dict Bytes MemLock
drop_expired now p m none = m
drop_expired now p m (some l) = if ltb now l.timeout then m else remove m p

-- expireMemLockLocked
unfoldable pub expire_mem_lock : ℕ → Bytes → Bytes → InMemoryFs → InMemoryFs
expire_mem_lock now user p fs =
    change_locks fs user (get fs.locks user) (λ m. drop_expired now p m (get m p))

abbrev pub unlocked_entry : Entry → Entry
unlocked_entry e = record e { lock_token = []; lock_owner = []; lock_timeout = 0 }

-- applyMemLockLocked on the lock that it finds
unfoldable pub show_lock : ℕ → Option MemLock → Entry → Entry
show_lock now none e = unlocked_entry e
show_lock now (some l) e =
    if ltb now l.timeout
    then record e { lock_token = l.token; lock_owner = l.owner; lock_timeout = l.timeout - now }
    else unlocked_entry e

-- Stat; the entry in the tree takes the lock's fields too.
unfoldable pub mem_stat : ℕ → Bytes → Bytes → InMemoryFs → InMemoryFs × Result Error Entry
mem_stat now user p fs =
    let (fs1, t) = ensure_user now fs user in
    let np = mem_path p in
    if np =? slash
    then (let e = show_lock now (mem_lock fs1 user slash) t.root in
        (set_tree fs1 user (record t { root = e }), ok e))
    else elim (get t.files np) [
      | none ↦ (fs1, err Error.not_found)
      | some n ↦
          let e = show_lock now (mem_lock fs1 user np) n.entry in
          (set_files fs1 user t (put t.files np (record n { entry = e })), ok e)
    ]

-- The loop of List: the tree with the locks shown on the children, and the children.
unfoldable pub list_loop : (Bytes → Entry → Entry) → Bytes → Files → Files × List Entry
list_loop shown np [] = ([], [])
list_loop shown np ((fp, n) ∷ files) =
    let (files', out) = list_loop shown np files in
    if dir_of fp =? np
    then (let e = shown fp n.entry in ((fp, record n { entry = e }) ∷ files', e ∷ out))
    else ((fp, n) ∷ files', out)

abbrev pub listable : Bytes → Option FileNode → Option Error
listable np none = if np =? slash then none else some Error.not_found
listable np (some n) = if np =? slash || n.entry.is_dir then none else some Error.not_dir

-- List
unfoldable pub mem_list : ℕ → Bytes → Bytes → InMemoryFs → InMemoryFs × Result Error (List Entry)
mem_list now user p fs =
    let (fs1, t) = ensure_user now fs user in
    let np = mem_path p in
    elim (listable np (get t.files np)) [
      | some e ↦ (fs1, err e)
      | none ↦
          let (files, out) =
            list_loop (λ fp e. show_lock now (mem_lock fs1 user fp) e) np t.files in
          (set_files fs1 user t files, ok out)
    ]

-- The keys that deleteMemLocksLocked drops besides the path itself.
abbrev pub dropped_with : Bytes → Bytes → Bool
dropped_with p fp = not (p =? slash) && below p fp || p =? slash && not (fp =? slash)

-- deleteMemLocksLocked
unfoldable pub delete_mem_locks : Bytes → Bytes → InMemoryFs → InMemoryFs
delete_mem_locks user p fs =
    change_locks fs user (get fs.locks user) (λ m. remove_if (dropped_with p) (remove m p))

-- Where renameMemLocksLocked puts the lock of a path.
abbrev pub renamed : Bytes → Bytes → Bytes → Option Bytes
renamed src dst fp =
    if fp =? src then some dst else if below src fp then some (dst ++ trim_prefix src fp) else none

abbrev pub cons_move : Option Bytes → MemLock → Dict Bytes MemLock → Dict Bytes MemLock
cons_move none l moves = moves
cons_move (some fp) l moves = (fp, l) ∷ moves

-- the pairs of `to` and `lk`
unfoldable pub lock_moves : Bytes → Bytes → Dict Bytes MemLock → Dict Bytes MemLock
lock_moves src dst [] = []
lock_moves src dst ((fp, l) ∷ m) = cons_move (renamed src dst fp) l (lock_moves src dst m)

abbrev pub moves_away : Bytes → Bytes → Bool
moves_away src fp = fp =? src || below src fp

unfoldable pub put_all : Dict Bytes MemLock → Dict Bytes MemLock → Dict Bytes MemLock
put_all [] m = m
put_all ((fp, l) ∷ moves) m = put_all moves (put m fp l)

-- renameMemLocksLocked
unfoldable pub rename_mem_locks : Bytes → Bytes → Bytes → InMemoryFs → InMemoryFs
rename_mem_locks user src dst fs =
    change_locks fs user (get fs.locks user)
      (λ m. put_all (lock_moves src dst m) (remove_if (moves_away src) m))

-- memLockInfo: `-` stops at 0, as its test makes it
abbrev pub mem_lock_info : Bytes → MemLock → ℕ → LockInfo
mem_lock_info path l now = record {
  token = l.token;
  owner = l.owner;
  timeout = l.timeout - now;
  path = path;
  depth_infinity = l.depth_infinity;
}

abbrev pub or_no_locks : Option (Dict Bytes MemLock) → Dict Bytes MemLock
or_no_locks none = []
or_no_locks (some m) = m

abbrev pub store_lock : InMemoryFs → Bytes → Bytes → MemLock → InMemoryFs
store_lock fs user np l = set_locks fs user (put (or_no_locks (get fs.locks user)) np l)

abbrev pub new_lock : ℕ → LockRequest → Bytes → MemLock
new_lock now req token = record {
  token = token;
  owner = req.owner;
  timeout = now + lock_timeout req.timeout;
  created = now;
  depth_infinity = req.depth_infinity;
}

-- Lock behind Stat and the expiry of what it finds; `token` is what randomLockToken answers.
unfoldable pub lock_found_mem :
    ℕ
    → Result Error Bytes
    → Bytes
    → Bytes
    → LockRequest
    → InMemoryFs
    → Option MemLock
    → InMemoryFs × Result Error LockInfo
lock_found_mem now token user np req fs (some l) =
    if lock_header_has_token req.token l.token
    then (let l' = record l { timeout = now + lock_timeout req.timeout } in
        (store_lock fs user np l', ok (mem_lock_info np l' now)))
    else (fs, err Error.locked)
lock_found_mem now (err e) user np req fs none =
    if req.refresh then (fs, err Error.precondition) else (fs, err e)
lock_found_mem now (ok token) user np req fs none =
    if req.refresh
    then (fs, err Error.precondition)
    else (let l = new_lock now req token in (store_lock fs user np l, ok (mem_lock_info np l now)))

abbrev pub lock_after_stat :
    ℕ
    → Result Error Bytes
    → Bytes
    → Bytes
    → LockRequest
    → InMemoryFs × Result Error Entry
    → InMemoryFs × Result Error LockInfo
lock_after_stat now token user np req (fs, err e) = (fs, err e)
lock_after_stat now token user np req (fs, ok e) =
    let fs1 = expire_mem_lock now user np fs in
    lock_found_mem now token user np req fs1 (mem_lock fs1 user np)

-- InMemoryFS.Lock
unfoldable pub mem_lock_op :
    ℕ
    → Result Error Bytes
    → Bytes
    → Bytes
    → LockRequest
    → InMemoryFs
    → InMemoryFs × Result Error LockInfo
mem_lock_op now token user p req fs =
    lock_after_stat now token user (mem_path p) req (mem_stat now user (mem_path p) fs)

unfoldable pub unlock_found_mem :
    Bytes → Bytes → Bytes → InMemoryFs → Option MemLock → InMemoryFs × Result Error (Unit {0})
unlock_found_mem user np token fs none = (fs, err Error.conflict)
unlock_found_mem user np token fs (some l) =
    if not (l.token =? strip_lock_token token)
    then (fs, err Error.conflict)
    else (change_locks fs user (get fs.locks user) (λ m. remove m np), ok tt)

abbrev pub unlock_after_stat :
    ℕ
    → Bytes
    → Bytes
    → Bytes
    → InMemoryFs × Result Error Entry
    → InMemoryFs × Result Error (Unit {0})
unlock_after_stat now user np token (fs, err e) = (fs, err e)
unlock_after_stat now user np token (fs, ok e) =
    let fs1 = expire_mem_lock now user np fs in
    unlock_found_mem user np token fs1 (mem_lock fs1 user np)

-- InMemoryFS.Unlock
unfoldable pub mem_unlock :
    ℕ → Bytes → Bytes → Bytes → InMemoryFs → InMemoryFs × Result Error (Unit {0})
mem_unlock now user p token fs =
    unlock_after_stat now user (mem_path p) token (mem_stat now user (mem_path p) fs)

-- What a lock on `cur` says of a write to `np`; `none` sends the loop on.
abbrev pub lock_verdict : Bytes → Bytes → Bytes → Option MemLock → Option (Result Error (Unit {0}))
lock_verdict np header cur none = none
lock_verdict np header cur (some l) =
    if cur =? np || l.depth_infinity
    then some (if lock_header_has_token header l.token then ok tt else err Error.locked)
    else none

abbrev pub checked :
    InMemoryFs
    → Option (Result Error (Unit {0}))
    → InMemoryFs × Result Error (Unit {0})
    → InMemoryFs × Result Error (Unit {0})
checked fs (some r) rest = (fs, r)
checked fs none rest = rest

-- The loop of CheckLock; parentPath is the text of parentFilePath.
unfoldable pub check_lock_loop :
    ℕ → ℕ → Bytes → Bytes → Bytes → Bytes → InMemoryFs → InMemoryFs × Result Error (Unit {0})
check_lock_loop zero now user np header cur fs = (fs, ok tt)
check_lock_loop (suc fuel) now user np header cur fs =
    let fs1 = expire_mem_lock now user cur fs in
    let rest = check_lock_loop fuel now user np header (parent_file_path cur) fs1 in
    checked fs1 (lock_verdict np header cur (mem_lock fs1 user cur))
      (if cur =? slash then (fs1, ok tt) else rest)

-- CheckLock
unfoldable pub check_lock :
    ℕ → Bytes → Bytes → Bytes → InMemoryFs → InMemoryFs × Result Error (Unit {0})
check_lock now user p header fs =
    check_lock_loop (suc (length (mem_path p))) now user (mem_path p) header (mem_path p) fs

abbrev pub remove_found :
    Bytes → Bytes → InMemoryFs → UserTree → Option FileNode → InMemoryFs × Result Error (Unit {0})
remove_found user np fs t none = (fs, err Error.not_found)
remove_found user np fs t (some n) =
    (delete_mem_locks user np (set_files fs user t (drop_node np n t.files)), ok tt)

abbrev pub remove_in : Bytes → Bytes → InMemoryFs × UserTree → InMemoryFs × Result Error (Unit {0})
remove_in user np (fs, t) =
    if np =? slash then (fs, err Error.forbidden) else remove_found user np fs t (get t.files np)

-- Remove
unfoldable pub mem_remove : ℕ → Bytes → Bytes → InMemoryFs → InMemoryFs × Result Error (Unit {0})
mem_remove now user p fs = remove_in user (mem_path p) (ensure_user now fs user)
