-- ===== src/Files/LockStore.antt =====
-- internal/files/lockstore.go: the statements of SQLLockStore on the table file_locks, whose
-- constraints are in internal/migrations/sql. The table is a list of rows with the next id of its
-- AUTOINCREMENT key; the database answers every statement.
pub mod Unique
pub mod Lookup
pub mod Subtree
use nextcloud_go.Prelude.{
  ℕ, suc, ◌+◌, ◌*◌, ◌-◌, ◌≤◌, Bool, true, false, not, ◌&&◌, ◌||◌, Option, none, some, List, [], ◌∷◌,
  ◌++◌, Bytes, ltb, leb, ◌==◌, ◌=?◌, bytes_equality, if◌then◌else◌, keep, any, map,
}
use nextcloud_go.Text.{trim_prefix}
use nextcloud_go.Errors.{FileError, Result, ok, err}
use nextcloud_go.Files.Path.{normalize_path}

pub record FileLock : Type 0 where
  pub id : ℕ
  pub user_id : ℕ
  pub path : Bytes
  pub token : Bytes
  pub owner : Bytes
  pub timeout_ms : ℕ
  pub created_ms : ℕ

pub record LockTable : Type 0 where
  pub rows : List FileLock
  pub next_id : ℕ

abbrev pub at_key : ℕ → Bytes → FileLock → Bool
at_key uid p l = l.user_id == uid && l.path =? p

-- SELECT … WHERE user_id = ? AND file_path = ?
unfoldable pub select : ℕ → Bytes → List FileLock → Option FileLock
select uid p [] = none
select uid p (l ∷ rows) = let rest = select uid p rows in if at_key uid p l then some l else rest

abbrev pub found : Option FileLock → Result FileError FileLock
found none = err FileError.not_found
found (some l) = ok l

-- GetByPath
unfoldable pub get_by_path : LockTable → ℕ → Bytes → Result FileError FileLock
unfolding select
get_by_path t uid p = if uid == 0 then err FileError.not_found else elim (normalize_path p) [
  | none ↦ err FileError.invalid_path
  | some np ↦ found (select uid np t.rows)
]

-- SELECT … WHERE token = ?
unfoldable pub with_lock_token : Bytes → List FileLock → Option FileLock
with_lock_token tok [] = none
with_lock_token tok (l ∷ rows) =
    let rest = with_lock_token tok rows in if l.token =? tok then some l else rest

-- GetByToken
unfoldable pub get_by_token : LockTable → Bytes → Result FileError FileLock
get_by_token t tok =
    if tok =? [] then err FileError.not_found else found (with_lock_token tok t.rows)

-- The UNIQUE constraints: (user_id, file_path) and (token).
abbrev pub clash : ℕ → Bytes → Bytes → FileLock → Bool
clash uid p tok l = at_key uid p l || l.token =? tok

abbrev invalid_lock : FileError
invalid_lock = FileError.store_failure 0

-- INSERT INTO file_locks, under its UNIQUE constraints; the row comes back with its id.
unfoldable pub add : LockTable → FileLock → LockTable × Result FileError FileLock
unfolding any
add t l =
    if any (clash l.user_id l.path l.token) t.rows
    then (t, err FileError.exists)
    else (let row = record l { id = t.next_id } in
        (record { rows = row ∷ t.rows; next_id = suc t.next_id }, ok row))

-- Insert
unfoldable pub insert : LockTable → FileLock → LockTable × Result FileError FileLock
insert t l =
    if l.user_id == 0 || l.token =? []
    then (t, err invalid_lock)
    else elim (normalize_path l.path) [
      | none ↦ (t, err FileError.invalid_path)
      | some np ↦ add t (record l { path = np })
    ]

-- UPDATE file_locks SET timeout_ms = ? WHERE id = ?
unfoldable pub set_timeout : ℕ → ℕ → List FileLock → List FileLock
set_timeout id ms [] = []
set_timeout id ms (l ∷ rows) =
    (if l.id == id then record l { timeout_ms = ms } else l) ∷ set_timeout id ms rows

-- UpdateTimeout
unfoldable pub update_timeout : LockTable → ℕ → ℕ → LockTable × Result FileError (Unit {0})
unfolding set_timeout
update_timeout t id ms =
    if id == 0
    then (t, err (FileError.store_failure 1))
    else (record t { rows = set_timeout id ms t.rows }, ok tt)

-- Delete
unfoldable pub delete : LockTable → ℕ → LockTable
unfolding keep
delete t id = if id == 0 then t else record t { rows = keep (λ l. not (l.id == id)) t.rows }

-- DeleteExpired
unfoldable pub delete_expired : LockTable → ℕ → LockTable
unfolding keep
delete_expired t now_ms = record t {
  rows = keep (λ l. not (ltb 0 l.timeout_ms && leb l.timeout_ms now_ms)) t.rows;
}
