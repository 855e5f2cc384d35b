-- ===== src/Files/LockStore/Subtree.antt =====
-- The statements of SQLLockStore on the locks of a subtree: listByPrefix, DeleteByPath and RenamePath
-- of internal/files/lockstore.go. Text is ordered
-- by its bytes.
pub mod Moved
use nextcloud_go.Prelude.{
  ℕ, Bool, true, false, not, ◌&&◌, ◌||◌, Option, none, some, List, [], ◌∷◌, ◌++◌, Bytes, text, ltb,
  ◌==◌, ◌=?◌, bytes_equality, if◌then◌else◌, keep, any, map,
}
use nextcloud_go.Text.{trim_prefix}
use nextcloud_go.Text.Like.{Dialect, selects}
use nextcloud_go.Errors.{FileError, Result, ok, err}
use nextcloud_go.Files.Path.{normalize_path}
use nextcloud_go.Files.LockStore.{FileLock, LockTable, at_key}

-- WHERE user_id = ? AND (file_path = ? OR file_path LIKE ?)
abbrev pub in_subtree : Dialect → ℕ → Bytes → FileLock → Bool
in_subtree d uid np l = l.user_id == uid && selects d np l.path

abbrev pub comes_first : Bytes → Bytes → Bool
comes_first [] q = true
comes_first (x ∷ p) [] = false
comes_first (x ∷ p) (y ∷ q) = ltb x y || x == y && comes_first p q

-- ORDER BY file_path, as an insertion sort
unfoldable pub insert_by_path : FileLock → List FileLock → List FileLock
insert_by_path l [] = l ∷ []
insert_by_path l (m ∷ ls) =
    let rest = insert_by_path l ls in if comes_first l.path m.path then l ∷ m ∷ ls else m ∷ rest

unfoldable pub sort_by_path : List FileLock → List FileLock
sort_by_path [] = []
sort_by_path (l ∷ ls) = insert_by_path l (sort_by_path ls)

abbrev pub listed : Dialect → LockTable → ℕ → Option Bytes → Result FileError (List FileLock)
listed d t uid none = err FileError.invalid_path
listed d t uid (some np) = ok (sort_by_path (keep (in_subtree d uid np) t.rows))

-- listByPrefix
unfoldable pub list_by_prefix : Dialect → LockTable → ℕ → Bytes → Result FileError (List FileLock)
list_by_prefix d t uid path = listed d t uid (normalize_path path)

abbrev pub deleted_at :
    Dialect → LockTable → ℕ → Option Bytes → LockTable × Result FileError (Unit {0})
deleted_at d t uid none = (t, err FileError.invalid_path)
deleted_at d t uid (some np) =
    (record t { rows = keep (λ l. not (in_subtree d uid np l)) t.rows }, ok tt)

-- DeleteByPath
unfoldable pub delete_by_path :
    Dialect → LockTable → ℕ → Bytes → LockTable × Result FileError (Unit {0})
delete_by_path d t uid path = deleted_at d t uid (normalize_path path)

abbrev pub next_path : Bytes → Bytes → Bytes → Bytes
next_path src dst old = if old =? src then dst else dst ++ trim_prefix src old

abbrev pub with_path : ℕ → Bytes → FileLock → FileLock
with_path id p l = if l.id == id then record l { path = p } else l

-- Another row of the same user stands at the path that row `id` is to have.
abbrev pub path_taken : ℕ → Bytes → List FileLock → List FileLock → Bool
path_taken id p rows ls =
    any (λ l. l.id == id && any (λ m. at_key l.user_id p m && not (m.id == id)) rows) ls

-- UPDATE file_locks SET file_path = ? WHERE id = ?, under UNIQUE (user_id, file_path)
unfoldable pub set_path : ℕ → Bytes → LockTable → LockTable × Result FileError (Unit {0})
set_path id p t =
    if path_taken id p t.rows t.rows
    then (t, err (FileError.store_failure 2))
    else (record t { rows = map (with_path id p) t.rows }, ok tt)

abbrev pub then_rest :
    (LockTable → LockTable × Result FileError (Unit {0}))
    → LockTable × Result FileError (Unit {0})
    → LockTable × Result FileError (Unit {0})
then_rest go (t, err e) = (t, err e)
then_rest go (t, ok u) = go t

-- The loop of RenamePath over the rows that were listed; an error leaves the rows before it moved.
unfoldable pub rename_rows :
    Bytes → Bytes → List FileLock → LockTable → LockTable × Result FileError (Unit {0})
rename_rows src dst [] t = (t, ok tt)
rename_rows src dst (item ∷ items) t =
    let rest = rename_rows src dst items in
    then_rest rest (set_path item.id (next_path src dst item.path) t)

abbrev pub renamed :
    LockTable
    → Bytes
    → Bytes
    → Result FileError (List FileLock)
    → LockTable × Result FileError (Unit {0})
renamed t src dst (err e) = (t, err e)
renamed t src dst (ok items) = rename_rows src dst items t

abbrev pub rename_from :
    Dialect → LockTable → ℕ → Option Bytes → Option Bytes → LockTable × Result FileError (Unit {0})
rename_from d t uid none dst = (t, err FileError.invalid_path)
rename_from d t uid (some src) none = (t, err FileError.invalid_path)
rename_from d t uid (some src) (some dst) = renamed t src dst (list_by_prefix d t uid src)

-- RenamePath
unfoldable pub rename_path :
    Dialect → LockTable → ℕ → Bytes → Bytes → LockTable × Result FileError (Unit {0})
rename_path d t uid src dst = rename_from d t uid (normalize_path src) (normalize_path dst)
