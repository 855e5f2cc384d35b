-- ===== src/Sharing/Subtree.antt =====
-- The statements of SQLShareStore on the shares of a subtree: ListByPrefix, DeleteByPath and
-- RenamePath of internal/sharing/sqlstore.go. The order of ListByPrefix is not observed: RenamePath
-- writes each row by its id.
pub mod Exact
use nextcloud_go.Prelude.{
  ℕ, Bool, true, false, not, ◌&&◌, ◌||◌, Option, none, some, List, [], ◌∷◌, ◌++◌, Bytes, text, ◌==◌,
  ◌=?◌, bytes_equality, if◌then◌else◌, keep,
}
use nextcloud_go.Text.{trim_prefix}
use nextcloud_go.Text.Like.{Dialect, selects}
use nextcloud_go.Errors.{Result, ok, err}
use nextcloud_go.Files.Path.{normalize_path}
use nextcloud_go.Sharing.Store.{ShareError, Share, ShareTable, update_row}

-- WHERE owner_user_id = ? AND (file_path = ? OR file_path LIKE ?)
abbrev pub in_subtree : Dialect → ℕ → Bytes → Share → Bool
in_subtree d uid np r = r.owner_user_id == uid && selects d np r.path

abbrev listed : Dialect → ShareTable → ℕ → Option Bytes → Result ShareError (List Share)
listed d t uid none = err ShareError.invalid_path
listed d t uid (some np) = ok (keep (in_subtree d uid np) t.rows)

-- ListByPrefix
unfoldable pub list_by_prefix : Dialect → ShareTable → ℕ → Bytes → Result ShareError (List Share)
list_by_prefix d t uid path = listed d t uid (normalize_path path)

abbrev pub deleted_at :
    Dialect → ShareTable → ℕ → Option Bytes → ShareTable × Result ShareError (Unit {0})
deleted_at d t uid none = (t, err ShareError.invalid_path)
deleted_at d t uid (some np) =
    (record t { rows = keep (λ r. not (in_subtree d uid np r)) t.rows }, ok tt)

-- DeleteByPath
unfoldable pub delete_by_path :
    Dialect → ShareTable → ℕ → Bytes → ShareTable × Result ShareError (Unit {0})
delete_by_path d t uid path = deleted_at d t uid (normalize_path path)

abbrev pub next_path : Bytes → Bytes → Bytes → Bytes
next_path src dst old = if old =? src then dst else dst ++ trim_prefix src old

abbrev pub with_path : Bytes → Share → Share
with_path p r = record r { path = p }

-- The loop of RenamePath over the rows that were listed
unfoldable pub rename_rows : Bytes → Bytes → List Share → List Share → List Share
rename_rows src dst [] rows = rows
rename_rows src dst (item ∷ items) rows =
    rename_rows src dst items (update_row (with_path (next_path src dst item.path)) item.id rows)

abbrev pub renamed :
    ShareTable
    → ℕ
    → Bytes
    → Bytes
    → Result ShareError (List Share)
    → ShareTable × Result ShareError (Unit {0})
renamed t uid src dst (err e) = (t, err e)
renamed t uid src dst (ok items) = (record t { rows = rename_rows src dst items t.rows }, ok tt)

abbrev pub rename_from :
    Dialect
    → ShareTable
    → ℕ
    → Option Bytes
    → Option Bytes
    → ShareTable × Result ShareError (Unit {0})
rename_from d t uid none dst = (t, err ShareError.invalid_path)
rename_from d t uid (some src) none = (t, err ShareError.invalid_path)
rename_from d t uid (some src) (some dst) = renamed t uid src dst (list_by_prefix d t uid src)

-- RenamePath
unfoldable pub rename_path :
    Dialect → ShareTable → ℕ → Bytes → Bytes → ShareTable × Result ShareError (Unit {0})
rename_path d t uid src dst = rename_from d t uid (normalize_path src) (normalize_path dst)
