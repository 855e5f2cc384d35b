-- ===== src/Tests/Locks.antt =====
-- A user with one file, a lock on it, and what the lock operations do there.
use nextcloud_go.Prelude.{
  ℕ, ◌+◌, nat_equality, true, false, none, some, [], ◌∷◌, Bytes, text, ◌≡◌, refl, arith, pos, ◌&&◌,
  ◌==◌, ◌=?◌, bytes_equality, contains, if◌then◌else◌, bytes_eq, all, any, keep, map,
}
use nextcloud_go.Text.{has_prefix, trim_prefix, trim_right, split, join}
use nextcloud_go.Errors.{Error, FileError, ok, err}
use nextcloud_go.Webdav.LockToken.{lock_header_has_token, strip_lock_token}
use nextcloud_go.Files.Path.{
  normalize_path, valid_utf8, slashes, rooted, untrailed, by_segments, rejoin, good_segment,
}
use nextcloud_go.Files.Path.Idempotent.{normalize_path_idem}
use nextcloud_go.Files.LockStore.{FileLock, LockTable, select, insert, add, delete, get_by_path}
use nextcloud_go.Text.Like.{sqlite, NoWildcard, like, some_tail, selects, at_or_below, resettled}
use nextcloud_go.Files.LockStore.Subtree.{
  rename_path, list_by_prefix, rename_rows, set_path, sort_by_path, insert_by_path,
}
use nextcloud_go.Files.LockStore.Subtree.Moved.{rename_path-moved}
use nextcloud_go.Files.Lock.Foreign.{foreign_lock_kept}
use nextcloud_go.Files.LockStore.Unique.{IsTable}
use nextcloud_go.Files.Lock.{
  token_matches, unlock, resolve_user, Services, LockRequest, second, lock_timeout, lock_at, lock,
  fresh, lock_info,
}
use nextcloud_go.Files.Lock.View.{live}
use nextcloud_go.Files.Lock.Exclusion.{IsTarget, Granted, lock_at_excluded, lock_at-Granted}
use nextcloud_go.Files.LockCheck.{check_lock_owned}
use nextcloud_go.Files.LockCheck.Held.{check_lock_owned-lock_at}
use nextcloud_go.Files.WopiLock.{
  lock_at_with_token, unlock_at_with_token, lock_token_of, fresh_with_token,
}
use nextcloud_go.Files.WopiLock.Contract.{
  unlock_at_with_token_own, lock_token_of-lock_at_with_token,
}

abbrev pub doc : Bytes
doc = text "/docs/a.txt"

pub doc_normal : normalize_path doc ≡ some doc
unfolding normalize_path valid_utf8 slashes rooted untrailed by_segments rejoin contains all split
    join has_prefix trim_right good_segment bytes_eq
doc_normal = refl

messy_path : normalize_path (text "docs\\a.txt//") ≡ some doc
unfolding normalize_path valid_utf8 slashes rooted untrailed by_segments rejoin contains all split
    join has_prefix trim_right good_segment bytes_eq
messy_path = refl

dotted_path : normalize_path (text "/docs/../secret") ≡ none
unfolding normalize_path valid_utf8 slashes rooted untrailed by_segments rejoin contains all split
    join has_prefix trim_right good_segment bytes_eq
dotted_path = refl

normalize_path_idem_example : normalize_path doc ≡ some doc
normalize_path_idem_example = normalize_path_idem (text "docs\\a.txt//") doc messy_path

abbrev row : FileLock
row = record {
  id = 1;
  user_id = 7;
  path = doc;
  token = text "opaquelocktoken:0a";
  owner = text "alice";
  timeout_ms = 100000;
  created_ms = 10;
}

abbrev table : LockTable
table = record { rows = row ∷ []; next_id = 2 }

new_normal : normalize_path (text "/new") ≡ some (text "/new")
unfolding normalize_path valid_utf8 slashes rooted untrailed by_segments rejoin contains all split
    join has_prefix trim_right good_segment bytes_eq
new_normal = refl

docs_normal : normalize_path (text "/docs") ≡ some (text "/docs")
unfolding normalize_path valid_utf8 slashes rooted untrailed by_segments rejoin contains all split
    join has_prefix trim_right good_segment bytes_eq
docs_normal = refl

docs_below : (text "/docs" =? text "/") ≡ false
unfolding bytes_eq
docs_below = refl

docs-NoWildcard : NoWildcard (text "/docs")
docs-NoWildcard = ((refl, refl), ((refl, refl), ((refl, refl), ((refl, refl), ((refl, refl), tt)))))

docs_renamed : (rename_path sqlite table 7 (text "/docs") (text "/new")).1 ≡ ok tt
unfolding rename_path list_by_prefix rename_rows set_path sort_by_path insert_by_path keep any
    selects like some_tail trim_prefix has_prefix bytes_eq
docs_renamed = rw (docs_normal, new_normal) (rw docs_normal refl)

rename_path-moved_example :
    (rename_path sqlite table 7 (text "/docs") (text "/new")).0.rows
    ≡ map
        (λ l.
          if l.user_id == 7 && at_or_below sqlite (text "/docs") l.path
          then record l { path = resettled (text "/docs") (text "/new") l.path }
          else l)
        table.rows
rename_path-moved_example =
    rename_path-moved sqlite table 7 (text "/docs") (text "/new") (text "/docs") (text "/new")
      (tt, tt) docs_normal new_normal docs_below docs-NoWildcard docs_renamed

abbrev empty : LockTable
empty = record { rows = []; next_id = 1 }

table-IsTable : IsTable table
table-IsTable = record { given = ((omega arith, omega arith), tt); unique = (tt, tt) }

target : IsTarget 7 doc
target = (refl, doc_normal)

doc_locked : live second table 7 doc ≡ some row
unfolding live select bytes_eq
doc_locked = refl

abbrev request : LockRequest
request = record {
  refresh = false;
  owner = text "bob";
  timeout = pos second;
  token = [];
  depth_infinity = false;
}

no_token : lock_header_has_token [] row.token ≡ false
unfolding lock_header_has_token bytes_eq contains
no_token = refl

lock_at_excluded_example :
    lock_at second (ok (text "opaquelocktoken:1b")) 7 doc request table ≡ (table, err Error.locked)
lock_at_excluded_example =
    lock_at_excluded second (ok (text "opaquelocktoken:1b")) 7 doc request table row target
      doc_locked no_token

empty-IsTable : IsTable empty
empty-IsTable = record { given = tt; unique = tt }

abbrev bob_row : FileLock
bob_row = record {
  id = 1;
  user_id = 7;
  path = doc;
  token = text "opaquelocktoken:1b";
  owner = text "bob";
  timeout_ms = 2000;
  created_ms = 1000;
}

abbrev bob_table : LockTable
bob_table = record { rows = bob_row ∷ []; next_id = 2 }

nothing_there : get_by_path empty 7 doc ≡ err FileError.not_found
unfolding get_by_path select
nothing_there = rw doc_normal refl

stored_there : insert empty (record bob_row { id = 0 }) ≡ (bob_table, ok bob_row)
unfolding insert add any bytes_eq
stored_there = rw doc_normal refl

granted :
    lock_at second (ok (text "opaquelocktoken:1b")) 7 doc request empty
    ≡ (bob_table, ok (lock_info bob_row second))
unfolding lock_at fresh lock_timeout
granted = rw nothing_there (rw stored_there refl)

lock_at-Granted_example : Granted second 7 doc request empty bob_table (lock_info bob_row second)
lock_at-Granted_example =
    lock_at-Granted second (ok (text "opaquelocktoken:1b")) 7 doc request empty bob_table
      (lock_info bob_row second) empty-IsTable target granted

abbrev pub services : Services
services = record { has_locks = true; account = λ uid. ok 7; file_at = λ uid p. ok tt }

other_token : (row.token =? text "wopi") ≡ false
unfolding bytes_eq
other_token = refl

own_token : (row.token =? row.token) ≡ true
unfolding bytes_eq
own_token = refl

unlock_at_with_token_own_example :
    (unlock_at_with_token second row.token 7 doc table ≡ (delete table 1, ok tt))
    × ((u : ℕ) (p : Bytes)
        → live second (delete table 1) u p
          ≡ (if 7 == u && doc =? p then none else live second table u p))
unlock_at_with_token_own_example =
    unlock_at_with_token_own second 7 doc table target row.token row table-IsTable doc_locked
      own_token

abbrev pub wopi_row : FileLock
wopi_row = record bob_row { token = text "wopi"; owner = [] }

abbrev pub wopi_table : LockTable
wopi_table = record { rows = wopi_row ∷ []; next_id = 2 }

wopi_stored : insert empty (record wopi_row { id = 0 }) ≡ (wopi_table, ok wopi_row)
unfolding insert add any bytes_eq
wopi_stored = rw doc_normal refl

wopi_granted :
    lock_at_with_token second (text "wopi") (pos second) 7 doc empty
    ≡ (wopi_table, ok (lock_info wopi_row second))
unfolding lock_at_with_token fresh_with_token lock_timeout
wopi_granted = rw nothing_there (rw wopi_stored refl)

lock_token_of-lock_at_with_token_example :
    lock_token_of (second + 5) 7 doc wopi_table ≡ (wopi_table, ok (some (text "wopi")))
unfolding lock_timeout
lock_token_of-lock_at_with_token_example =
    lock_token_of-lock_at_with_token second 7 doc empty target (text "wopi") (pos second) wopi_table
      (lock_info wopi_row second) (second + 5) empty-IsTable wopi_granted (omega arith)

alice : resolve_user services (text "alice") ≡ ok 7
unfolding resolve_user contains bytes_eq
alice = refl

other_holder : token_matches row.token (strip_lock_token (text "<opaquelocktoken:1b>")) ≡ false
unfolding strip_lock_token bytes_eq
other_holder = refl

foreign_lock_kept_example :
    (live second
        (lock services second second
          (ok (text "opaquelocktoken:1b"))
          (text "alice")
          doc
          request
          table).0
        7
        doc
      ≡ some row)
    × (live second
          (unlock services second second (text "alice") doc (text "<opaquelocktoken:1b>") table).0
          7
          doc
        ≡ some row)
foreign_lock_kept_example =
    foreign_lock_kept services second second (ok (text "opaquelocktoken:1b")) (text "alice") doc
      request (text "<opaquelocktoken:1b>") table 7 doc row (omega arith) table-IsTable doc_locked
      no_token other_holder

check_lock_owned-lock_at_example :
    check_lock_owned services (second + 5) (text "alice") doc [] bob_table
    ≡ (bob_table, if lock_header_has_token [] bob_row.token then ok tt else err Error.locked)
unfolding lock_timeout
check_lock_owned-lock_at_example =
    check_lock_owned-lock_at services second (second + 5) 7 (ok (text "opaquelocktoken:1b"))
      (text "alice") doc doc [] request empty bob_table (lock_info bob_row second) refl alice refl
      doc_normal empty-IsTable granted (omega arith)

given_token : (row.token =? []) ≡ false
unfolding bytes_eq
given_token = refl
