-- ===== src/Tests/Memory.antt =====
-- A small tree of the in-memory file system, and what its operations do there.
use nextcloud_go.Prelude.{
  ◌+◌, ◌<◌, true, false, none, some, [], ◌∷◌, Bytes, text, ◌≡◌, refl, arith, pos, if◌then◌else◌,
  bytes_eq, nat_equality, bytes_equality, ◌||◌, ◌=?◌,
}
use nextcloud_go.Text.{has_prefix, trim_right, split, join, before_last}
use nextcloud_go.Dict.{get, put, remove}
use nextcloud_go.Errors.{Error, ok, err}
use nextcloud_go.Webdav.LockToken.{lock_header_has_token}
use nextcloud_go.Files.Lock.{LockRequest, LockInfo, lock_timeout}
use nextcloud_go.Webdav.Memory.{
  Entry, FileNode, UserTree, MemLock, InMemoryFs, EtagOf, new_in_memory_fs, new_entry, slash,
  mem_path, dir_of, parent_dir, parent_there, below, ensure_user, read, write, zero_etag,
}
use nextcloud_go.Webdav.Memory.Locks.{
  mem_remove, mem_lock_op, mem_stat, mem_lock, expire_mem_lock, show_lock, lock_found_mem,
  check_lock,
}
use nextcloud_go.Webdav.Memory.Transfer.{cleared, Outcome, transfer_error, move}
use nextcloud_go.Webdav.Memory.Laws.{node_at, gone, read-write, node_at-mem_remove}
use nextcloud_go.Webdav.Memory.LockCheck.{check_lock-mem_lock_op}
use nextcloud_go.Webdav.Memory.Overwrite.{move-panics, node_at-move, moved}
use nextcloud_go.Webdav.Memory.Props.{PropPatchOp}

abbrev etag_of : EtagOf
etag_of size mtime path = path

abbrev user : Bytes
user = text "alice"

abbrev root : Entry
root = new_entry slash true 0 zero_etag 3 1 0

abbrev note : FileNode
note = record { entry = new_entry (text "/n") false 2 (text "/n") 5 2 0; content = text "hi" }

abbrev with_note : InMemoryFs
with_note = record {
  users = (user, record { root = root; files = (text "/n", note) ∷ [] }) ∷ [];
  next_id = 3;
  locks = [];
}

written_note :
    write etag_of 3 user (text "n/") (ok (text "hi")) (some 5) new_in_memory_fs
    ≡ (with_note, ok (note.entry, true))
unfolding write ensure_user mem_path has_prefix trim_right dir_of split join before_last
    parent_there get put remove bytes_eq
written_note = refl

read-write_example : read 9 user (text "n/") with_note ≡ (with_note, ok (text "hi", note.entry))
read-write_example =
    read-write etag_of 3 9 user (text "n/") (text "hi") (some 5) new_in_memory_fs with_note
      note.entry true written_note

abbrev dir : FileNode
dir = record { entry = new_entry (text "/d") true 0 (text "/d") 5 2 0; content = [] }

abbrev inner : FileNode
inner = record { entry = new_entry (text "/d/f") false 2 (text "/d/f") 6 3 0; content = text "hi" }

abbrev tree : UserTree
tree = record { root = root; files = (text "/d/f", inner) ∷ (text "/d", dir) ∷ [] }

abbrev with_dir : InMemoryFs
with_dir = record { users = (user, tree) ∷ []; next_id = 4; locks = [] }

below_root : (mem_path (text "/d") =? slash) ≡ false
unfolding mem_path has_prefix trim_right bytes_eq
below_root = refl

dir_there : node_at with_dir user (mem_path (text "/d")) ≡ some dir
unfolding node_at get mem_path has_prefix trim_right bytes_eq
dir_there = refl

node_at-mem_remove_example :
    node_at (mem_remove 9 user (text "/d") with_dir).0 user (text "/d/f") ≡ (
      if gone (mem_path (text "/d")) dir (text "/d/f")
      then none
      else node_at with_dir user (text "/d/f"))
node_at-mem_remove_example =
    node_at-mem_remove 9 user (text "/d") (text "/d/f") with_dir dir below_root dir_there

abbrev request : LockRequest
request = record {
  refresh = false;
  owner = text "alice";
  timeout = pos 100;
  token = [];
  depth_infinity = true;
}

abbrev lock : MemLock
lock = record {
  token = text "opaquelocktoken:0a";
  owner = text "alice";
  timeout = 109;
  created = 9;
  depth_infinity = true;
}

abbrev locked_note : InMemoryFs
locked_note = record with_note { locks = (user, (text "/n", lock) ∷ []) ∷ [] }

abbrev lock_answer : LockInfo
lock_answer = record {
  token = lock.token;
  owner = lock.owner;
  timeout = 100;
  path = text "/n";
  depth_infinity = true;
}

note_locked :
    mem_lock_op 9 (ok lock.token) user (text "/n") request with_note ≡ (locked_note, ok lock_answer)
unfolding mem_lock_op mem_stat mem_path has_prefix trim_right ensure_user get put remove bytes_eq
    mem_lock expire_mem_lock show_lock lock_found_mem lock_timeout
note_locked = refl

in_time : 50 < 9 + lock_timeout request.timeout
unfolding lock_timeout
in_time = omega arith

check_lock-mem_lock_op_example :
    (check_lock 50 user (text "/n") [] locked_note).1
    ≡ (if lock_header_has_token [] lock.token then ok tt else err Error.locked)
check_lock-mem_lock_op_example =
    check_lock-mem_lock_op 9 50 (ok lock.token) user (text "/n") [] request with_note locked_note
      lock_answer note_locked in_time

two_paths :
    (mem_path (text "/d/f") =? slash
      || (mem_path (text "/d") =? slash || mem_path (text "/d/f") =? mem_path (text "/d")))
    ≡ false
unfolding mem_path has_prefix trim_right bytes_eq
two_paths = refl

user_there : get with_dir.users user ≡ some tree
unfolding get bytes_eq
user_there = refl

inner_there : get tree.files (mem_path (text "/d/f")) ≡ some inner
unfolding get mem_path has_prefix trim_right bytes_eq
inner_there = refl

dir_in_tree : get tree.files (mem_path (text "/d")) ≡ some dir
unfolding get mem_path has_prefix trim_right bytes_eq
dir_in_tree = refl

inside : below (mem_path (text "/d")) (mem_path (text "/d/f")) ≡ true
unfolding mem_path has_prefix trim_right
inside = refl

nothing_stops :
    transfer_error true (mem_path (text "/d/f")) (mem_path (text "/d")) inner tree.files ≡ none
unfolding transfer_error mem_path has_prefix trim_right parent_dir dir_of split join before_last get
    bytes_eq
nothing_stops = refl

move-panics_example :
    (move etag_of 9 user (text "/d/f") user (text "/d") true with_dir).1 ≡ Outcome.panics
move-panics_example =
    move-panics etag_of 9 user (text "/d/f") (text "/d") with_dir tree inner dir user_there
      two_paths inner_there dir_in_tree refl inside nothing_stops

abbrev new_path : Bytes
new_path = text "/d/g"

two_files :
    (mem_path (text "/d/f") =? slash
      || (mem_path new_path =? slash || mem_path (text "/d/f") =? mem_path new_path))
    ≡ false
unfolding mem_path has_prefix trim_right bytes_eq
two_files = refl

move_free :
    transfer_error false (mem_path (text "/d/f")) (mem_path new_path) inner tree.files ≡ none
unfolding transfer_error mem_path has_prefix trim_right parent_dir dir_of split join before_last get
    bytes_eq
move_free = refl

still_there : get (cleared (mem_path new_path) tree.files) (mem_path (text "/d/f")) ≡ some inner
unfolding cleared mem_path has_prefix trim_right get bytes_eq
still_there = refl

node_at-move_example :
    node_at (move etag_of 9 user (text "/d/f") user new_path false with_dir).0 user (text "/d") ≡ (
      if mem_path new_path =? text "/d"
      then some (moved etag_of 9 (mem_path new_path) inner)
      else if mem_path (text "/d/f") =? text "/d"
      then none
      else get (cleared (mem_path new_path) tree.files) (text "/d"))
node_at-move_example =
    node_at-move etag_of 9 user (text "/d/f") new_path (text "/d") false with_dir tree inner
      user_there two_files inner_there refl move_free still_there

abbrev star_it : PropPatchOp
star_it = record { removes = false; space = []; name = text "favorite"; value = text " 1" }

abbrev colour : PropPatchOp
colour = record { removes = false; space = []; name = text "colour"; value = text "red" }
