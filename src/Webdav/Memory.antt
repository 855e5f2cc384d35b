-- ===== src/Webdav/Memory.antt =====
-- InMemoryFS of internal/webdav/fs.go: its users' trees and the operations on one path. The clock
-- stands still during a request. ComputeETag is a parameter. The fields of Entry that no operation
-- here changes are left out, and so are the mutexes: an operation runs alone.
pub mod Locks
pub mod Transfer
pub mod Laws
pub mod LockCheck
pub mod Overwrite
pub mod Props
use nextcloud_go.Prelude.{
  ℕ, zero, suc, ◌+◌, ◌%◌, ◌^◌, Bool, true, false, not, ◌&&◌, ◌||◌, Option, none, some, List, [],
  ◌∷◌, ◌++◌, Bytes, text, ltb, ◌==◌, ◌=?◌, bytes_equality, if◌then◌else◌, length, ℤ, pos, negsuc,
}
use nextcloud_go.Text.{has_prefix, trim_right, trim_space, split, join, before_last}
use nextcloud_go.Dict.{Dict, get, put, remove, remove_if}
use nextcloud_go.Errors.{Error, Result, ok, err}

pub record Entry : Type 0 where
  pub path : Bytes
  pub is_dir : Bool
  pub size : ℕ
  pub etag : Bytes
  pub mod_time : ℕ
  pub numeric_id : ℕ
  pub favorite : ℕ
  pub lock_token : Bytes
  pub lock_owner : Bytes
  pub lock_timeout : ℕ

pub record FileNode : Type 0 where
  pub entry : Entry
  pub content : Bytes

abbrev pub Files : Type 0
Files = Dict Bytes FileNode

pub record UserTree : Type 0 where
  pub root : Entry
  pub files : Files

pub record MemLock : Type 0 where
  pub token : Bytes
  pub owner : Bytes
  pub timeout : ℕ
  pub created : ℕ
  pub depth_infinity : Bool

pub record InMemoryFs : Type 0 where
  pub users : Dict Bytes UserTree
  pub next_id : ℕ
  pub locks : Dict Bytes (Dict Bytes MemLock)

-- ComputeETag, on the size, the time and the path
abbrev pub EtagOf : Type 0
EtagOf = ℕ → ℕ → Bytes → Bytes

abbrev pub new_in_memory_fs : InMemoryFs
new_in_memory_fs = record { users = []; next_id = 1; locks = [] }

-- allocID, on a uint64
abbrev pub alloc_id : InMemoryFs → InMemoryFs × ℕ
alloc_id fs = (record fs { next_id = suc fs.next_id % 2 ^ 64 }, fs.next_id)

abbrev pub zero_etag : Bytes
zero_etag = text "00000000000000000000000000000000"

abbrev pub new_entry : Bytes → Bool → ℕ → Bytes → ℕ → ℕ → ℕ → Entry
new_entry path is_dir size etag mod_time id favorite = record {
  path = path;
  is_dir = is_dir;
  size = size;
  etag = etag;
  mod_time = mod_time;
  numeric_id = id;
  favorite = favorite;
  lock_token = [];
  lock_owner = [];
  lock_timeout = 0;
}

abbrev pub slash : Bytes
slash = b'/' ∷ []

abbrev pub set_tree : InMemoryFs → Bytes → UserTree → InMemoryFs
set_tree fs user t = record fs { users = put fs.users user t }

abbrev pub set_files : InMemoryFs → Bytes → UserTree → Files → InMemoryFs
set_files fs user t files = set_tree fs user (record t { files = files })

-- ensureUser on what fs.users holds
abbrev pub ensured : ℕ → InMemoryFs → Bytes → Option UserTree → InMemoryFs × UserTree
ensured now fs user (some t) = (fs, t)
ensured now fs user none =
    let (fs', id) = alloc_id fs in
    let t : UserTree = record { root = new_entry slash true 0 zero_etag now id 0; files = [] } in
    (set_tree fs' user t, t)

-- ensureUser
unfoldable pub ensure_user : ℕ → InMemoryFs → Bytes → InMemoryFs × UserTree
ensure_user now fs user = ensured now fs user (get fs.users user)

abbrev is_slash : ℕ → Bool
is_slash c = c == b'/'

abbrev or_slash : Bytes → Bytes
or_slash [] = slash
or_slash (c ∷ p) = c ∷ p

rooted : Bytes → Bytes
unfolding has_prefix
rooted p = if has_prefix slash p then p else b'/' ∷ p

-- normalizePath of fs.go
unfoldable pub mem_path : Bytes → Bytes
unfolding rooted trim_right
mem_path [] = slash
mem_path (c ∷ p) =
    let q = rooted (c ∷ p) in if ltb 1 (length q) then or_slash (trim_right is_slash q) else q

-- path.Clean on a path from the root: the segments that are left, the last first
abbrev drop_last : List Bytes → List Bytes
drop_last [] = []
drop_last (s ∷ stack) = stack

-- The stack after one segment.
abbrev step : Bytes → List Bytes → List Bytes
step seg stack =
    if seg =? [] || seg =? text "."
    then stack
    else if seg =? text ".."
    then drop_last stack
    else seg ∷ stack

clean_segments : List Bytes → List Bytes → List Bytes
clean_segments [] stack = stack
clean_segments (seg ∷ segs) stack = clean_segments segs (step seg stack)

reversed : List Bytes → List Bytes → List Bytes
reversed [] out = out
reversed (s ∷ stack) out = reversed stack (s ∷ out)

abbrev before_last_or_empty : Option Bytes → Bytes
before_last_or_empty none = []
before_last_or_empty (some p) = p

-- path.Dir on a path from the root
unfoldable pub dir_of : Bytes → Bytes
unfolding clean_segments reversed split join before_last
dir_of p =
    b'/'
    ∷ join b'/'
        (reversed (clean_segments (split b'/' (before_last_or_empty (before_last b'/' p))) []) [])

-- What Mkdir asks of the parent; Write asks that it is there, and no more.
unfoldable pub parent_dir : Files → Bytes → Option Error
parent_dir files parent = if parent =? slash then none else elim (get files parent) [
  | none ↦ some Error.parent_missing
  | some n ↦ if n.entry.is_dir then none else some Error.not_dir
]

unfoldable pub parent_there : Files → Bytes → Option Error
parent_there files parent =
    if parent =? slash
    then none
    else elim (get files parent) [ none ↦ some Error.parent_missing | some n ↦ none ]

abbrev make_dir :
    EtagOf → ℕ → Bytes → Bytes → InMemoryFs → UserTree → InMemoryFs × Result Error Entry
make_dir etag_of now user np fs t =
    let (fs', id) = alloc_id fs in
    let entry = new_entry np true 0 (etag_of 0 now np) now id 0 in
    (set_files fs' user t (put t.files np (record { entry = entry; content = [] })), ok entry)

abbrev mkdir_in :
    EtagOf
    → ℕ
    → Bytes
    → Bytes
    → InMemoryFs
    → UserTree
    → Option FileNode
    → Option Error
    → InMemoryFs × Result Error Entry
mkdir_in etag_of now user np fs t (some n) e = (fs, err Error.exists)
mkdir_in etag_of now user np fs t none (some e) = (fs, err e)
mkdir_in etag_of now user np fs t none none = make_dir etag_of now user np fs t

-- Mkdir
unfoldable pub mkdir : EtagOf → ℕ → Bytes → Bytes → InMemoryFs → InMemoryFs × Result Error Entry
mkdir etag_of now user p fs =
    let (fs1, t) = ensure_user now fs user in
    let np = mem_path p in
    if np =? slash
    then (fs1, err Error.exists)
    else mkdir_in etag_of now user np fs1 t (get t.files np) (parent_dir t.files (dir_of np))

-- The entries strictly below a directory.
abbrev pub below : Bytes → Bytes → Bool
below p fp = has_prefix (p ++ slash) fp

-- The entry goes, and with a directory all that is below it.
unfoldable pub drop_node : Bytes → FileNode → Files → Files
drop_node p n files = remove (if n.entry.is_dir then remove_if (below p) files else files) p

abbrev pub read_found : InMemoryFs → Option FileNode → InMemoryFs × Result Error (Bytes × Entry)
read_found fs none = (fs, err Error.not_found)
read_found fs (some n) = (fs, if n.entry.is_dir then err Error.is_dir else ok (n.content, n.entry))

abbrev pub read_in : Bytes → InMemoryFs × UserTree → InMemoryFs × Result Error (Bytes × Entry)
read_in np (fs, t) = if np =? slash then (fs, err Error.is_dir) else read_found fs (get t.files np)

-- Read
unfoldable pub read : ℕ → Bytes → Bytes → InMemoryFs → InMemoryFs × Result Error (Bytes × Entry)
read now user p fs = read_in (mem_path p) (ensure_user now fs user)

abbrev pub favorite_of : Option FileNode → ℕ
favorite_of none = 0
favorite_of (some n) = n.entry.favorite

abbrev pub taken_by_dir : Option FileNode → Bool
taken_by_dir none = false
taken_by_dir (some n) = n.entry.is_dir

abbrev pub id_for : InMemoryFs → Option FileNode → InMemoryFs × ℕ
id_for fs none = alloc_id fs
id_for fs (some n) = (fs, n.entry.numeric_id)

abbrev pub is_new : Option FileNode → Bool
is_new none = true
is_new (some n) = false

abbrev pub written :
    EtagOf
    → ℕ
    → Bytes
    → Bytes
    → Bytes
    → InMemoryFs
    → UserTree
    → Option FileNode
    → InMemoryFs × Result Error (Entry × Bool)
written etag_of mt user np body fs t old =
    let (fs', id) = id_for fs old in
    let entry =
      new_entry np false (length body) (etag_of (length body) mt np) mt id (favorite_of old) in
    (
      set_files fs' user t (put t.files np (record { entry = entry; content = body })),
      ok (entry, is_new old),
    )

abbrev pub time_or : ℕ → Option ℕ → ℕ
time_or now none = now
time_or now (some mt) = mt

abbrev pub write_read :
    EtagOf
    → ℕ
    → Bytes
    → Bytes
    → InMemoryFs
    → UserTree
    → Option Error
    → Result Error Bytes
    → InMemoryFs × Result Error (Entry × Bool)
write_read etag_of mt user np fs t (some e) body = (fs, err e)
write_read etag_of mt user np fs t none (err e) = (fs, err e)
write_read etag_of mt user np fs t none (ok content) =
    if taken_by_dir (get t.files np)
    then (fs, err Error.is_dir)
    else written etag_of mt user np content fs t (get t.files np)

abbrev pub write_in :
    EtagOf
    → ℕ
    → Bytes
    → Bytes
    → Result Error Bytes
    → InMemoryFs × UserTree
    → InMemoryFs × Result Error (Entry × Bool)
write_in etag_of mt user np body (fs, t) =
    if np =? slash
    then (fs, err Error.is_dir)
    else write_read etag_of mt user np fs t (parent_there t.files (dir_of np)) body

-- Write, of a body that reads to its end or fails
unfoldable pub write :
    EtagOf
    → ℕ
    → Bytes
    → Bytes
    → Result Error Bytes
    → Option ℕ
    → InMemoryFs
    → InMemoryFs × Result Error (Entry × Bool)
write etag_of now user p body mtime fs =
    write_in etag_of (time_or now mtime) user (mem_path p) body (ensure_user now fs user)
