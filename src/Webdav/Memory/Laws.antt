-- ===== src/Webdav/Memory/Laws.antt =====
-- What the operations of InMemoryFS leave in the tree: Write and Read, Remove, and a Move onto a
-- directory that holds its source.
use nextcloud_go.Prelude.{
  ℕ, Bool, false, ◌&&◌, ◌||◌, Option, none, some, Bytes, ◌≡◌, refl, sym, ap, subst, ◌∙◌, ◌=?◌,
  bytes_equality, if◌then◌else◌, length, arith, Bool-cases, inl, inr, beq_refl,
}
use nextcloud_go.Dict.{Dict, get, put, remove, remove_if, get-put, get-remove, get-remove_if}
use nextcloud_go.Errors.{Error, Result, ok, err}
use nextcloud_go.Webdav.Memory.{
  Entry, FileNode, Files, UserTree, MemLock, InMemoryFs, new_entry, favorite_of, EtagOf, set_files,
  slash, ensured, ensure_user, mem_path, dir_of, parent_there, below, drop_node, read, read_found,
  read_in, write, write_in, written, id_for, taken_by_dir, time_or, write_read,
}
use nextcloud_go.Webdav.Memory.Locks.{
  mem_remove, remove_in, delete_mem_locks, dropped_with, change_locks,
}

abbrev pub in_tree : Option UserTree → Bytes → Option FileNode
in_tree none np = none
in_tree (some t) np = get t.files np

-- The node of a user at a canonical path.
unfoldable pub node_at : InMemoryFs → Bytes → Bytes → Option FileNode
node_at fs user np = in_tree (get fs.users user) np

ensured-get :
    (now : ℕ) (fs : InMemoryFs) (user : Bytes) (o : Option UserTree)
    → get fs.users user ≡ o
    → get (ensured now fs user o).0.users user ≡ some (ensured now fs user o).1
ensured-get now fs user (some t) e = e
ensured-get now fs user none e = rw (get-put, beq_refl user) refl

pub ensure_user-found :
    (now : ℕ) (fs : InMemoryFs) (user : Bytes) (t : UserTree)
    → get fs.users user ≡ some t
    → ensure_user now fs user ≡ (fs, t)
unfolding ensure_user
ensure_user-found now fs user t e = ap (ensured now fs user) e

-- A user that the system does not know has no files, and then the root alone.
ensured-files :
    (now : ℕ) (fs : InMemoryFs) (user np : Bytes) (o : Option UserTree)
    → get (ensured now fs user o).1.files np ≡ in_tree o np
unfolding get
ensured-files now fs user np none = refl
ensured-files now fs user np (some t) = refl

set_files-get :
    (fs : InMemoryFs) (user : Bytes) (t : UserTree) (files : Files)
    → get (set_files fs user t files).users user ≡ some (record t { files = files })
set_files-get fs user t files = rw (get-put, beq_refl user) refl

read_found_lem :
    (fs : InMemoryFs) (o : Option FileNode) (n : FileNode)
    → o ≡ some n
    → n.entry.is_dir ≡ false
    → read_found fs o ≡ (fs, ok (n.content, n.entry))
read_found_lem fs o n e file = ap (read_found fs) e ∙ simp file refl

read_lem :
    (now : ℕ) (fs : InMemoryFs) (user p : Bytes) (t : UserTree) (n : FileNode)
    → get fs.users user ≡ some t
    → (mem_path p =? slash) ≡ false
    → get t.files (mem_path p) ≡ some n
    → n.entry.is_dir ≡ false
    → read now user p fs ≡ (fs, ok (n.content, n.entry))
unfolding read
read_lem now fs user p t n found path at file =
    ap (read_in (mem_path p)) (ensure_user-found now fs user t found)
    ∙ rw path (read_found_lem fs (get t.files (mem_path p)) n at file)

-- The user's tree behind a Write that went through.
record Stored (user np body : Bytes) (fs : InMemoryFs) (e : Entry) : Type 0 where
  tree : UserTree
  found : get fs.users user ≡ some tree
  at : get tree.files np ≡ some (record { entry = e; content = body })
  file : e.is_dir ≡ false

abbrev entry_or : Entry → Result Error (Entry × Bool) → Entry
entry_or d (err x) = d
entry_or d (ok (e, created)) = e

written-Stored :
    (etag_of : EtagOf) (mt : ℕ) (user np body : Bytes) (fs fs' : InMemoryFs) (t : UserTree)
    (old : Option FileNode) (e : Entry) (created : Bool)
    → written etag_of mt user np body fs t old ≡ (fs', ok (e, created))
    → Stored user np body fs' e
written-Stored etag_of mt user np body fs fs' t old e created q =
    let n : FileNode = record {
      entry =
          new_entry np false (length body) (etag_of (length body) mt np) mt (id_for fs old).1
            (favorite_of old);
      content = body;
    } in
    let same_fs : set_files (id_for fs old).0 user t (put t.files np n) ≡ fs' = ap (λ x. x.0) q in
    let same_entry : n.entry ≡ e = ap (λ x. entry_or e x.1) q in
    record {
      tree = record t { files = put t.files np n };
      found =
          subst (λ f. get f.users user ≡ some (record t { files = put t.files np n })) same_fs
            (set_files-get (id_for fs old).0 user t (put t.files np n));
      at =
          rw (get-put, beq_refl np)
            (ap (λ x. some (record { entry = x; content = body })) same_entry);
      file = ap (λ x. x.is_dir) (sym same_entry);
    }

write_read-Stored :
    (etag_of : EtagOf) (mt : ℕ) (user np : Bytes) (fs fs' : InMemoryFs) (t : UserTree)
    (o : Option Error) (body : Bytes) (e : Entry) (created : Bool)
    → write_read etag_of mt user np fs t o (ok body) ≡ (fs', ok (e, created))
    → Stored user np body fs' e
write_read-Stored etag_of mt user np fs fs' t (some x) body e created q = absurd (ground arith)
write_read-Stored etag_of mt user np fs fs' t none body e created q =
    elim (Bool-cases (taken_by_dir (get t.files np))) [
      | inl d ↦ absurd (ground arith)
      | inr d ↦
          written-Stored etag_of mt user np body fs fs' t (get t.files np) e created (ground arith)
    ]

-- Behind a Write that succeeds, Read of the path answers what was written, with the entry that
-- Write answered.
pub read-write :
    (etag_of : EtagOf) (now later : ℕ) (user p body : Bytes) (mtime : Option ℕ)
    (fs fs' : InMemoryFs) (e : Entry) (created : Bool)
    → write etag_of now user p (ok body) mtime fs ≡ (fs', ok (e, created))
    → read later user p fs' ≡ (fs', ok (body, e))
unfolding write
read-write etag_of now later user p body mtime fs fs' e created q = go (ensure_user now fs user) q
  where
    go :
        (w : InMemoryFs × UserTree)
        → write_in etag_of (time_or now mtime) user (mem_path p) (ok body) w
          ≡ (fs', ok (e, created))
        → read later user p fs' ≡ (fs', ok (body, e))
    go (fs1, t) r = elim (Bool-cases (mem_path p =? slash)) [
      | inl path ↦ absurd (ground arith)
      | inr path ↦
          let h : Stored user (mem_path p) body fs' e =
            write_read-Stored etag_of (time_or now mtime) user (mem_path p) fs1 fs' t
              (parent_there t.files (dir_of (mem_path p))) body e created (ground arith) in
          read_lem later fs' user p h.tree (record { entry = e; content = body }) h.found path h.at
            h.file
    ]

pub node_at-set_files :
    (fs : InMemoryFs) (user : Bytes) (t : UserTree) (files : Files) (q : Bytes)
    → node_at (set_files fs user t files) user q ≡ get files q
unfolding node_at
node_at-set_files fs user t files q = ap (λ o. in_tree o q) (set_files-get fs user t files)

-- What Remove leaves of a path `q`.
abbrev pub gone : Bytes → FileNode → Bytes → Bool
gone np n q = np =? q || n.entry.is_dir && below np q

pub get-drop_node :
    (np : Bytes) (n : FileNode) (files : Files) (q : Bytes)
    → get (drop_node np n files) q ≡ (if gone np n q then none else get files q)
unfolding drop_node
get-drop_node np n files q = elim (Bool-cases n.entry.is_dir) [
  | inl d ↦ rw (d, get-remove, get-remove_if) (ground arith)
  | inr d ↦ rw (d, get-remove) (ground arith)
]

pub node_at-change_locks :
    (user : Bytes) (fs : InMemoryFs) (f : Dict Bytes MemLock → Dict Bytes MemLock) (u q : Bytes)
    (o : Option (Dict Bytes MemLock))
    → node_at (change_locks fs user o f) u q ≡ node_at fs u q
unfolding node_at
node_at-change_locks user fs f u q none = refl
node_at-change_locks user fs f u q (some m) = refl

node_at-delete_mem_locks :
    (user np : Bytes) (fs : InMemoryFs) (u q : Bytes)
    → node_at (delete_mem_locks user np fs) u q ≡ node_at fs u q
unfolding delete_mem_locks
node_at-delete_mem_locks user np fs u q =
    node_at-change_locks user fs (λ m. remove_if (dropped_with np) (remove m np)) u q
      (get fs.locks user)

node_at-remove_in :
    (user np q : Bytes) (fs : InMemoryFs) (t : UserTree) (n : FileNode)
    → (np =? slash) ≡ false
    → get t.files np ≡ some n
    → node_at (remove_in user np (fs, t)).0 user q ≡ (if gone np n q then none else get t.files q)
node_at-remove_in user np q fs t n path at =
    rw (path, at, node_at-delete_mem_locks)
      (unfold node_at in
        ap (λ o. in_tree o q) (set_files-get fs user t (drop_node np n t.files))
        ∙ get-drop_node np n t.files q)

-- Remove of a node that is there, below the root, takes the node and, of a directory, all that is
-- below it, and nothing else.
pub node_at-mem_remove :
    (now : ℕ) (user p q : Bytes) (fs : InMemoryFs) (n : FileNode)
    → (mem_path p =? slash) ≡ false
    → node_at fs user (mem_path p) ≡ some n
    → node_at (mem_remove now user p fs).0 user q
      ≡ (if gone (mem_path p) n q then none else node_at fs user q)
unfolding mem_remove ensure_user node_at
node_at-mem_remove now user p q fs n path at =
    let files = λ (k : Bytes). ensured-files now fs user k (get fs.users user) in
    node_at-remove_in user (mem_path p) q (ensured now fs user (get fs.users user)).0
      (ensured now fs user (get fs.users user)).1 n path (files (mem_path p) ∙ at)
    ∙ ap (λ o. if gone (mem_path p) n q then none else o) (files q)
