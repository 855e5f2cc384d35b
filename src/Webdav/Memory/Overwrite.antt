-- ===== src/Webdav/Memory/Overwrite.antt =====
-- Move of a file, and Move with Overwrite onto a directory that holds its source.
use nextcloud_go.Prelude.{
  ℕ, Bool, true, false, ◌||◌, none, some, Bytes, ◌≡◌, refl, ap, ◌∙◌, ◌=?◌, bytes_equality,
  if◌then◌else◌, keep, arith, beq_refl,
}
use nextcloud_go.Dict.{get, put, remove, remove_if, keys, get-put, get-remove}
use nextcloud_go.Webdav.Memory.{
  FileNode, Files, UserTree, InMemoryFs, EtagOf, set_files, slash, mem_path, below, is_new,
}
use nextcloud_go.Webdav.Memory.Locks.{rename_mem_locks, put_all, lock_moves, moves_away}
use nextcloud_go.Webdav.Memory.Laws.{
  ensure_user-found, get-drop_node, node_at, node_at-change_locks, node_at-set_files,
}
use nextcloud_go.Webdav.Memory.Transfer.{
  Outcome, Work, move, move_tree, move_one, moved_node, then_children, transfer, transfer_error,
  cleared, cleared_of, finished,
}

-- The files that are left when a directory that holds `src` goes.
cleared-source :
    (dst src : Bytes) (files : Files) (dir : FileNode)
    → get files dst ≡ some dir
    → dir.entry.is_dir ≡ true
    → below dst src ≡ true
    → get (cleared dst files) src ≡ none
unfolding cleared
cleared-source dst src files dir at is_dir inside =
    ap (λ o. get (cleared_of dst o files) src) at
    ∙ get-drop_node dst dir files src
    ∙ simp (is_dir, inside) (ground arith)

move_one-none :
    (etag_of : EtagOf) (mt : ℕ) (src dst : Bytes) (w : Work)
    → get w.files src ≡ none
    → move_one etag_of mt src dst w ≡ none
unfolding move_one
move_one-none etag_of mt src dst w e = ap (moved_node etag_of mt src dst w) e

move_tree-none :
    (etag_of : EtagOf) (mt : ℕ) (deep : Bool) (src dst : Bytes) (w : Work)
    → get w.files src ≡ none
    → move_tree etag_of mt deep src dst w ≡ none
unfolding move_tree
move_tree-none etag_of mt deep src dst w e =
    ap (then_children (move_one etag_of mt) deep src dst (keep (below src) (keys w.files)))
      (move_one-none etag_of mt src dst w e)

-- Move with Overwrite of a node that lies below the destination, a directory, where no other test
-- stops it: the clearing of the destination takes the source, and the move dereferences a node
-- that is gone.
pub move-panics :
    (etag_of : EtagOf) (now : ℕ) (user src_path dst_path : Bytes) (fs : InMemoryFs) (t : UserTree)
    (node dir : FileNode)
    → get fs.users user ≡ some t
    → (mem_path src_path =? slash
        || (mem_path dst_path =? slash || mem_path src_path =? mem_path dst_path))
      ≡ false
    → get t.files (mem_path src_path) ≡ some node
    → get t.files (mem_path dst_path) ≡ some dir
    → dir.entry.is_dir ≡ true
    → below (mem_path dst_path) (mem_path src_path) ≡ true
    → transfer_error true (mem_path src_path) (mem_path dst_path) node t.files ≡ none
    → (move etag_of now user src_path user dst_path true fs).1 ≡ Outcome.panics
unfolding move transfer
move-panics etag_of now user src_path dst_path fs t node dir found paths at_src at_dst is_dir inside
      free =
    let gone_source =
      cleared-source (mem_path dst_path) (mem_path src_path) t.files dir at_dst is_dir inside in
    rw (beq_refl user, ensure_user-found now fs user t found, paths, at_src, free)
      (ap
        (λ w.
          (finished (move_tree etag_of now) (λ src dst fs'. rename_mem_locks user src dst fs') user
            t (is_new (get t.files (mem_path dst_path))) (mem_path src_path) (mem_path dst_path) fs
            (cleared (mem_path dst_path) t.files) w).1)
        (move_tree-none etag_of now node.entry.is_dir (mem_path src_path) (mem_path dst_path)
          (record { fs = fs; files = cleared (mem_path dst_path) t.files }) gone_source))

-- The node behind the move.
abbrev pub moved : EtagOf → ℕ → Bytes → FileNode → FileNode
moved etag_of now dst n = record n {
  entry = record n.entry { path = dst; mod_time = now; etag = etag_of n.entry.size now dst };
}

move_tree-file :
    (etag_of : EtagOf) (mt : ℕ) (src dst : Bytes) (w : Work) (n : FileNode)
    → get w.files src ≡ some n
    → move_tree etag_of mt false src dst w
      ≡ some (record w { files = put (remove w.files src) dst (moved etag_of mt dst n) })
unfolding move_tree move_one
move_tree-file etag_of mt src dst w n e =
    ap
      (λ o.
        then_children (move_one etag_of mt) false src dst (keep (below src) (keys w.files))
          (moved_node etag_of mt src dst w o))
      e

node_at-rename_mem_locks :
    (user src dst : Bytes) (fs : InMemoryFs) (u q : Bytes)
    → node_at (rename_mem_locks user src dst fs) u q ≡ node_at fs u q
unfolding rename_mem_locks
node_at-rename_mem_locks user src dst fs u q =
    node_at-change_locks user fs
      (λ m. put_all (lock_moves src dst m) (remove_if (moves_away src) m)) u q (get fs.locks user)

-- Move of a file of a known user, with neither path the root, where no test stops it and the file
-- is still there behind the clearing of the destination: the node stands at the destination with
-- its new path, the source is gone, and every other path has what the clearing left.
pub node_at-move :
    (etag_of : EtagOf) (now : ℕ) (user src_path dst_path q : Bytes) (overwrite : Bool)
    (fs : InMemoryFs) (t : UserTree) (node : FileNode)
    → get fs.users user ≡ some t
    → (mem_path src_path =? slash
        || (mem_path dst_path =? slash || mem_path src_path =? mem_path dst_path))
      ≡ false
    → get t.files (mem_path src_path) ≡ some node
    → node.entry.is_dir ≡ false
    → transfer_error overwrite (mem_path src_path) (mem_path dst_path) node t.files ≡ none
    → get (cleared (mem_path dst_path) t.files) (mem_path src_path) ≡ some node
    → node_at (move etag_of now user src_path user dst_path overwrite fs).0 user q ≡ (
        if mem_path dst_path =? q
        then some (moved etag_of now (mem_path dst_path) node)
        else if mem_path src_path =? q
        then none
        else get (cleared (mem_path dst_path) t.files) q)
unfolding move transfer
node_at-move etag_of now user src_path dst_path q overwrite fs t node found paths at_src file free
      still =
    let src = mem_path src_path in
    let dst = mem_path dst_path in
    let files = cleared dst t.files in
    rw (beq_refl user, ensure_user-found now fs user t found, paths, at_src, free)
      (ap
          (λ w.
            node_at
              (finished (move_tree etag_of now) (λ s d fs'. rename_mem_locks user s d fs') user t
                (is_new (get t.files dst)) src dst fs files w).0
              user q)
          (ap (λ deep. move_tree etag_of now deep src dst (record { fs = fs; files = files })) file
            ∙ move_tree-file etag_of now src dst (record { fs = fs; files = files }) node still)
        ∙ node_at-rename_mem_locks user src dst
            (set_files fs user t (put (remove files src) dst (moved etag_of now dst node))) user q
        ∙ node_at-set_files fs user t (put (remove files src) dst (moved etag_of now dst node)) q
        ∙ rw (get-put, get-remove) refl)
