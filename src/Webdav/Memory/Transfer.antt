-- ===== src/Webdav/Memory/Transfer.antt =====
-- Move and Copy of InMemoryFS, in internal/webdav/fs.go. Where the source dereferences a missing
-- node the outcome is `panics`, with the tree as it is by then: the deferred Unlock runs.
use nextcloud_go.Prelude.{
  ℕ, Bool, not, ◌&&◌, ◌||◌, Option, none, some, List, [], ◌∷◌, ◌++◌, Bytes, ◌=?◌, bytes_equality,
  if◌then◌else◌, keep,
}
use nextcloud_go.Text.{has_prefix, trim_prefix}
use nextcloud_go.Dict.{get, put, remove, keys}
use nextcloud_go.Errors.{Error, Result, ok, err}
use nextcloud_go.Webdav.Memory.{
  Entry, FileNode, Files, UserTree, InMemoryFs, EtagOf, alloc_id, set_files, slash, ensure_user,
  mem_path, dir_of, parent_dir, below, drop_node, is_new,
}
use nextcloud_go.Webdav.Memory.Locks.{rename_mem_locks}

pub data Outcome {ℓ} (A : Type ℓ) : Type ℓ where
  returns : A → Outcome A
  panics : Outcome A

-- The user's files on the way, with the allocator behind them.
pub record Work : Type 0 where
  pub fs : InMemoryFs
  pub files : Files

-- What may stand in the way once the source is known: `none` lets the operation go on.
unfoldable pub transfer_error : Bool → Bytes → Bytes → FileNode → Files → Option Error
transfer_error overwrite src dst node files =
    if node.entry.is_dir && has_prefix (src ++ slash) (dst ++ slash)
    then some Error.forbidden
    else elim (parent_dir files (dir_of dst)) [
      | some e ↦ some e
      | none ↦ if not (is_new (get files dst)) && not overwrite then some Error.exists else none
    ]

abbrev pub cleared_of : Bytes → Option FileNode → Files → Files
cleared_of dst none files = files
cleared_of dst (some n) files = drop_node dst n files

-- An existing destination goes.
unfoldable pub cleared : Bytes → Files → Files
cleared dst files = cleared_of dst (get files dst) files

-- One entry's step of Move and of Copy; `none` is the nil dereference.
abbrev pub Step : Type 0
Step = Bytes → Bytes → Work → Option Work

abbrev pub moved_node : EtagOf → ℕ → Bytes → Bytes → Work → Option FileNode → Option Work
moved_node etag_of mt old_path new_path w none = none
moved_node etag_of mt old_path new_path w (some n) =
    let e = record n.entry {
      path = new_path;
      mod_time = mt;
      etag = etag_of n.entry.size mt new_path;
    } in
    some (record w { files = put (remove w.files old_path) new_path (record n { entry = e }) })

-- moveOne
unfoldable pub move_one : EtagOf → ℕ → Step
move_one etag_of mt old_path new_path w =
    moved_node etag_of mt old_path new_path w (get w.files old_path)

abbrev pub cloned_node : EtagOf → ℕ → Bytes → Work → Option FileNode → Option Work
cloned_node etag_of mt dst_fp w none = none
cloned_node etag_of mt dst_fp w (some n) =
    let (fs', id) = alloc_id w.fs in
    let e = record n.entry {
      path = dst_fp;
      numeric_id = id;
      mod_time = mt;
      etag = etag_of n.entry.size mt dst_fp;
    } in
    some (record { fs = fs'; files = put w.files dst_fp (record n { entry = e }) })

-- cloneOne
unfoldable pub clone_one : EtagOf → ℕ → Step
clone_one etag_of mt src_fp dst_fp w = cloned_node etag_of mt dst_fp w (get w.files src_fp)

abbrev pub new_child : Bytes → Bytes → Bytes → Bytes
new_child src dst child = (dst ++ slash) ++ trim_prefix (src ++ slash) child

-- The loop over the children, in the order that the range gave.
unfoldable pub each_child : Step → Bytes → Bytes → List Bytes → Work → Option Work
each_child step src dst [] w = some w
each_child step src dst (child ∷ children) w = elim (step child (new_child src dst child) w) [
  | none ↦ none
  | some w' ↦ each_child step src dst children w'
]

-- The directory or file itself and then, if asked, what is below it. Move lists the children
-- before the first step and Copy behind it. Only the first step can meet a missing node.
abbrev pub then_children : Step → Bool → Bytes → Bytes → List Bytes → Option Work → Option Work
then_children step deep src dst children none = none
then_children step deep src dst children (some w) =
    if deep then each_child step src dst children w else some w

unfoldable pub move_tree : EtagOf → ℕ → Bool → Bytes → Bytes → Work → Option Work
move_tree etag_of mt deep src dst w =
    then_children (move_one etag_of mt) deep src dst (keep (below src) (keys w.files))
      (move_one etag_of mt src dst w)

unfoldable pub clone_tree : EtagOf → ℕ → Bool → Bytes → Bytes → Work → Option Work
clone_tree etag_of mt deep src dst w = elim (clone_one etag_of mt src dst w) [
  | none ↦ none
  | some w' ↦
      if deep
      then each_child (clone_one etag_of mt) src dst (keep (below src) (keys w'.files)) w'
      else some w'
]

abbrev pub Answer : Type 0
Answer = Outcome (Result Error (Entry × Bool))

abbrev pub node_answer : Bool → Option FileNode → Answer
node_answer created none = panics
node_answer created (some n) = returns (ok (n.entry, created))

abbrev pub unless_error : InMemoryFs → Option Error → InMemoryFs × Answer → InMemoryFs × Answer
unless_error fs (some e) rest = (fs, returns (err e))
unless_error fs none rest = rest

-- What Move and Copy share: the tests, the destination, then `run` and what comes behind it.
module _ (run : Bool → Bytes → Bytes → Work → Option Work)
    (after : Bytes → Bytes → InMemoryFs → InMemoryFs) where
  abbrev pub finished :
      Bytes
      → UserTree
      → Bool
      → Bytes
      → Bytes
      → InMemoryFs
      → Files
      → Option Work
      → InMemoryFs × Answer
  finished user t created src dst fs files none = (set_files fs user t files, panics)
  finished user t created src dst fs files (some w) =
      (after src dst (set_files w.fs user t w.files), node_answer created (get w.files dst))

  abbrev pub run_into :
      Bytes → UserTree → Bytes → Bytes → FileNode → InMemoryFs → InMemoryFs × Answer
  run_into user t src dst node fs =
      let files = cleared dst t.files in
      finished user t (is_new (get t.files dst)) src dst fs files
        (run node.entry.is_dir src dst (record { fs = fs; files = files }))

  abbrev pub from_node :
      Bool → Bytes → UserTree → Bytes → Bytes → InMemoryFs → Option FileNode → InMemoryFs × Answer
  from_node overwrite user t src dst fs none = (fs, returns (err Error.not_found))
  from_node overwrite user t src dst fs (some node) =
      unless_error fs (transfer_error overwrite src dst node t.files)
        (run_into user t src dst node fs)

  abbrev pub transfer_in :
      Bool → Bytes → Bytes → Bytes → InMemoryFs × UserTree → InMemoryFs × Answer
  transfer_in overwrite user src dst (fs, t) =
      if src =? slash || (dst =? slash || src =? dst)
      then (fs, returns (err Error.forbidden))
      else from_node overwrite user t src dst fs (get t.files src)

  unfoldable pub transfer :
      ℕ → Bytes → Bytes → Bytes → Bytes → Bool → InMemoryFs → InMemoryFs × Answer
  transfer now src_user src_path dst_user dst_path overwrite fs =
      if not (src_user =? dst_user)
      then (fs, returns (err Error.forbidden))
      else transfer_in overwrite src_user (mem_path src_path) (mem_path dst_path)
          (ensure_user now fs src_user)

-- Move
unfoldable pub move :
    EtagOf → ℕ → Bytes → Bytes → Bytes → Bytes → Bool → InMemoryFs → InMemoryFs × Answer
move etag_of now src_user src_path dst_user dst_path overwrite fs =
    transfer (move_tree etag_of now) (λ src dst fs'. rename_mem_locks src_user src dst fs') now
      src_user src_path dst_user dst_path overwrite fs

-- Copy
unfoldable pub copy :
    EtagOf → ℕ → Bytes → Bytes → Bytes → Bytes → Bool → Bool → InMemoryFs → InMemoryFs × Answer
copy etag_of now src_user src_path dst_user dst_path overwrite depth_infinity fs =
    transfer (λ is_dir. clone_tree etag_of now (is_dir && depth_infinity)) (λ src dst fs'. fs') now
      src_user src_path dst_user dst_path overwrite fs
