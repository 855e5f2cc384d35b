-- ===== src/Webdav/Memory/Props.antt =====
-- PatchProps of InMemoryFS, in internal/webdav/fs.go: the one property that it stores is favorite.
use nextcloud_go.Prelude.{
  ℕ, Bool, not, ◌&&◌, ◌||◌, Option, none, some, List, [], ◌∷◌, Bytes, text, ◌=?◌, bytes_equality,
  if◌then◌else◌,
}
use nextcloud_go.Text.{trim_space}
use nextcloud_go.Dict.{get, put}
use nextcloud_go.Errors.{Error, Result, ok, err}
use nextcloud_go.Webdav.Memory.{
  Entry, FileNode, UserTree, InMemoryFs, ensure_user, mem_path, slash, set_tree, set_files,
}

pub record PropPatchOp : Type 0 where
  pub removes : Bool
  pub space : Bytes
  pub name : Bytes
  pub value : Bytes

pub record PropPatchResult : Type 0 where
  pub space : Bytes
  pub name : Bytes
  pub status : ℕ

abbrev pub answer : PropPatchOp → ℕ → PropPatchResult
answer op status = record { space = op.space; name = op.name; status = status }

abbrev pub owncloud_ns : Bytes
owncloud_ns = text "http://owncloud.org/ns"

abbrev pub zero_value : Bytes
zero_value = b'0' ∷ []

abbrev pub one_value : Bytes
one_value = b'1' ∷ []

-- One round of the loop: the entry's favorite behind it, and the result.
unfoldable pub patch_op : PropPatchOp → ℕ → ℕ × PropPatchResult
patch_op op favorite =
    if not (op.name =? text "favorite") || (not (op.space =? []) && not (op.space =? owncloud_ns))
    then (favorite, answer op 403)
    else if op.removes
    then (0, answer op 200)
    else if not (trim_space op.value =? zero_value) && not (trim_space op.value =? one_value)
    then (favorite, answer op 403)
    else if trim_space op.value =? one_value
    then (1, answer op 200)
    else (0, answer op 200)

unfoldable pub patch_loop : List PropPatchOp → ℕ → ℕ × List PropPatchResult
patch_loop [] favorite = (favorite, [])
patch_loop (op ∷ ops) favorite =
    let (favorite1, res) = patch_op op favorite in
    let (favorite2, out) = patch_loop ops favorite1 in (favorite2, res ∷ out)

abbrev pub patched : List PropPatchOp → Entry → Entry × List PropPatchResult
patched ops e =
    let (favorite, out) = patch_loop ops e.favorite in (record e { favorite = favorite }, out)

abbrev pub patch_found :
    Bytes
    → Bytes
    → List PropPatchOp
    → InMemoryFs
    → UserTree
    → Option FileNode
    → InMemoryFs × Result Error (List PropPatchResult)
patch_found user np ops fs t none = (fs, err Error.not_found)
patch_found user np ops fs t (some n) =
    let (e, out) = patched ops n.entry in
    (set_files fs user t (put t.files np (record n { entry = e })), ok out)

abbrev pub patch_root :
    Bytes
    → List PropPatchOp
    → InMemoryFs
    → UserTree
    → InMemoryFs × Result Error (List PropPatchResult)
patch_root user ops fs t =
    let (e, out) = patched ops t.root in (set_tree fs user (record t { root = e }), ok out)

abbrev pub patch_in :
    Bytes
    → Bytes
    → List PropPatchOp
    → InMemoryFs × UserTree
    → InMemoryFs × Result Error (List PropPatchResult)
patch_in user np ops (fs, t) =
    if np =? slash then patch_root user ops fs t else patch_found user np ops fs t (get t.files np)

-- PatchProps
unfoldable pub patch_props :
    ℕ
    → Bytes
    → Bytes
    → List PropPatchOp
    → InMemoryFs
    → InMemoryFs × Result Error (List PropPatchResult)
patch_props now user p ops fs = patch_in user (mem_path p) ops (ensure_user now fs user)
