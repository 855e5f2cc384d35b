-- ===== src/Wopi/Handler/Overwrite.antt =====
-- PutRelativeFile onto its own file.
use nextcloud_go.Prelude.{
  ℕ, true, false, Option, none, some, [], ◌∷◌, Bytes, text, ◌≡◌, refl, ◌=?◌, bytes_equality,
  bytes_eq, arith,
}
use nextcloud_go.Text.{to_lower, has_prefix}
use nextcloud_go.Errors.{Error}
use nextcloud_go.Files.LockStore.{LockTable}
use nextcloud_go.Wopi.Names.{sanitize_wopi_name, join_sibling, relative_target_name}
use nextcloud_go.Wopi.Names.Sibling.{sanitize_wopi_name-good, join_sibling-child}
use nextcloud_go.Wopi.Handler.{Request, wrote, State, Drive, created, put_relative_file}

sanitize_wopi_name-same : (raw name : Bytes) → sanitize_wopi_name raw ≡ some name → raw ≡ name
unfolding sanitize_wopi_name
sanitize_wopi_name-same raw name h = ground arith

ops-created :
    (d : Drive) (now_stat now : ℕ) (user p name q : Bytes) (req : Request) (s : State)
    (o : LockTable × Option Error)
    → o.1 ≡ none
    → (created d now_stat now user p req name q s o).0.ops ≡ wrote q req.body ∷ s.ops
ops-created d now_stat now user p name q req s (t, none) h = refl
ops-created d now_stat now user p name q req s (t, some e) h = cc

-- PutRelativeFile does not look at locks: with write access, its own file's name as the exact target
-- and the overwrite header, the request writes its body to that file, whoever holds the lock on it and
-- whatever lock id the request has, unless the file system refuses the write.
pub put_relative_file_overwrites :
    (d : Drive) (now_stat now : ℕ) (user parent name : Bytes) (req : Request) (s : State)
    → has_prefix (text "/") parent ≡ true
    → sanitize_wopi_name req.relative_target ≡ some name
    → req.suggested_target ≡ []
    → to_lower req.overwrite_relative ≡ text "true"
    → (d.write s (join_sibling parent name)).1 ≡ none
    → (put_relative_file d now_stat now user (join_sibling parent name) req true s).0.ops
      ≡ wrote (join_sibling parent name) req.body ∷ s.ops
unfolding put_relative_file relative_target_name bytes_eq
put_relative_file_overwrites d now_stat now user parent name req s root good exact over free =
    let named = sanitize_wopi_name-good req.relative_target name good in
    let same : req.relative_target ≡ name = sanitize_wopi_name-same req.relative_target name good in
    let rel : (req.relative_target =? []) ≡ false = rw same named.0 in
    let here = (join_sibling-child parent name root named).0 in
    let no_other : (req.suggested_target =? []) ≡ true = rw exact refl in
    let all_over : (to_lower req.overwrite_relative =? text "true") ≡ true = rw over refl in
    let p = join_sibling parent name in
    rw (no_other, rel, all_over, good, no_other, here)
      (ops-created d now_stat now user p name p req s (d.write s p) free)
