-- ===== src/Wopi/Handler.antt =====
-- FilesHandler of internal/wopi/handler.go: the routes, PutFile, PutRelativeFile, RenameFile and the
-- lock verbs. The state is the table of locks and what was done to files; the file system is a
-- parameter. The read answers carry only their status, and of the Stats of PutRelativeFile before
-- its write only the answers are modelled, not the expired locks that they drop.
pub mod Gate
pub mod Place
pub mod Overwrite
use nextcloud_go.Prelude.{
  ℕ, Bool, true, false, not, ◌&&◌, ◌||◌, Option, none, some, List, [], ◌∷◌, ◌++◌, Bytes, text, ◌==◌,
  ◌=?◌, bytes_equality, if◌then◌else◌, pos,
}
use nextcloud_go.Text.{to_lower}
use nextcloud_go.Errors.{Error, Result, ok, err}
use nextcloud_go.Files.Path.{parent_file_path}
use nextcloud_go.Files.LockStore.{LockTable}
use nextcloud_go.Files.Lock.{Services}
use nextcloud_go.Files.WopiLock.{Incoming, lock_with_token, unlock_with_token, lock_token_at}
use nextcloud_go.Wopi.Names.{
  sanitize_wopi_name, relative_target_name, dedupe_sibling_name, join_sibling, parse_file_tail,
}
use nextcloud_go.Wopi.Tokens.{
  WopiError, Token, TokenTable, Backend, Resolved, resolve, may_update, authenticate,
}

pub data Method : Type 0 where
  get post other : Method

pub record Request : Type 0 where
  pub method : Method
  pub tail : Bytes
  pub access_token : Bytes
  pub lock_id : Bytes
  pub override_verb : Bytes
  pub relative_target : Bytes
  pub suggested_target : Bytes
  pub overwrite_relative : Bytes
  pub requested_name : Bytes
  pub body : Bytes

-- What was done to files, the newest first
pub data FileOp : Type 0 where
  wrote : Bytes → Bytes → FileOp
  moved : Bytes → Bytes → FileOp

pub record State : Type 0 where
  pub locks : LockTable
  pub ops : List FileOp

-- The file system that serves a user: the file's id for Stat, the calls of the reads (those of getFile
-- for `true` and else those of checkFileInfo), an error of Write or Move, and what each leaves of the
-- table of locks, where Stat drops expired rows and Move takes rows along.
pub record Drive : Type 0 where
  pub services : Services
  pub incoming : Incoming
  pub stat : State → Bytes → LockTable × Result Error ℕ
  pub read : Bool → State → Bytes → LockTable × Result Error ℕ
  pub write : State → Bytes → LockTable × Option Error
  pub move : State → Bytes → Bytes → LockTable × Option Error

-- The status, and the name and the id of a new or renamed file
pub record Response : Type 0 where
  pub status : ℕ
  pub file : Option (Bytes × ℕ)

abbrev pub answer : ℕ → Response
answer code = record { status = code; file = none }

-- mapError
unfoldable pub map_error : Error → ℕ
map_error Error.not_found = 404
map_error Error.key_locked = 403
map_error Error.forbidden = 403
map_error Error.locked = 409
map_error Error.conflict = 409
map_error Error.not_implemented = 501
map_error Error.bad_request = 400
map_error _ = 500

unfoldable pub map_wopi_error : WopiError → ℕ
unfolding map_error
map_wopi_error WopiError.not_found = 404
map_wopi_error WopiError.is_dir = 404
map_wopi_error WopiError.token_not_found = 401
map_wopi_error (WopiError.webdav e) = map_error e
map_wopi_error _ = 500

abbrev pub Served : Type 0
Served = State × Response

module _ (d : Drive) (now_stat now : ℕ) (user p : Bytes) (req : Request) where
  -- LockTokenAt on the state
  unfoldable pub token_now : State → State × Result Error (Option Bytes)
  token_now s =
      let (t, r) = lock_token_at d.services d.incoming now user p s.locks in
      (record s { locks = t }, r)

  -- locked && X-WOPI-Lock != current
  abbrev pub held_by_other : Option Bytes → Bool
  held_by_other none = false
  held_by_other (some current) = not (req.lock_id =? current)

  abbrev pub written_to : Bytes → State → LockTable × Option Error → Served
  written_to q s (t, some e) = (record s { locks = t }, answer (map_error e))
  written_to q s (t, none) = (record { locks = t; ops = wrote q req.body ∷ s.ops }, answer 200)

  abbrev pub unless_held : (State → Served) → State × Result Error (Option Bytes) → Served
  unless_held go (s, err e) = (s, answer (map_error e))
  unless_held go (s, ok current) = if held_by_other current then (s, answer 409) else go s

  -- putFile
  unfoldable pub put_file : Bool → State → Served
  put_file can_write s =
      if not can_write
      then (s, answer 403)
      else unless_held (λ s'. written_to p s' (d.write s' p)) (token_now s)

  -- writeNewFileURLs, behind the Stat of the new file
  abbrev pub new_file : Bytes → Result Error ℕ → Response
  new_file name (err e) = answer (map_error e)
  new_file name (ok id) = record { status = 200; file = some (name, id) }

  abbrev pub created : Bytes → Bytes → State → LockTable × Option Error → Served
  created name q s (t, some e) = (record s { locks = t }, answer (map_error e))
  created name q s (t, none) =
      let s' : State = record { locks = t; ops = wrote q req.body ∷ s.ops } in
      let (t', r) = d.stat s' q in (record s' { locks = t' }, new_file name r)

  abbrev pub is_there : Result Error ℕ → Bool
  is_there (ok id) = true
  is_there (err e) = false

  abbrev pub put_named : Bool → State → Option Bytes → Served
  put_named overwrite s none = (s, answer 400)
  put_named overwrite s (some name) =
      let taken : Bytes → Bool = λ q. is_there (d.stat s q).1 in
      let parent = parent_file_path p in
      let chosen : Bytes =
        if req.suggested_target =? [] then name else dedupe_sibling_name taken parent name in
      let q = join_sibling parent chosen in
      if not overwrite && taken q then (s, answer 409) else created chosen q s (d.write s q)

  -- putRelativeFile
  unfoldable pub put_relative_file : Bool → State → Served
  put_relative_file can_write s =
      let none_or_both =
        (req.relative_target =? [] && req.suggested_target =? [])
        || not (req.relative_target =? []) && not (req.suggested_target =? []) in
      if not can_write
      then (s, answer 403)
      else if none_or_both
      then (s, answer 400)
      else put_named (to_lower req.overwrite_relative =? text "true") s
          (relative_target_name p req.relative_target req.suggested_target)

  abbrev pub moved_to : Bytes → ℕ → Bytes → State → LockTable × Option Error → Served
  moved_to name id q s (t, some e) = (record s { locks = t }, answer (map_error e))
  moved_to name id q s (t, none) = (
    record { locks = t; ops = moved p q ∷ s.ops },
    record { status = 200; file = some (name, id) },
  )

  abbrev pub rename_named : ℕ → State → Option Bytes → Served
  rename_named id s none = (s, answer 400)
  rename_named id s (some name) =
      let q = join_sibling (parent_file_path p) name in
      unless_held (λ s'. moved_to name id q s' (d.move s' p q)) (token_now s)

  -- renameFile
  unfoldable pub rename_file : ℕ → Bool → State → Served
  rename_file id can_write s =
      if not can_write
      then (s, answer 403)
      else rename_named id s (sanitize_wopi_name req.requested_name)

  abbrev pub done {ℓ} : {A : Type ℓ} → State → LockTable × Result Error A → Served
  done s (t, err e) = (record s { locks = t }, answer (map_error e))
  done s (t, ok a) = (record s { locks = t }, answer 200)

  abbrev pub lock_under : State → Served
  lock_under s =
      done s (lock_with_token d.services d.incoming now_stat now user p req.lock_id (pos 0) s.locks)

  abbrev pub refresh_seen : State × Result Error (Option Bytes) → Served
  refresh_seen (s, err e) = (s, answer (map_error e))
  refresh_seen (s, ok none) = (s, answer 409)
  refresh_seen (s, ok (some current)) =
      let again = lock_under s in if not (current =? req.lock_id) then (s, answer 409) else again

  -- The test of a lock verb's lock id and of the write access
  abbrev pub lock_verb : Bool → (State → Served) → State → Served
  lock_verb can_write go s =
      if req.lock_id =? [] then (s, answer 400) else if not can_write then (s, answer 403) else go s

  -- postOp
  unfoldable pub post_op : ℕ → Bool → State → Served
  post_op id can_write s =
      let verb = req.override_verb in
      if verb =? text "RENAME_FILE"
      then rename_file id can_write s
      else if verb =? text "LOCK"
      then lock_verb can_write lock_under s
      else if verb =? text "UNLOCK"
      then lock_verb can_write
          (λ s'.
            done s'
              (unlock_with_token d.services d.incoming now_stat now user p req.lock_id s'.locks))
          s
      else if verb =? text "REFRESH_LOCK"
      then lock_verb can_write (λ s'. refresh_seen (token_now s')) s
      else (s, answer 501)

  -- The reads, checkFileInfo and getFile
  abbrev pub read_status : State → LockTable × Result Error ℕ → Served
  read_status s (t, err e) = (record s { locks = t }, answer (map_error e))
  read_status s (t, ok id) = (record s { locks = t }, answer 200)

  abbrev pub post_contents : Bool → State → Served
  post_contents can_write s =
      if to_lower req.override_verb =? text "put_relative"
      then put_relative_file can_write s
      else put_file can_write s

  -- The routes behind the token and the file
  abbrev pub route : Method → ℕ → Bool → Bool → State → Served
  route get id contents can_write s = read_status s (d.read contents s p)
  route post id contents can_write s =
      if contents then post_contents can_write s else post_op id can_write s
  route other id contents can_write s = (s, answer 405)
