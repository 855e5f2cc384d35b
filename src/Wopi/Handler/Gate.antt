-- ===== src/Wopi/Handler/Gate.antt =====
-- What keeps a file from being written or moved: no write access, or a lock under another id.
use nextcloud_go.Prelude.{
  ℕ, Bool, true, false, Option, none, some, Bytes, ◌≡◌, refl, ap, ◌=?◌, bytes_equality, arith,
  if◌then◌else◌, Option-cases, inl, inr,
}
use nextcloud_go.Errors.{Error, Result, ok, err}
use nextcloud_go.Files.Path.{parent_file_path}
use nextcloud_go.Files.LockStore.{LockTable}
use nextcloud_go.Wopi.Names.{sanitize_wopi_name, join_sibling}
use nextcloud_go.Wopi.Handler.{
  Method, get, post, other, Request, State, Drive, answer, Served, token_now, moved_to, written_to,
  unless_held, put_file, put_relative_file, rename_file, post_op, post_contents, read_status, route,
}

-- What RenameFile answers of a file that another client holds
abbrev pub rename_refused : Bool → Option Bytes → ℕ
rename_refused false name = 403
rename_refused true none = 400
rename_refused true (some name) = 409

module _ (d : Drive) (now_stat now : ℕ) (user p : Bytes) (req : Request) where
  read_only_post_op : (id : ℕ) (s : State) → (post_op d now_stat now user p req id false s).0 ≡ s
  unfolding post_op rename_file
  read_only_post_op id s = ground arith

  read_only_contents : (s : State) → (post_contents d now_stat now user p req false s).0 ≡ s
  unfolding put_file put_relative_file
  read_only_contents s = ground arith

  pub ops-read_status :
      (s : State) (o : LockTable × Result Error ℕ)
      → (read_status d now_stat now user p req s o).0.ops ≡ s.ops
  ops-read_status s (t, err e) = refl
  ops-read_status s (t, ok id) = refl

  state-held_by_other :
      (go : State → Served) (o : State × Result Error (Option Bytes)) (current : Bytes)
      → o.1 ≡ ok (some current)
      → (req.lock_id =? current) ≡ false
      → unless_held d now_stat now user p req go o ≡ (o.0, answer 409)
  state-held_by_other go (s, err e) current h n = cc
  state-held_by_other go (s, ok none) current h n = cc
  state-held_by_other go (s, ok (some c)) current h n =
      let same : c ≡ current = cc in rw (same, n) refl

  -- What RenameFile does once the lock lets it
  abbrev renaming : ℕ → Bytes → State → Served
  renaming id name s =
      let q = join_sibling (parent_file_path p) name in
      moved_to d now_stat now user p req name id q s (d.move s p q)

  rename_held :
      (id : ℕ) (s : State) (current : Bytes)
      → (token_now d now_stat now user p req s).1 ≡ ok (some current)
      → (req.lock_id =? current) ≡ false
      → ((rename_file d now_stat now user p req id true s).0.ops ≡ s.ops)
        × ((rename_file d now_stat now user p req id true s).1
            ≡ answer (rename_refused true (sanitize_wopi_name req.requested_name)))
  unfolding rename_file token_now
  rename_held id s current h n = elim (Option-cases (sanitize_wopi_name req.requested_name)) [
    | inl e ↦ rw e (refl, refl)
    | inr (name, e) ↦
        let same =
          state-held_by_other (renaming id name) (token_now d now_stat now user p req s) current h
            n in
        rw e (ap (λ x. x.0.ops) same, ap (λ x. x.1) same)
  ]

  -- A file whose lock is in force under another id than the request's: PutFile writes nothing and
  -- answers 409, or 403 without write access; RenameFile moves nothing and answers 409, or 403 without
  -- write access, or 400 for a name that it refuses. PutRelativeFile is not among these operations.
  pub held_by_other_kept :
      (id : ℕ) (can_write : Bool) (s : State) (current : Bytes)
      → (token_now d now_stat now user p req s).1 ≡ ok (some current)
      → (req.lock_id =? current) ≡ false
      → ((put_file d now_stat now user p req can_write s).0.ops ≡ s.ops)
        × ((put_file d now_stat now user p req can_write s).1
            ≡ answer (if can_write then 409 else 403))
        × ((rename_file d now_stat now user p req id can_write s).0.ops ≡ s.ops)
        × ((rename_file d now_stat now user p req id can_write s).1
            ≡ answer (rename_refused can_write (sanitize_wopi_name req.requested_name)))
  unfolding put_file rename_file token_now
  held_by_other_kept id false s current h n = (refl, refl, refl, refl)
  held_by_other_kept id true s current h n =
      let o = token_now d now_stat now user p req s in
      let refused = λ (go : State → Served). state-held_by_other go o current h n in
      let put = refused (λ s'. written_to d now_stat now user p req p s' (d.write s' p)) in
      let (kept, said) = rename_held id s current h n in
      (ap (λ x. x.0.ops) put, ap (λ x. x.1) put, kept, said)

  pub read_only_route :
      (m : Method) (id : ℕ) (contents : Bool) (s : State)
      → ((route d now_stat now user p req m id contents false s).0.ops ≡ s.ops)
        × (m ≡ post → (route d now_stat now user p req m id contents false s).0 ≡ s)
  read_only_route get id contents s = (ops-read_status s (d.read contents s p), λ e. absurd (cc))
  read_only_route other id contents s = (refl, λ e. refl)
  read_only_route post id true s =
      let same = read_only_contents s in (ap (λ x. x.ops) same, λ e. same)
  read_only_route post id false s =
      let same = read_only_post_op id s in (ap (λ x. x.ops) same, λ e. same)
