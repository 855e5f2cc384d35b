-- ===== src/Wopi/Handler/Place.antt =====
-- Where the files stand that the callbacks write and move.
use nextcloud_go.Prelude.{
  ℕ, Bool, true, false, not, ◌&&◌, Option, none, some, List, [], ◌∷◌, ◌++◌, Bytes, text, ◌≡◌, refl,
  ap, ◌∙◌, ◌⊎◌, ◌=?◌, bytes_equality, if◌then◌else◌, arith, Bool-cases, inl, inr, pos,
}
use nextcloud_go.Text.{to_lower, has_prefix}
use nextcloud_go.Errors.{Error, Result, ok, err}
use nextcloud_go.Files.Path.{parent_file_path}
use nextcloud_go.Files.LockStore.{LockTable}
use nextcloud_go.Files.WopiLock.{lock_with_token, unlock_with_token}
use nextcloud_go.Wopi.Names.{
  sanitize_wopi_name, relative_target_name, dedupe_sibling_name, join_sibling, stem_of, last_name,
}
use nextcloud_go.Wopi.Names.Sibling.{
  IsName, sanitize_wopi_name-good, join_sibling-child, dedupe_sibling_name-IsName,
  parent_file_path-absolute,
}
use nextcloud_go.Wopi.Handler.{
  Method, get, post, other, Request, FileOp, wrote, moved, State, Drive, answer, Served, token_now,
  moved_to, written_to, created, unless_held, put_file, put_relative_file, put_named, rename_file,
  rename_named, done, lock_verb, lock_under, refresh_seen, post_op, post_contents, route, is_there,
}
use nextcloud_go.Wopi.Handler.Gate.{ops-read_status}

module _ (p : Bytes) (body : Bytes) where
  -- The body goes to a file beside `p`, or `p` itself moves to such a place.
  abbrev pub InPlace : FileOp → Type 0
  InPlace (wrote q b) = (b ≡ body) × (parent_file_path q ≡ parent_file_path p)
  InPlace (moved a q) = (a ≡ p) × (parent_file_path q ≡ parent_file_path p)

  -- At most one operation is new, and that one is in place.
  abbrev pub Placed : List FileOp → List FileOp → Type 0
  Placed before after = (after ≡ before) ⊎ ((op : FileOp) × (after ≡ op ∷ before) × InPlace op)

module _ (d : Drive) (now_stat now : ℕ) (user p : Bytes) (req : Request) (base : List FileOp) where
  abbrev AllPlaced : Served → Type 0
  AllPlaced o = Placed p req.body base o.0.ops

  AllPlaced-written_to :
      (q : Bytes) (s : State) (o : LockTable × Option Error)
      → parent_file_path q ≡ parent_file_path p
      → s.ops ≡ base
      → AllPlaced (written_to d now_stat now user p req q s o)
  AllPlaced-written_to q s (t, some e) h b = inl b
  AllPlaced-written_to q s (t, none) h b =
      inr (wrote q req.body, ap (λ l. wrote q req.body ∷ l) b, (refl, h))

  AllPlaced-created :
      (name q : Bytes) (s : State) (o : LockTable × Option Error)
      → parent_file_path q ≡ parent_file_path p
      → s.ops ≡ base
      → AllPlaced (created d now_stat now user p req name q s o)
  AllPlaced-created name q s (t, some e) h b = inl b
  AllPlaced-created name q s (t, none) h b =
      inr (wrote q req.body, ap (λ l. wrote q req.body ∷ l) b, (refl, h))

  AllPlaced-moved_to :
      (name : Bytes) (id : ℕ) (q : Bytes) (s : State) (o : LockTable × Option Error)
      → parent_file_path q ≡ parent_file_path p
      → s.ops ≡ base
      → AllPlaced (moved_to d now_stat now user p req name id q s o)
  AllPlaced-moved_to name id q s (t, some e) h b = inl b
  AllPlaced-moved_to name id q s (t, none) h b =
      inr (moved p q, ap (λ l. moved p q ∷ l) b, (refl, h))

  AllPlaced-unless_held :
      (go : State → Served)
      → ((s : State) → s.ops ≡ base → AllPlaced (go s))
      → (o : State × Result Error (Option Bytes)) → o.0.ops ≡ base
      → AllPlaced (unless_held d now_stat now user p req go o)
  AllPlaced-unless_held go h (s, err e) b = inl b
  AllPlaced-unless_held go h (s, ok none) b = h s b
  AllPlaced-unless_held go h (s, ok (some current)) b = elim (Bool-cases (req.lock_id =? current)) [
    | inl e ↦ rw e (h s b)
    | inr e ↦ rw e (inl b)
  ]

  ops-done :
      {A : Type 0} (s : State) (o : LockTable × Result Error A)
      → (done d now_stat now user p req s o).0.ops ≡ s.ops
  ops-done s (t, err e) = refl
  ops-done s (t, ok a) = refl

  module _ (absolute : has_prefix (text "/") p ≡ true) where
    beside :
        (name : Bytes)
        → IsName name
        → parent_file_path (join_sibling (parent_file_path p) name) ≡ parent_file_path p
    beside name good =
        (join_sibling-child (parent_file_path p) name (parent_file_path-absolute p absolute) good).0

    -- The new file under a chosen name, unless it may not be overwritten
    AllPlaced-chosen :
        (s : State) (name : Bytes)
        → IsName name
        → s.ops ≡ base
        → (blocked : Bool)
        → (let q = join_sibling (parent_file_path p) name in
            AllPlaced (
              if blocked
              then (s, answer 409)
              else created d now_stat now user p req name q s (d.write s q)))
    AllPlaced-chosen s name good b true = inl b
    AllPlaced-chosen s name good b false =
        let q = join_sibling (parent_file_path p) name in
        AllPlaced-created name q s (d.write s q) (beside name good) b

    AllPlaced-put_named :
        (overwrite : Bool) (s : State) (o : Option Bytes)
        → ((name : Bytes) → o ≡ some name → IsName name)
        → s.ops ≡ base
        → AllPlaced (put_named d now_stat now user p req overwrite s o)
    AllPlaced-put_named overwrite s none h b = inl b
    AllPlaced-put_named overwrite s (some name) h b =
        let good = h name refl in
        let taken : Bytes → Bool = λ q. is_there d now_stat now user p req (d.stat s q).1 in
        let parent = parent_file_path p in
        elim (Bool-cases (req.suggested_target =? [])) [
          | inl e ↦
              rw e
                (AllPlaced-chosen s name good b (not overwrite && taken (join_sibling parent name)))
          | inr e ↦
              let next = dedupe_sibling_name taken parent name in
              rw e (
                AllPlaced-chosen s next (dedupe_sibling_name-IsName taken parent name good) b
                  (not overwrite && taken (join_sibling parent next)))
        ]

    relative_target_name-IsName :
        (rel suggested name : Bytes)
        → relative_target_name p rel suggested ≡ some name
        → IsName name
    unfolding relative_target_name
    relative_target_name-IsName rel suggested name h = elim (Bool-cases (rel =? [])) [
      | inr e ↦ sanitize_wopi_name-good rel name (ground arith)
      | inl e ↦ elim (Bool-cases (has_prefix (text ".") suggested)) [
        | inl f ↦ sanitize_wopi_name-good (stem_of (last_name p) ++ suggested) name (ground arith)
        | inr f ↦ sanitize_wopi_name-good suggested name (ground arith)
      ]
    ]

    AllPlaced-rename_named :
        (id : ℕ) (s : State) (o : Option Bytes)
        → ((name : Bytes) → o ≡ some name → IsName name)
        → s.ops ≡ base
        → AllPlaced (rename_named d now_stat now user p req id s o)
    unfolding token_now
    AllPlaced-rename_named id s none h b = inl b
    AllPlaced-rename_named id s (some name) h b =
        let q = join_sibling (parent_file_path p) name in
        AllPlaced-unless_held
          (λ s'. moved_to d now_stat now user p req name id q s' (d.move s' p q))
          (λ s' b'. AllPlaced-moved_to name id q s' (d.move s' p q) (beside name (h name refl)) b')
          (token_now d now_stat now user p req s) b

    AllPlaced-put_file :
        (can_write : Bool) (s : State)
        → s.ops ≡ base
        → AllPlaced (put_file d now_stat now user p req can_write s)
    unfolding put_file token_now
    AllPlaced-put_file false s b = inl b
    AllPlaced-put_file true s b =
        AllPlaced-unless_held (λ s'. written_to d now_stat now user p req p s' (d.write s' p))
          (λ s' b'. AllPlaced-written_to p s' (d.write s' p) refl b')
          (token_now d now_stat now user p req s) b

    AllPlaced-put_relative_file :
        (can_write : Bool) (s : State)
        → s.ops ≡ base
        → AllPlaced (put_relative_file d now_stat now user p req can_write s)
    unfolding put_relative_file
    AllPlaced-put_relative_file false s b = inl b
    AllPlaced-put_relative_file true s b = go _
      where
        go :
            (none_or_both : Bool)
            → AllPlaced (
                if none_or_both
                then (s, answer 400)
                else put_named d now_stat now user p req
                    (to_lower req.overwrite_relative =? text "true")
                    s
                    (relative_target_name p req.relative_target req.suggested_target))
        go true = inl b
        go false =
            AllPlaced-put_named (to_lower req.overwrite_relative =? text "true") s
              (relative_target_name p req.relative_target req.suggested_target)
              (relative_target_name-IsName req.relative_target req.suggested_target) b

    AllPlaced-rename_file :
        (id : ℕ) (can_write : Bool) (s : State)
        → s.ops ≡ base
        → AllPlaced (rename_file d now_stat now user p req id can_write s)
    unfolding rename_file
    AllPlaced-rename_file id false s b = inl b
    AllPlaced-rename_file id true s b =
        AllPlaced-rename_named id s (sanitize_wopi_name req.requested_name)
          (sanitize_wopi_name-good req.requested_name) b

    ops-lock_verb :
        (can_write : Bool) (go : State → Served) (s : State)
        → (go s).0.ops ≡ s.ops
        → (lock_verb d now_stat now user p req can_write go s).0.ops ≡ s.ops
    ops-lock_verb true go s h = elim (Bool-cases (req.lock_id =? [])) [
      | inl e ↦ rw e refl
      | inr e ↦ rw e h
    ]
    ops-lock_verb false go s h = elim (Bool-cases (req.lock_id =? [])) [
      | inl e ↦ rw e refl
      | inr e ↦ rw e refl
    ]

    ops-lock_under : (s : State) → (lock_under d now_stat now user p req s).0.ops ≡ s.ops
    ops-lock_under s =
        ops-done s
          (lock_with_token d.services d.incoming now_stat now user p req.lock_id (pos 0) s.locks)

    ops-refresh_seen :
        (o : State × Result Error (Option Bytes))
        → (refresh_seen d now_stat now user p req o).0.ops ≡ o.0.ops
    ops-refresh_seen (s, err e) = refl
    ops-refresh_seen (s, ok none) = refl
    ops-refresh_seen (s, ok (some current)) = elim (Bool-cases (current =? req.lock_id)) [
      | inl e ↦ rw e (ops-lock_under s)
      | inr e ↦ rw e refl
    ]

    -- A lock verb does nothing to files.
    AllPlaced-lock_verb :
        (can_write : Bool) (go : State → Served) (s : State)
        → (go s).0.ops ≡ s.ops
        → s.ops ≡ base
        → AllPlaced (lock_verb d now_stat now user p req can_write go s)
    AllPlaced-lock_verb can_write go s h b = inl (ops-lock_verb can_write go s h ∙ b)

    AllPlaced-post_op :
        (id : ℕ) (can_write : Bool) (s : State)
        → s.ops ≡ base
        → AllPlaced (post_op d now_stat now user p req id can_write s)
    unfolding post_op token_now
    AllPlaced-post_op id can_write s b =
        let unlocked : State → Served = λ s'.
          done d now_stat now user p req s'
            (unlock_with_token d.services d.incoming now_stat now user p req.lock_id s'.locks) in
        let refreshed : State → Served =
          λ s'. refresh_seen d now_stat now user p req (token_now d now_stat now user p req s') in
        elim (Bool-cases (req.override_verb =? text "RENAME_FILE")) [
          | inl e ↦ rw e (AllPlaced-rename_file id can_write s b)
          | inr e ↦ elim (Bool-cases (req.override_verb =? text "LOCK")) [
            | inl f ↦
                rw (e, f)
                  (AllPlaced-lock_verb can_write (lock_under d now_stat now user p req) s
                    (ops-lock_under s) b)
            | inr f ↦ elim (Bool-cases (req.override_verb =? text "UNLOCK")) [
              | inl g ↦
                  rw (e, f, g)
                    (AllPlaced-lock_verb can_write unlocked s
                      (ops-done s (
                        unlock_with_token d.services d.incoming now_stat now user p req.lock_id
                          s.locks))
                      b)
              | inr g ↦ elim (Bool-cases (req.override_verb =? text "REFRESH_LOCK")) [
                | inl h ↦
                    rw (e, f, g, h)
                      (AllPlaced-lock_verb can_write refreshed s
                        (ops-refresh_seen (token_now d now_stat now user p req s)) b)
                | inr h ↦ rw (e, f, g, h) (inl b)
              ]
            ]
          ]
        ]

    AllPlaced-post_contents :
        (can_write : Bool) (s : State)
        → s.ops ≡ base
        → AllPlaced (post_contents d now_stat now user p req can_write s)
    AllPlaced-post_contents can_write s b =
        elim (Bool-cases (to_lower req.override_verb =? text "put_relative")) [
          | inl e ↦ rw e (AllPlaced-put_relative_file can_write s b)
          | inr e ↦ rw e (AllPlaced-put_file can_write s b)
        ]

-- A request on a file with an absolute path does at most one thing to files: it writes its body to
-- a file in that file's directory, or it moves that file within its directory, whatever names the
-- request asks for.
pub route-Placed :
    (d : Drive) (now_stat now : ℕ) (user p : Bytes) (req : Request) (m : Method) (id : ℕ)
    (contents can_write : Bool) (s : State)
    → has_prefix (text "/") p ≡ true
    → Placed p req.body s.ops (route d now_stat now user p req m id contents can_write s).0.ops
route-Placed d now_stat now user p req get id contents can_write s h =
    inl (ops-read_status d now_stat now user p req s (d.read contents s p))
route-Placed d now_stat now user p req post id true can_write s h =
    AllPlaced-post_contents d now_stat now user p req s.ops h can_write s refl
route-Placed d now_stat now user p req post id false can_write s h =
    AllPlaced-post_op d now_stat now user p req s.ops h id can_write s refl
route-Placed d now_stat now user p req other id contents can_write s h = inl refl
