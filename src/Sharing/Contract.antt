-- ===== src/Sharing/Contract.antt =====
-- What the owner of a share gets: a link that opens, and what a password does to a federated share.
use nextcloud_go.Prelude.{
  ℕ, Bool, true, false, ◌||◌, some, List, [], ◌∷◌, ◌++◌, Bytes, ◌≡◌, refl, sym, ap, subst, ◌∙◌,
  ◌==◌, ◌=?◌, bytes_equality, beq_refl, if◌then◌else◌, any, arith, Bool-cases, Option-cases, inl,
  inr,
}
use nextcloud_go.Errors.{Result, ok, err, Result-cases}
use nextcloud_go.Files.Path.{normalize_path}
use nextcloud_go.Sharing.Store.{
  ShareError, Share, ShareTable, first_row, get_by_token, add_row, read_back, insert,
  share_type_link,
}
use nextcloud_go.Sharing.Store.Rows.{has_token}
use nextcloud_go.Sharing.Store.Valid.{IsTable}
use nextcloud_go.Sharing.Service.{
  User, PasswordHasher, Services, State, CreateRequest, Prepared, expired, hash_password, prepare,
  announce, announced, inserted, create,
}
use nextcloud_go.Sharing.Public.{resolve_public}
use nextcloud_go.Sharing.Live.{in_force-filter, RightPassword, resolve_public-CanOpen}
use nextcloud_go.Sharing.Invariant.{prepare-Checked, IsTable-create, or_error-ok}

first_row-append :
    (p : Share → Bool) (rows : List Share) (new : Share)
    → any p rows ≡ false
    → p new ≡ true
    → first_row p (rows ++ (new ∷ [])) ≡ some new
unfolding first_row any
first_row-append p [] new f e = rw e refl
first_row-append p (r ∷ rows) new f e = elim (Bool-cases (p r)) [
  | inl b ↦ absurd (ground (arith, f, b))
  | inr b ↦ rw b (first_row-append p rows new (ground arith) e)
]

-- What Insert answers is the row under its token, with the settings that it was given.
pub record Inserted (sh r : Share) (t : ShareTable) : Type 0 where
  pub stored : first_row (has_token r.token) t.rows ≡ some r
  pub token_there : (r.token =? []) ≡ false
  pub share_type_same : r.share_type ≡ sh.share_type
  pub hash_same : r.password_hash ≡ sh.password_hash
  pub token_same : r.token ≡ sh.token

module _ (t : ShareTable) (sh r : Share) where
  read_back-Inserted :
      (np : Bytes) (accepted : ℕ)
      → (sh.token =? []) ≡ false
      → let row : Share = record sh { path = np; accepted = accepted } in
        (read_back sh.token (add_row t row)).1 ≡ ok r
        → Inserted sh r (read_back sh.token (add_row t row)).0
  unfolding add_row get_by_token
  read_back-Inserted np accepted e h = elim (Bool-cases (any (λ m. m.token =? sh.token) t.rows)) [
    | inl b ↦ absurd (ground (arith, b))
    | inr b ↦
        let new : Share = record sh { id = t.next_id; path = np; accepted = accepted } in
        let last = first_row-append (has_token sh.token) t.rows new b (beq_refl sh.token) in
        let same : new ≡ r = ground (arith, b, e, last) in
        subst
          (λ x.
            Inserted sh x
              (read_back sh.token (add_row t (record sh { path = np; accepted = accepted }))).0)
          same
          (rw b (record {
            stored = last;
            token_there = e;
            share_type_same = refl;
            hash_same = refl;
            token_same = refl;
          }))
  ]

  insert-Inserted : (insert t sh).1 ≡ ok r → Inserted sh r (insert t sh).0
  unfolding insert
  insert-Inserted h = elim (Bool-cases (sh.owner_user_id == 0 || sh.token =? [])) [
    | inl e ↦ absurd (ground (arith, e))
    | inr e ↦ elim (Option-cases (normalize_path sh.path)) [
      | inl n ↦ absurd (ground (arith, e, n))
      | inr (np, n) ↦
          let stored = read_back sh.token (
            add_row t
              (record sh { path = np; accepted = if sh.accepted == 0 then 1 else sh.accepted })) in
          let same : insert t sh ≡ stored = rw (e, n) refl in
          subst (λ (x : ShareTable × Result ShareError Share). x.1 ≡ ok r → Inserted sh r x.0)
            (sym same)
            (read_back-Inserted np (if sh.accepted == 0 then 1 else sh.accepted) (ground arith)) h
    ]
  ]

-- A hasher that verifies what it hashed.
abbrev pub Verifies : Services → Type 0
Verifies env =
    (h : PasswordHasher)
    → env.hasher ≡ some h
    → (password hash : Bytes) → h.hash password ≡ some hash
    → h.verify hash password ≡ some true

hash_password-RightPassword :
    (env : Services) (password hash : Bytes) (sh : Share)
    → Verifies env
    → hash_password env password ≡ ok hash
    → sh.password_hash ≡ hash
    → RightPassword env sh password
unfolding hash_password
hash_password-RightPassword env password hash sh v e same = elim (Bool-cases (password =? [])) [
  | inl n ↦ inl (same ∙ ground (arith, n))
  | inr n ↦ elim (Option-cases env.hasher) [
    | inl k ↦ absurd (ground (arith, n, k))
    | inr (h, k) ↦
        let hashed : h.hash password ≡ some hash =
          or_error-ok (ShareError.failure 0) (h.hash password) hash (ground (arith, n, k)) in
        inr (h, k, rw same (v h k password hash hashed))
  ]
]

announce_link :
    (env : Services) (origin : Bytes) (p : Prepared) (sh : Share) (s : State)
    → sh.share_type ≡ share_type_link
    → announce env origin p sh s ≡ (s, ok sh)
unfolding announce
announce_link env origin p sh s e = rw e refl

announced_link :
    (env : Services) (origin : Bytes) (p : Prepared) (s : State)
    (o : ShareTable × Result ShareError Share) (r : Share)
    → o.1 ≡ ok r
    → r.share_type ≡ share_type_link
    → announced env origin p s o ≡ (record s { table = o.0 }, ok r)
announced_link env origin p s (t, err e) r h k = cc
announced_link env origin p s (t, ok sh) r h k =
    let same : sh ≡ r = cc in
    announce_link env origin p sh (record s { table = t }) (ap (λ x. x.share_type) same ∙ k)
    ∙ rw same refl

announced-err :
    (env : Services) (origin : Bytes) (p : Prepared) (s : State)
    (o : ShareTable × Result ShareError Share) (e : ShareError)
    → o.1 ≡ err e
    → (announced env origin p s o).1 ≡ err e
announced-err env origin p s (t, err e') e h = h
announced-err env origin p s (t, ok sh) e h = cc

-- What Create of a link leaves in the table.
record Made (env : Services) (req : CreateRequest) (sh : Share) (s : State) : Type 0 where
  stored : first_row (has_token sh.token) s.table.rows ≡ some sh
  token_there : (sh.token =? []) ≡ false
  link : sh.share_type ≡ share_type_link
  password_right : Verifies env → RightPassword env sh req.password

create_link :
    (env : Services) (now : ℕ) (new_token : Result ShareError Bytes) (req : CreateRequest)
    (s : State) (sh : Share) (p : Prepared)
    → prepare env now new_token req ≡ ok p
    → req.share_type ≡ share_type_link
    → (announced env req.origin p s (insert s.table p.row)).1 ≡ ok sh
    → Made env req sh (announced env req.origin p s (insert s.table p.row)).0
create_link env now new_token req s sh p e link made =
    elim (Result-cases (insert s.table p.row).1) [
      | inl (x, k) ↦
          absurd (ground (arith, announced-err env req.origin p s (insert s.table p.row) x k))
      | inr (r, k) ↦
          let c = prepare-Checked env now new_token req p e in
          let i = insert-Inserted s.table p.row r k in
          let row_link : p.row.share_type ≡ share_type_link = ap (λ x. x.share_type) c.row ∙ link in
          let row_hash : p.row.password_hash ≡ c.hash =
            ap (λ x. x.password_hash) c.row ∙ rw link refl in
          let done =
            announced_link env req.origin p s (insert s.table p.row) r k
              (i.share_type_same ∙ row_link) in
          let same : r ≡ sh = ground (arith, done) in
          subst (λ x. Made env req x (announced env req.origin p s (insert s.table p.row)).0) same
            (rw done (record {
              stored = i.stored;
              token_there = i.token_there;
              link = i.share_type_same ∙ row_link;
              password_right = λ v.
                  hash_password-RightPassword env req.password c.hash r v c.hashed
                    (i.hash_same ∙ row_hash);
            }))
    ]

create-Made :
    (env : Services) (now : ℕ) (new_token : Result ShareError Bytes) (req : CreateRequest)
    (s : State) (sh : Share)
    → req.share_type ≡ share_type_link
    → (create env now new_token req s).1 ≡ ok sh
    → Made env req sh (create env now new_token req s).0
unfolding create
create-Made env now new_token req s sh link made =
    elim (Result-cases (prepare env now new_token req)) [
      | inl (x, e) ↦ absurd (ground (arith, e))
      | inr (p, e) ↦ rw e (
          create_link env now new_token req s sh p e link (
            subst (λ (r : Result ShareError Prepared). (inserted env req.origin s r).1 ≡ ok sh) e
              made))
    ]

-- A link that Create made, for an owner who is still there, on a table that keeps the invariant and
-- with a hasher that verifies what it hashed: until it expires, its token and its password open it,
-- and answer the share that Create answered.
pub resolve_public-create :
    (env : Services) (now later : ℕ) (new_token : Result ShareError Bytes) (req : CreateRequest)
    (s : State) (sh : Share) (u : User)
    → IsTable s.table
    → Verifies env
    → req.share_type ≡ share_type_link
    → (create env now new_token req s).1 ≡ ok sh
    → expired later sh.expire_ms ≡ false
    → env.user_by_id sh.owner_user_id ≡ ok u
    → (resolve_public env later sh.token req.password (create env now new_token req s).0).1
      ≡ ok (sh, u)
resolve_public-create env now later new_token req s sh u table v link made alive owner =
    let s' = (create env now new_token req s).0 in
    let unique = (IsTable-create env now new_token req s table).unique in
    let m = create-Made env now new_token req s sh link made in
    (resolve_public-CanOpen env later sh.token req.password s' sh u unique).0.1 (record {
      row =
          in_force-filter env later sh.token s' unique (some sh) m.token_there m.stored
          ∙ rw alive refl;
      kind = rw m.link refl;
      owner = owner;
      password_right = m.password_right v;
    })
