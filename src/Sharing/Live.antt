-- ===== src/Sharing/Live.antt =====
-- The shares in force as the abstract view of the table: what expired may stand in the table or be
-- deleted, and the lookups cannot tell.
pub mod Lists
use nextcloud_go.Prelude.{
  ℕ, zero, suc, Bool, true, false, not, ◌&&◌, ◌||◌, Option, none, some, List, [], ◌∷◌, Bytes, ◌≡◌,
  refl, sym, ap, ◌∙◌, ◌↔◌, ◌⊎◌, inl, inr, ◌==◌, ◌=?◌, bytes_equality, bytes_eq_iff, beq_refl,
  if◌then◌else◌, keep, All, All-keep, arith, Bool-cases, Option-cases,
}
use nextcloud_go.Errors.{Result, ok, err, Result-cases}
use nextcloud_go.Sharing.Store.{
  ShareError, Share, ShareTable, first_row, get_by_token, get_by_id, delete,
}
use nextcloud_go.Sharing.Store.Rows.{
  only-first_row, All-map, keep-delete, filter_row, first_row-keep, first_row-passes, All-first_row,
  Unique, has_id, has_token, Single-id, Single-token, keep-keep, every_row,
}
use nextcloud_go.Sharing.Service.{
  User, PasswordHasher, Services, Call, State, log_if, forget, expired, expire_if_needed,
}
use nextcloud_go.Sharing.Public.{
  Opened, with_owner, unless_expired, opened, lookup_valid_share, of_type, is_link,
  is_link_or_remote, lookup_valid, lookup_valid_public_dav, verified, is_verified, passes,
  resolve_with_password, resolve_public, resolve_public_dav,
}

abbrev pub fresh : ℕ → Share → Bool
fresh now r = not (expired now r.expire_ms)

-- The shares in force
unfoldable pub live : ℕ → State → List Share
live now s = keep (fresh now) s.table.rows

pub table-log_if : (b : Bool) (c : Call) (s : State) → (log_if b c s).table ≡ s.table
table-log_if true c s = refl
table-log_if false c s = refl

pub table-forget :
    (env : Services) (sh : Share) (s : State) → (forget env sh s).table ≡ delete s.table sh.id
unfolding forget
table-forget env sh s =
    table-log_if env.has_keys (Call.key_unwrapped sh) (
      log_if env.has_notifs (Call.notification_dismissed sh.id)
        (record s { table = delete s.table sh.id }))
    ∙ table-log_if env.has_notifs (Call.notification_dismissed sh.id)
        (record s { table = delete s.table sh.id })

-- Rows with the id of a share are in force exactly when it is.
abbrev pub Agree : ℕ → Share → List Share → Type 0
Agree now sh = All (λ r. (r.id == sh.id) ≡ true → fresh now r ≡ fresh now sh)

pub live-expire_if_needed :
    (env : Services) (now : ℕ) (sh : Share) (s : State)
    → Agree now sh s.table.rows
    → live now (expire_if_needed env now sh s).0 ≡ live now s
unfolding live expire_if_needed
live-expire_if_needed env now sh s h = elim (Bool-cases (expired now sh.expire_ms)) [
  | inl e ↦ rw e (
      ap (λ t. keep (fresh now) t.rows) (table-forget env sh s)
      ∙ keep-delete (fresh now) sh.id s.table
          (All-map s.table.rows (λ r f same. f same ∙ rw e refl) h))
  | inr e ↦ rw e refl
]

pub gone-expire_if_needed :
    (env : Services) (now : ℕ) (sh : Share) (s : State)
    → (expire_if_needed env now sh s).1 ≡ expired now sh.expire_ms
unfolding expire_if_needed
gone-expire_if_needed env now sh s = elim (Bool-cases (expired now sh.expire_ms)) [
  | inl e ↦ rw e refl
  | inr e ↦ rw e refl
]

-- A row of the table agrees with all others of its id.
pub Agree-first_row :
    (now : ℕ) (p : Share → Bool) (rows : List Share) (sh : Share)
    → Unique rows
    → first_row p rows ≡ some sh
    → Agree now sh rows
Agree-first_row now p rows sh u h =
    All-map rows (λ r f i. ap (fresh now) (f i)) (only-first_row p rows sh u h)

-- The row that a token finds among the shares in force.
abbrev pub in_force : ℕ → Bytes → State → Option Share
in_force now token s = if token =? [] then none else first_row (has_token token) (live now s)

abbrev pub found_live : Services → Option Share → Result ShareError (Share × User)
found_live env none = err ShareError.not_found
found_live env (some sh) = with_owner sh (env.user_by_id sh.owner_user_id)

module _ (env : Services) (now : ℕ) (token : Bytes) (s : State) (u : Unique s.table.rows) where
  pub in_force-filter :
      (o : Option Share)
      → (token =? []) ≡ false
      → first_row (has_token token) s.table.rows ≡ o
      → in_force now token s ≡ filter_row (fresh now) o
  unfolding live
  in_force-filter o e h = rw e (
      first_row-keep (has_token token) (fresh now) s.table.rows (Single-token token s.table.rows u)
      ∙ ap (filter_row (fresh now)) h)

  -- On a table with unique ids and tokens: a token's lookup answers what the shares in force
  -- answer, and leaves the shares in force as they were.
  pub lookup_valid_share-live :
      ((lookup_valid_share env now token s).1 ≡ found_live env (in_force now token s))
      × (live now (lookup_valid_share env now token s).0 ≡ live now s)
  unfolding lookup_valid_share get_by_token
  lookup_valid_share-live = elim (Bool-cases (token =? [])) [
    | inl e ↦ rw e (refl, refl)
    | inr e ↦ elim (Option-cases (first_row (has_token token) s.table.rows)) [
      | inl n ↦ rw (in_force-filter none e n) (rw (e, n) (refl, refl))
      | inr (sh, f) ↦ rw (in_force-filter (some sh) e f) (rw (e, f) (opened_row sh f))
    ]
  ]
    where
      opened_row :
          (sh : Share)
          → first_row (has_token token) s.table.rows ≡ some sh
          → ((opened env now s (ok sh)).1 ≡ found_live env (filter_row (fresh now) (some sh)))
            × (live now (opened env now s (ok sh)).0 ≡ live now s)
      opened_row sh f = (
        elim (Bool-cases (expired now sh.expire_ms)) [
          | inl e ↦ rw (gone-expire_if_needed env now sh s, e) refl
          | inr e ↦ rw (gone-expire_if_needed env now sh s, e) refl
        ],
        live-expire_if_needed env now sh s
            (Agree-first_row now (has_token token) s.table.rows sh u f),
      )

abbrev pub RightPassword : Services → Share → Bytes → Type 0
RightPassword env sh password =
    (sh.password_hash ≡ [])
    ⊎ ((h : PasswordHasher) × (env.hasher ≡ some h)
        × (h.verify sh.password_hash password ≡ some true))

verified_by :
    (hash password : Bytes) (o : Option PasswordHasher)
    → is_verified (verified hash password o) ≡ true
    → (h : PasswordHasher) × (o ≡ some h) × (h.verify hash password ≡ some true)
verified_by hash password none e = cc
verified_by hash password (some h) e = elim (Option-cases (h.verify hash password)) [
  | inl n ↦ absurd (ground (arith, n))
  | inr (b, n) ↦ (h, refl, ground (arith, n))
]

passes-RightPassword :
    (env : Services) (sh : Share) (password : Bytes)
    → passes env sh password ≡ true
    → RightPassword env sh password
unfolding passes
passes-RightPassword env sh password p = elim (Bool-cases (sh.password_hash =? [])) [
  | inl e ↦ inl ((bytes_eq_iff sh.password_hash []).0 e)
  | inr e ↦ inr (verified_by sh.password_hash password env.hasher (ground (arith, e)))
]

RightPassword-passes :
    (env : Services) (sh : Share) (password : Bytes)
    → RightPassword env sh password
    → passes env sh password ≡ true
unfolding passes
RightPassword-passes env sh password (inl e) = rw (e, beq_refl {A = Bytes} []) refl
RightPassword-passes env sh password (inr (h, n, v)) = elim (Bool-cases (sh.password_hash =? [])) [
  | inl e ↦ rw e refl
  | inr e ↦ rw (e, n, v) refl
]

of_type-eq_ok :
    (p : ℕ → Bool) (o : Opened) (sh : Share) (u : User)
    → ((of_type p o).1 ≡ ok (sh, u)) ↔ ((o.1 ≡ ok (sh, u)) × (p sh.share_type ≡ true))
of_type-eq_ok p (s, err e) sh u = (λ h. cc, λ h. cc)
of_type-eq_ok p (s, ok (sh', u')) sh u = elim (Bool-cases (p sh'.share_type)) [
  | inl e ↦ ground arith
  | inr e ↦ ground arith
]

resolve_with_password-eq_ok :
    (env : Services) (password : Bytes) (o : Opened) (sh : Share) (u : User)
    → ((resolve_with_password env password o).1 ≡ ok (sh, u))
      ↔ ((o.1 ≡ ok (sh, u)) × (passes env sh password ≡ true))
resolve_with_password-eq_ok env password (s, err e) sh u = (λ h. cc, λ h. cc)
resolve_with_password-eq_ok env password (s, ok (sh', u')) sh u =
    elim (Bool-cases (passes env sh' password)) [ inl e ↦ ground arith | inr e ↦ ground arith ]

found_live-eq_ok :
    (env : Services) (o : Option Share) (sh : Share) (u : User)
    → (found_live env o ≡ ok (sh, u)) ↔ ((o ≡ some sh) × (env.user_by_id sh.owner_user_id ≡ ok u))
found_live-eq_ok env none sh u = (λ h. cc, λ h. cc)
found_live-eq_ok env (some r) sh u =
    (λ h. sent h (Result-cases (env.user_by_id r.owner_user_id)), λ h. back (h.0) h.1)
  where
    sent :
        with_owner r (env.user_by_id r.owner_user_id) ≡ ok (sh, u)
        → ((e : ShareError) × (env.user_by_id r.owner_user_id ≡ err e))
          ⊎ ((v : User) × (env.user_by_id r.owner_user_id ≡ ok v))
        → (some r ≡ some sh) × (env.user_by_id sh.owner_user_id ≡ ok u)
    sent h (inl (e, n)) = absurd (ground (arith, n))
    sent h (inr (v, n)) =
        let pair : ◌≡◌ {A = Share × User} (r, v) (sh, u) = ground (arith, n) in
        let same : r ≡ sh = ap (λ x. x.0) pair in
        (
          ap some same,
          ap (λ x. env.user_by_id x.owner_user_id) (sym same) ∙ (n ∙ ap (λ x. ok x.1) pair),
        )

    back :
        some r ≡ some sh
        → env.user_by_id sh.owner_user_id ≡ ok u
        → with_owner r (env.user_by_id r.owner_user_id) ≡ ok (sh, u)
    back e h =
        let same : r ≡ sh = ground arith in
        ap (λ x. with_owner x (env.user_by_id x.owner_user_id)) same ∙ rw h refl

-- Who opens which share: it is in force under the token and of a type that resolves, its owner is
-- there, and the password is the right one if the share has one.
pub record CanOpen (env : Services) (now : ℕ) (p : ℕ → Bool) (token password : Bytes) (s : State)
    (sh : Share) (u : User) : Type 0 where
  pub row : in_force now token s ≡ some sh
  pub kind : p sh.share_type ≡ true
  pub owner : env.user_by_id sh.owner_user_id ≡ ok u
  pub password_right : RightPassword env sh password

opened_state :
    (env : Services) (now : ℕ) (p : ℕ → Bool) (password : Bytes) (o : Opened)
    → live now (resolve_with_password env password (of_type p o)).0 ≡ live now o.0
opened_state env now p password (s, err e) = refl
opened_state env now p password (s, ok (sh, u)) = elim (Bool-cases (p sh.share_type)) [
  | inl e ↦ rw e refl
  | inr e ↦ rw e refl
]

module _ (env : Services) (now : ℕ) (p : ℕ → Bool) (token password : Bytes) (s : State) (sh : Share)
    (u : User) (unique : Unique s.table.rows) where
  abbrev resolved : Opened
  resolved = resolve_with_password env password (of_type p (lookup_valid_share env now token s))

  resolved-CanOpen : (resolved.1 ≡ ok (sh, u)) ↔ CanOpen env now p token password s sh u
  resolved-CanOpen =
      let looked = lookup_valid_share env now token s in
      let typed = of_type p looked in
      let (answer, same) = lookup_valid_share-live env now token s unique in
      (
        λ h.
            let (t, pass) = (resolve_with_password-eq_ok env password typed sh u).0 h in
            let (l, kind) = (of_type-eq_ok p looked sh u).0 t in
            let (row, owner) =
              (found_live-eq_ok env (in_force now token s) sh u).0 (sym answer ∙ l) in
            record {
              row = row;
              kind = kind;
              owner = owner;
              password_right = passes-RightPassword env sh password pass;
            },
        λ c. (resolve_with_password-eq_ok env password typed sh u).1 (
          (of_type-eq_ok p looked sh u).1 (
            answer ∙ (found_live-eq_ok env (in_force now token s) sh u).1 (c.row, c.owner),
            c.kind,
          ),
          RightPassword-passes env sh password c.password_right,
        ),
      )

-- On a table with unique ids and tokens: ResolvePublic answers a share exactly when it is in force
-- under the token, a public link, its owner is there, and it has no password or the given one; and
-- whatever it answers, the shares in force are as they were.
pub resolve_public-CanOpen :
    (env : Services) (now : ℕ) (token password : Bytes) (s : State) (sh : Share) (u : User)
    → Unique s.table.rows
    → (((resolve_public env now token password s).1 ≡ ok (sh, u))
        ↔ CanOpen env now is_link token password s sh u)
      × (live now (resolve_public env now token password s).0 ≡ live now s)
unfolding resolve_public lookup_valid
resolve_public-CanOpen env now token password s sh u unique = (
  resolved-CanOpen env now is_link token password s sh u unique,
  opened_state env now is_link password (lookup_valid_share env now token s)
      ∙ (lookup_valid_share-live env now token s unique).1,
)

-- On a table with unique ids and tokens: ResolvePublicDAV answers a share exactly when it is in
-- force under the token, a public link or a federated share, its owner is there, and it has no
-- password or the given one; and whatever it answers, the shares in force are as they were.
pub resolve_public_dav-CanOpen :
    (env : Services) (now : ℕ) (token password : Bytes) (s : State) (sh : Share) (u : User)
    → Unique s.table.rows
    → (((resolve_public_dav env now token password s).1 ≡ ok (sh, u))
        ↔ CanOpen env now is_link_or_remote token password s sh u)
      × (live now (resolve_public_dav env now token password s).0 ≡ live now s)
unfolding resolve_public_dav lookup_valid_public_dav
resolve_public_dav-CanOpen env now token password s sh u unique = (
  resolved-CanOpen env now is_link_or_remote token password s sh u unique,
  opened_state env now is_link_or_remote password (lookup_valid_share env now token s)
      ∙ (lookup_valid_share-live env now token s unique).1,
)
