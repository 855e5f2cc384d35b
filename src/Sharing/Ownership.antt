-- ===== src/Sharing/Ownership.antt =====
-- What an owner can do to a share and nobody else can.
use nextcloud_go.Prelude.{
  ℕ, Bool, true, false, none, some, List, [], ◌∷◌, Bytes, ◌≡◌, refl, ap, subst, ◌∙◌, ◌==◌, ◌=?◌,
  bytes_equality, bytes_eq_iff, beq_refl, arith, Bool-cases, inl, inr,
}
use nextcloud_go.Errors.{ok, err}
use nextcloud_go.Sharing.Store.{
  ShareError, Share, first_row, get_by_id, get_by_token, update_row, with_settings, update,
}
use nextcloud_go.Sharing.Store.Rows.{
  Apart, Unique, has_id, has_token, All-first_row, first_row-passes,
}
use nextcloud_go.Sharing.Service.{
  User, PasswordHasher, Services, State, expired, expire_if_needed, owner_of, hash_password,
}
use nextcloud_go.Sharing.Access.{owned, get_for_owner, Changes, changed, update_share, delete_share}
use nextcloud_go.Sharing.Public.{
  is_link_or_remote, lookup_valid_share, lookup_valid_public_dav, passes, resolve_public_dav,
}
use nextcloud_go.Sharing.Live.{live, live-expire_if_needed, Agree-first_row}

owned_foreign :
    (uid : ℕ) (sh : Share) (o : State × Bool)
    → (sh.owner_user_id == uid) ≡ false
    → owned uid sh o ≡ (o.0, err ShareError.not_found)
owned_foreign uid sh (s, true) h = refl
owned_foreign uid sh (s, false) h = rw h refl

module _ (env : Services) (now : ℕ) (uid : Bytes) (u : User) (id : ℕ) (s : State) (sh : Share)
    (user : owner_of env uid ≡ ok u) (real : (id == 0) ≡ false)
    (row : first_row (has_id id) s.table.rows ≡ some sh) where
  get_for_owner_foreign :
      (sh.owner_user_id == u.id) ≡ false
      → get_for_owner env now uid id s
        ≡ ((expire_if_needed env now sh s).0, err ShareError.not_found)
  unfolding get_for_owner get_by_id
  get_for_owner_foreign h =
      rw (user, real, row) (owned_foreign u.id sh (expire_if_needed env now sh s) h)

  get_for_owner_own :
      (sh.owner_user_id == u.id) ≡ true
      → expired now sh.expire_ms ≡ false
      → get_for_owner env now uid id s ≡ (s, ok sh)
  unfolding get_for_owner get_by_id expire_if_needed
  get_for_owner_own h alive = rw (user, real, row, alive, h) refl

-- A share of somebody else, on a table with unique ids and tokens: Update and Delete answer
-- ErrNotFound, whatever is to be changed, and the shares in force are as they were.
pub foreign_share_kept :
    (env : Services) (now : ℕ) (uid : Bytes) (u : User) (id : ℕ) (c : Changes) (s : State)
    (sh : Share)
    → owner_of env uid ≡ ok u
    → (id == 0) ≡ false
    → Unique s.table.rows
    → first_row (has_id id) s.table.rows ≡ some sh
    → (sh.owner_user_id == u.id) ≡ false
    → ((update_share env now uid id c s).1 ≡ err ShareError.not_found)
      × ((delete_share env now uid id s).1 ≡ err ShareError.not_found)
      × (live now (update_share env now uid id c s).0 ≡ live now s)
      × (live now (delete_share env now uid id s).0 ≡ live now s)
unfolding update_share delete_share
foreign_share_kept env now uid u id c s sh user real unique row foreign =
    let seen = get_for_owner_foreign env now uid u id s sh user real row foreign in
    let same =
      live-expire_if_needed env now sh s
        (Agree-first_row now (has_id id) s.table.rows sh unique row) in
    rw seen (refl, refl, same, same)

-- A row is found by its token as well.
first_row-token :
    (p : Share → Bool) (rows : List Share) (sh : Share)
    → Unique rows
    → first_row p rows ≡ some sh
    → first_row (has_token sh.token) rows ≡ some sh
unfolding first_row
first_row-token p [] sh u h = absurd (cc)
first_row-token p (r ∷ rows) sh u h = elim (Bool-cases (p r)) [
  | inl e ↦
      let same : r ≡ sh = ground arith in
      subst (λ x. first_row (has_token x.token) (r ∷ rows) ≡ some x) same
        (rw (beq_refl r.token) refl)
  | inr e ↦
      let found : first_row p rows ≡ some sh = ground arith in
      let apart = All-first_row (Apart r) p rows sh u.0 found in
      let other : (r.token =? sh.token) ≡ false =
        ground (arith, apart.1, bytes_eq_iff r.token sh.token, bytes_eq_iff sh.token r.token) in
      rw other (first_row-token p rows sh u.1 found)
]

first_row-update_row :
    (r : Share) (id : ℕ) (token : Bytes) (rows : List Share) (sh : Share)
    → first_row (has_token token) rows ≡ some sh
    → (sh.id == id) ≡ true
    → first_row (has_token token) (update_row (with_settings r) id rows) ≡ some (with_settings r sh)
unfolding first_row update_row
first_row-update_row r id token [] sh h e = cc
first_row-update_row r id token (m ∷ rows) sh h e = elim (Bool-cases (m.token =? token)) [
  | inl t ↦
      let same : m ≡ sh = ground arith in
      let hit : (m.id == id) ≡ true = ap (λ x. x.id == id) same ∙ e in
      rw (hit, t) (ap (λ x. some (with_settings r x)) same)
  | inr t ↦
      let rest : first_row (has_token token) rows ≡ some sh = ground arith in
      elim (Bool-cases (m.id == id)) [
        | inl b ↦ rw (b, t) (first_row-update_row r id token rows sh rest e)
        | inr b ↦ rw (b, t) (first_row-update_row r id token rows sh rest e)
      ]
]

abbrev pub only_password : Bytes → Changes
only_password password = record {
  permissions = none;
  password = some password;
  expire_date = none;
  label = none;
}

-- The resolver at a row in force that has a password
module _ (env : Services) (now : ℕ) (s : State) (sh : Share) (u : User) (token attempt : Bytes)
    (h : PasswordHasher) (hasher : env.hasher ≡ some h) where
  resolve_public_dav_refused :
      (token =? []) ≡ false
      → first_row (has_token token) s.table.rows ≡ some sh
      → expired now sh.expire_ms ≡ false
      → is_link_or_remote sh.share_type ≡ true
      → env.user_by_id sh.owner_user_id ≡ ok u
      → (sh.password_hash =? []) ≡ false
      → h.verify sh.password_hash attempt ≡ some false
      → resolve_public_dav env now token attempt s ≡ (s, err ShareError.unauthorized)
  unfolding resolve_public_dav lookup_valid_public_dav lookup_valid_share get_by_token
      expire_if_needed passes
  resolve_public_dav_refused named row alive kind owner locked wrong =
      rw (named, row, alive, owner, kind, locked, hasher, wrong) refl

update_share_password :
    (env : Services) (now : ℕ) (uid password hash : Bytes) (id : ℕ) (s : State) (sh : Share)
    (h : PasswordHasher)
    → get_for_owner env now uid id s ≡ (s, ok sh)
    → (sh.id == 0) ≡ false
    → env.hasher ≡ some h
    → (password =? []) ≡ false
    → h.hash password ≡ some hash
    → (update_share env now uid id (only_password password) s).0 ≡ record s {
      table = record s.table {
        rows = update_row (with_settings (record sh { password_hash = hash })) sh.id s.table.rows;
      };
    }
unfolding update_share changed hash_password update
update_share_password env now uid password hash id s sh h seen real hasher given hashed =
    rw seen (rw (given, hasher, hashed, real) refl)

-- A share in force that opens for remote servers or by its link, of a user who gives it a new
-- password: behind the Update, an attempt that the hasher does not verify against the new hash is
-- refused. This is so of a federated share as well, whose server sends the empty password.
pub resolve_public_dav-update_share :
    (env : Services) (now later : ℕ) (uid password attempt hash : Bytes) (u : User) (id : ℕ)
    (s : State) (sh : Share) (h : PasswordHasher)
    → Unique s.table.rows
    → owner_of env uid ≡ ok u
    → env.user_by_id sh.owner_user_id ≡ ok u
    → (id == 0) ≡ false
    → first_row (has_id id) s.table.rows ≡ some sh
    → (sh.token =? []) ≡ false
    → (sh.owner_user_id == u.id) ≡ true
    → expired now sh.expire_ms ≡ false
    → expired later sh.expire_ms ≡ false
    → is_link_or_remote sh.share_type ≡ true
    → env.hasher ≡ some h
    → (password =? []) ≡ false
    → h.hash password ≡ some hash
    → (hash =? []) ≡ false
    → h.verify hash attempt ≡ some false
    → (resolve_public_dav env later sh.token attempt
        (update_share env now uid id (only_password password) s).0).1
      ≡ err ShareError.unauthorized
resolve_public_dav-update_share env now later uid password attempt hash u id s sh h unique user
      owner real row named own alive still kind hasher given hashed locked wrong =
    let r : Share = record sh { password_hash = hash } in
    let same_id = first_row-passes (has_id id) s.table.rows sh row in
    let seen = get_for_owner_own env now uid u id s sh user real row own alive in
    let changed_state =
      update_share_password env now uid password hash id s sh h seen (ground arith) hasher given
        hashed in
    let stored =
      first_row-update_row r sh.id sh.token s.table.rows sh
        (first_row-token (has_id id) s.table.rows sh unique row) (ground arith) in
    ap (λ x. (resolve_public_dav env later sh.token attempt x).1) changed_state
    ∙ ap (λ x. x.1)
        (resolve_public_dav_refused env later
          (record s {
            table = record s.table { rows = update_row (with_settings r) sh.id s.table.rows };
          })
          r u sh.token attempt h hasher named stored still kind owner locked wrong)
