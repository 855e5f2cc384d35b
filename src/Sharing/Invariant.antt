-- ===== src/Sharing/Invariant.antt =====
-- Create and GetForOwner keep the invariant of the table shares, and what they answer.
pub mod Steps
use nextcloud_go.Prelude.{
  ℕ, ℤ, Bool, true, false, not, Option, none, some, List, [], ◌∷◌, Bytes, text, ◌≡◌, ◌||◌, refl,
  sym, ap, subst, ◌∙◌, ◌==◌, ◌=?◌, bytes_equality, if◌then◌else◌, All, arith, Bool-cases,
  Option-cases, inl, inr,
}
use nextcloud_go.Errors.{Error, Result, ok, err, ◌>>=◌, >>=-eq_ok, Result-cases}
use nextcloud_go.Files.Path.{normalize_path}
use nextcloud_go.Sharing.ExpireDate.{parse_expire_date}
use nextcloud_go.Sharing.Store.{
  ShareError, Share, ShareTable, first_row, get_by_id, insert, update, delete, share_type_user,
  share_type_group, share_type_remote,
}
use nextcloud_go.Sharing.Store.Rows.{All-map, Unique, has_id, only-first_row, All-first_row}
use nextcloud_go.Sharing.Store.Valid.{
  IsShare, IsTable, IsTable-delete, IsTable-delete_expired, insert-IsTable, update-IsTable,
}
use nextcloud_go.Sharing.Service.{
  User, Services, Call, State, CreateRequest, Prepared, log_if, forget, expired, expire_if_needed,
  owner_of, valid_share_perms, guard, or_error, stat_error, known_type, good_sharee, hash_password,
  seal_with, item_type_of, or_read, new_share, prepare, notify_remote, announce, announced,
  inserted, create,
}
use nextcloud_go.Sharing.Access.{owned, seen_by, get_for_owner}
use nextcloud_go.Sharing.Live.Lists.{All-expire_if_needed}
use nextcloud_go.Sharing.Live.{table-forget, table-log_if}

guard-ok {ℓ} :
    {A : Type ℓ} (b : Bool) (e : ShareError) (k : Unit {0} → Result ShareError A) (a : A)
    → (guard b e >>= k) ≡ ok a
    → (b ≡ true) × (k tt ≡ ok a)
guard-ok true e k a h = (refl, h)
guard-ok false e k a h = cc

pub or_error-ok {ℓ} :
    {A : Type ℓ} (e : ShareError) (o : Option A) (a : A) → or_error e o ≡ ok a → o ≡ some a
or_error-ok e none a h = cc
or_error-ok e (some b) a h = ground arith

-- What a prepared row has of the request: the checks that Create made.
pub record Checked (env : Services) (now : ℕ) (new_token : Result ShareError Bytes)
    (req : CreateRequest) (p : Prepared) : Type 0 where
  pub dir : Bool
  pub tok : Bytes
  pub hash : Bytes
  pub expire : ℤ
  pub sealed : Bytes × Bytes × Bytes
  pub type_known : known_type req.share_type ≡ true
  pub owner_there : owner_of env req.uid ≡ ok p.owner
  pub sharee_good : good_sharee env req ≡ true
  pub path_normal : normalize_path req.path ≡ some p.plain_path
  pub item_there : stat_error (env.stat req.uid p.plain_path) ≡ ok dir
  pub permissions_valid : valid_share_perms (item_type_of dir) (or_read req.permissions) ≡ true
  pub token_new : new_token ≡ ok tok
  pub hashed : hash_password env req.password ≡ ok hash
  pub date : parse_expire_date req.expire_date ≡ some expire
  pub sealed_path : seal_with p.owner.id p.plain_path env.name_codec ≡ ok sealed
  pub row : p.row ≡ new_share now req p.owner dir tok hash expire sealed

pub prepare-Checked :
    (env : Services) (now : ℕ) (new_token : Result ShareError Bytes) (req : CreateRequest)
    (p : Prepared)
    → prepare env now new_token req ≡ ok p
    → Checked env now new_token req p
unfolding prepare
prepare-Checked env now new_token req p h =
    let (known, h1) = guard-ok (known_type req.share_type) ShareError.bad_share_type _ p h in
    let (u, owner, h2) = >>=-eq_ok (owner_of env req.uid) _ p h1 in
    let (good, h3) = guard-ok (good_sharee env req) ShareError.bad_share_with _ p h2 in
    let (np, normal, h4) =
      >>=-eq_ok (or_error ShareError.invalid_path (normalize_path req.path)) _ p h3 in
    let (dir, there, h5) = >>=-eq_ok (stat_error (env.stat req.uid np)) _ p h4 in
    let (perms, h6) =
      guard-ok (valid_share_perms (item_type_of dir) (or_read req.permissions))
        ShareError.bad_permissions _ p h5 in
    let (tok, fresh_token, h7) = >>=-eq_ok new_token _ p h6 in
    let (hash, hashed, h8) = >>=-eq_ok (hash_password env req.password) _ p h7 in
    let (expire, date, h9) =
      >>=-eq_ok (or_error ShareError.bad_expire (parse_expire_date req.expire_date)) _ p h8 in
    let (sealed, meta, h10) = >>=-eq_ok (seal_with u.id np env.name_codec) _ p h9 in
    let row : Share = new_share now req u dir tok hash expire sealed in
    let same : record { owner = u; plain_path = np; row = row } ≡ p = ok_same h10 in
    subst (Checked env now new_token req) same (record {
      dir = dir;
      tok = tok;
      hash = hash;
      expire = expire;
      sealed = sealed;
      type_known = known;
      owner_there = owner;
      sharee_good = good;
      path_normal = or_error-ok ShareError.invalid_path (normalize_path req.path) np normal;
      item_there = there;
      permissions_valid = perms;
      token_new = fresh_token;
      hashed = hashed;
      date = or_error-ok ShareError.bad_expire (parse_expire_date req.expire_date) expire date;
      sealed_path = meta;
      row = refl;
    })
  where
    ok_same : {q r : Prepared} → ◌≡◌ {A = Result ShareError Prepared} (ok q) (ok r) → q ≡ r
    ok_same e = cc

pub IsTable-forget :
    (env : Services) (sh : Share) (s : State) → IsTable s.table → IsTable (forget env sh s).table
IsTable-forget env sh s h =
    subst IsTable (sym (table-forget env sh s)) (IsTable-delete s.table sh.id h)

pub IsTable-expire_if_needed :
    (env : Services) (now : ℕ) (sh : Share) (s : State)
    → IsTable s.table
    → IsTable (expire_if_needed env now sh s).0.table
unfolding expire_if_needed
IsTable-expire_if_needed env now sh s h = elim (Bool-cases (expired now sh.expire_ms)) [
  | inl e ↦ rw e (IsTable-forget env sh s h)
  | inr e ↦ rw e h
]

pub IsTable-log_if :
    (b : Bool) (c : Call) (s : State) → IsTable s.table → IsTable (log_if b c s).table
IsTable-log_if b c s h = subst IsTable (sym (table-log_if b c s)) h

IsTable-announce :
    (env : Services) (origin : Bytes) (p : Prepared) (sh : Share) (s : State)
    → IsTable s.table
    → IsTable (announce env origin p sh s).0.table
unfolding announce
IsTable-announce env origin p sh s h = elim (Bool-cases (sh.share_type == share_type_remote)) [
  | inl e ↦ elim (Bool-cases (notify_remote env origin p sh)) [
    | inl n ↦ rw (e, n) h
    | inr n ↦ rw (e, n) (IsTable-delete s.table sh.id h)
  ]
  | inr e ↦
      elim (Bool-cases (sh.share_type == share_type_user || sh.share_type == share_type_group)) [
        | inl k ↦
            rw (e, k)
              (IsTable-log_if env.has_keys (Call.key_wrapped sh) _
                (IsTable-log_if env.has_notifs (Call.share_created sh) s h))
        | inr k ↦ rw (e, k) h
      ]
]

IsTable-announced :
    (env : Services) (origin : Bytes) (p : Prepared) (s : State)
    (o : ShareTable × Result ShareError Share)
    → IsTable o.0
    → IsTable (announced env origin p s o).0.table
IsTable-announced env origin p s (t, err e) h = h
IsTable-announced env origin p s (t, ok sh) h =
    IsTable-announce env origin p sh (record s { table = t }) h

pub IsTable-create :
    (env : Services) (now : ℕ) (new_token : Result ShareError Bytes) (req : CreateRequest)
    (s : State)
    → IsTable s.table
    → IsTable (create env now new_token req s).0.table
unfolding create
IsTable-create env now new_token req s h = elim (Result-cases (prepare env now new_token req)) [
  | inl (e, n) ↦ rw n h
  | inr (p, n) ↦
      let c = prepare-Checked env now new_token req p n in
      rw n (
        IsTable-announced env req.origin p s (insert s.table p.row) (
          insert-IsTable s.table p.row
            (subst (λ r. valid_share_perms r.item_type r.permissions ≡ true) (sym c.row)
              c.permissions_valid)
            h))
]

-- GetForOwner answers a row of the table: the only one with its id.
abbrev pub Stored : State → Share → Type 0
Stored s sh =
    All (λ r. (r.id == sh.id) ≡ true → r ≡ sh) s.table.rows
    × (valid_share_perms sh.item_type sh.permissions ≡ true)

abbrev pub Seen : State × Result ShareError Share → Type 0
Seen (s, err e) = IsTable s.table
Seen (s, ok sh) = IsTable s.table × Stored s sh

Seen-owned :
    (uid : ℕ) (sh : Share) (o : State × Bool)
    → IsTable o.0.table
    → Stored o.0 sh
    → Seen (owned uid sh o)
Seen-owned uid sh (s, true) h st = h
Seen-owned uid sh (s, false) h st = elim (Bool-cases (sh.owner_user_id == uid)) [
  | inl e ↦ rw e (h, st)
  | inr e ↦ rw e h
]

pub Seen-get_for_owner :
    (env : Services) (now : ℕ) (uid : Bytes) (id : ℕ) (s : State)
    → IsTable s.table
    → Seen (get_for_owner env now uid id s)
unfolding get_for_owner get_by_id
Seen-get_for_owner env now uid id s h = elim (Result-cases (owner_of env uid)) [
  | inl (e, n) ↦ rw n h
  | inr (u, n) ↦ elim (Bool-cases (id == 0)) [
    | inl z ↦ rw (n, z) h
    | inr z ↦ elim (Option-cases (first_row (has_id id) s.table.rows)) [
      | inl f ↦ rw (n, z, f) h
      | inr (sh, f) ↦
          rw (n, z, f)
            (Seen-owned u.id sh (expire_if_needed env now sh s)
              (IsTable-expire_if_needed env now sh s h)
              (
                All-expire_if_needed (λ r. (r.id == sh.id) ≡ true → r ≡ sh) env now sh s
                    (only-first_row (has_id id) s.table.rows sh h.unique f),
                (All-first_row (IsShare s.table.next_id) (has_id id) s.table.rows sh h.shares
                    f).permissions_valid,
              ))
    ]
  ]
]
