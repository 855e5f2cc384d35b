-- ===== src/Sharing/Store/Valid.antt =====
-- The invariant of the table shares, and that the statements keep it.
use nextcloud_go.Prelude.{
  ℕ, suc, ◌<◌, Bool, true, false, not, ◌||◌, List, [], ◌∷◌, ◌++◌, Bytes, ◌≡◌, refl, sym, subst,
  ◌==◌, ◌=?◌, bytes_equality, bytes_eq_iff, if◌then◌else◌, keep, any, All, All-keep, All-append,
  arith, Bool-cases, Option-cases, inl, inr,
}
use nextcloud_go.Errors.{Result, ok, err}
use nextcloud_go.Files.Path.{normalize_path}
use nextcloud_go.Sharing.Store.{
  ShareError, Share, ShareTable, read_back, add_row, insert, update_row, with_settings, update,
  delete, delete_expired, reaped,
}
use nextcloud_go.Sharing.Store.Rows.{Apart, Unique, Unique-keep, All-map}
use nextcloud_go.Sharing.Service.{valid_share_perms}

-- What is true of each row
pub record IsShare (next : ℕ) (r : Share) : Type 0 where
  pub id_given : 0 < r.id
  pub id_old : r.id < next
  pub has_owner : (r.owner_user_id == 0) ≡ false
  pub has_token : (r.token =? []) ≡ false
  pub permissions_valid : valid_share_perms r.item_type r.permissions ≡ true

pub record IsTable (t : ShareTable) : Type 0 where
  pub next_given : 0 < t.next_id
  pub shares : All (IsShare t.next_id) t.rows
  pub unique : Unique t.rows

IsTable-keep :
    (p : Share → Bool) (t : ShareTable) → IsTable t → IsTable (record t { rows = keep p t.rows })
IsTable-keep p t h = record {
  next_given = h.next_given;
  shares = All-keep (IsShare t.next_id) p t.rows h.shares;
  unique = Unique-keep p t.rows h.unique;
}

pub IsTable-delete : (t : ShareTable) (id : ℕ) → IsTable t → IsTable (delete t id)
unfolding delete
IsTable-delete t id h = elim (Bool-cases (id == 0)) [
  | inl e ↦ rw e h
  | inr e ↦ rw e (IsTable-keep (λ r. not (r.id == id)) t h)
]

pub IsTable-delete_expired :
    (t : ShareTable) (now : ℕ) → IsTable t → IsTable (delete_expired t now).0
unfolding delete_expired
IsTable-delete_expired t now h = IsTable-keep (λ r. not (reaped now r.expire_ms)) t h

Unique-append :
    (rows : List Share) (new : Share)
    → Unique rows
    → All (λ r. Apart r new) rows
    → Unique (rows ++ (new ∷ []))
Unique-append [] new u a = (tt, tt)
Unique-append (r ∷ rows) new u a =
    (All-append (Apart r) rows (new ∷ []) u.0 (a.0, tt), Unique-append rows new u.1 a.1)

Apart-new :
    (next : ℕ) (rows : List Share) (new : Share)
    → (new.id == next) ≡ true
    → All (IsShare next) rows
    → any (λ r. r.token =? new.token) rows ≡ false
    → All (λ r. Apart r new) rows
unfolding any
Apart-new next [] new e h f = tt
Apart-new next (r ∷ rows) new e h f = (
  (
    ground (arith, h.0.id_old),
    ground (arith, bytes_eq_iff new.token r.token, bytes_eq_iff r.token new.token),
  ),
  Apart-new next rows new e h.1 (ground arith),
)

later-IsShare : (n : ℕ) (r : Share) → IsShare n r → IsShare (suc n) r
later-IsShare n r h = record {
  id_given = h.id_given;
  id_old = omega (arith, h.id_old);
  has_owner = h.has_owner;
  has_token = h.has_token;
  permissions_valid = h.permissions_valid;
}

add_row-IsTable :
    (t : ShareTable) (sh : Share)
    → (sh.owner_user_id == 0) ≡ false
    → (sh.token =? []) ≡ false
    → valid_share_perms sh.item_type sh.permissions ≡ true
    → IsTable t
    → IsTable (add_row t sh).0
unfolding add_row
add_row-IsTable t sh owner token perms h =
    elim (Bool-cases (any (λ r. r.token =? sh.token) t.rows)) [
      | inl e ↦ rw e h
      | inr e ↦
          let new : Share = record sh { id = t.next_id } in
          let real : IsShare (suc t.next_id) new = record {
            id_given = h.next_given;
            id_old = omega arith;
            has_owner = owner;
            has_token = token;
            permissions_valid = perms;
          } in
          rw e (record {
            next_given = omega arith;
            shares =
                All-append (IsShare (suc t.next_id)) t.rows (new ∷ [])
                  (All-map t.rows (later-IsShare t.next_id) h.shares) (real, tt);
            unique =
                Unique-append t.rows new h.unique
                  (Apart-new t.next_id t.rows new (ground arith) h.shares e);
          })
    ]

table-read_back :
    (token : Bytes) (o : ShareTable × Result ShareError (Unit {0})) → (read_back token o).0 ≡ o.0
table-read_back token (t, err e) = refl
table-read_back token (t, ok u) = refl

-- Insert of a row with valid permissions
pub insert-IsTable :
    (t : ShareTable) (sh : Share)
    → valid_share_perms sh.item_type sh.permissions ≡ true
    → IsTable t
    → IsTable (insert t sh).0
unfolding insert
insert-IsTable t sh perms h = elim (Bool-cases (sh.owner_user_id == 0 || sh.token =? [])) [
  | inl e ↦ rw e h
  | inr e ↦ elim (Option-cases (normalize_path sh.path)) [
    | inl n ↦ rw (e, n) h
    | inr (np, n) ↦
        let row : Share = record sh {
          path = np;
          accepted = if sh.accepted == 0 then 1 else sh.accepted;
        } in
        rw (e, n)
          (subst IsTable (sym (table-read_back sh.token (add_row t row)))
            (add_row-IsTable t row (ground arith) (ground arith) perms h))
  ]
]

All-Apart-update_row :
    (sh : Share) (id : ℕ) (l : Share) (rows : List Share)
    → All (Apart l) rows
    → All (Apart l) (update_row (with_settings sh) id rows)
unfolding update_row
All-Apart-update_row sh id l [] h = tt
All-Apart-update_row sh id l (m ∷ rows) h =
    ((ground arith, ground arith), All-Apart-update_row sh id l rows h.1)

Unique-update_row :
    (sh : Share) (id : ℕ) (rows : List Share)
    → Unique rows
    → Unique (update_row (with_settings sh) id rows)
unfolding update_row
Unique-update_row sh id [] u = tt
Unique-update_row sh id (l ∷ rows) u =
    (first (l.id == id) (All-Apart-update_row sh id l rows u.0), Unique-update_row sh id rows u.1)
  where
    first :
        (b : Bool)
        → All (Apart l) (update_row (with_settings sh) id rows)
        → All (Apart (if b then with_settings sh l else l)) (update_row (with_settings sh) id rows)
    first true a = a
    first false a = a

All-IsShare-update_row :
    (next : ℕ) (sh : Share) (rows : List Share)
    → valid_share_perms sh.item_type sh.permissions ≡ true
    → All (λ r. (r.id == sh.id) ≡ true → r.item_type ≡ sh.item_type) rows
    → All (IsShare next) rows
    → All (IsShare next) (update_row (with_settings sh) sh.id rows)
unfolding update_row
All-IsShare-update_row next sh [] p same h = tt
All-IsShare-update_row next sh (r ∷ rows) p same h =
    (first (r.id == sh.id) refl, All-IsShare-update_row next sh rows p same.1 h.1)
  where
    first : (b : Bool) → (r.id == sh.id) ≡ b → IsShare next (if b then with_settings sh r else r)
    first false e = h.0
    first true e = record {
      id_given = h.0.id_given;
      id_old = h.0.id_old;
      has_owner = h.0.has_owner;
      has_token = h.0.has_token;
      permissions_valid = subst (λ k. valid_share_perms k sh.permissions ≡ true) (sym (same.0 e)) p;
    }

-- Update with valid permissions of a share that has its row's type
pub update-IsTable :
    (t : ShareTable) (sh : Share)
    → valid_share_perms sh.item_type sh.permissions ≡ true
    → All (λ r. (r.id == sh.id) ≡ true → r.item_type ≡ sh.item_type) t.rows
    → IsTable t
    → IsTable (update t sh).0
unfolding update
update-IsTable t sh p same h = elim (Bool-cases (sh.id == 0)) [
  | inl e ↦ rw e h
  | inr e ↦ rw e (record {
    next_given = h.next_given;
    shares = All-IsShare-update_row t.next_id sh t.rows p same h.shares;
    unique = Unique-update_row sh sh.id t.rows h.unique;
  })
]
