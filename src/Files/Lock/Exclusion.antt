-- ===== src/Files/Lock/Exclusion.antt =====
-- Who gets a lock, who does not, and what a granted lock leaves on the table.
use nextcloud_go.Prelude.{
  ℕ, ◌+◌, true, false, ◌&&◌, ◌||◌, Option, none, some, [], ◌∷◌, Bytes, ◌≡◌, refl, ◌==◌, ◌=?◌,
  bytes_equality, bytes_eq_iff, any, arith, Bool-cases, Option-cases, inl, inr, sym, ◌∙◌,
}
use nextcloud_go.Errors.{Error, FileError, Result, ok, err}
use nextcloud_go.Webdav.LockToken.{lock_header_has_token}
use nextcloud_go.Files.Path.{normalize_path}
use nextcloud_go.Files.LockStore.{
  FileLock, LockTable, at_key, clash, select, insert, add, set_timeout, update_timeout, delete,
}
use nextcloud_go.Files.LockStore.Unique.{IsTable}
use nextcloud_go.Files.LockStore.Lookup.{
  filter_row, select-key, select-set_timeout, same_id, get_by_path-select, touch,
}
use nextcloud_go.Files.Lock.{
  LockRequest, LockInfo, milli, lock_timeout, expire_lock, held, new_row, fresh, inserted, lock_at,
}
use nextcloud_go.Files.Lock.View.{in_force, live, SameLive, live_given, SameLive-delete}

-- A user's id and a canonical path, as Lock has them when it looks at the table.
abbrev pub IsTarget : ℕ → Bytes → Type 0
IsTarget uid np = ((uid == 0) ≡ false) × (normalize_path np ≡ some np)

module _ (now : ℕ) (new_token : Result Error Bytes) (uid : ℕ) (np : Bytes) (req : LockRequest)
    (t : LockTable) (target : IsTarget uid np) where
  pub lock_at-none :
      select uid np t.rows ≡ none
      → lock_at now new_token uid np req t ≡ fresh now new_token uid np req t
  unfolding lock_at
  lock_at-none e = rw (get_by_path-select t uid np target.1 target.0, e) refl

  pub lock_at_live :
      (l : FileLock)
      → select uid np t.rows ≡ some l
      → in_force now l ≡ true
      → lock_at now new_token uid np req t ≡ held now req l t
  unfolding lock_at expire_lock
  lock_at_live l e f = rw (get_by_path-select t uid np target.1 target.0, e) (rw f refl)

  pub lock_at_expired :
      (l : FileLock)
      → select uid np t.rows ≡ some l
      → in_force now l ≡ false
      → lock_at now new_token uid np req t ≡ fresh now new_token uid np req (delete t l.id)
  unfolding lock_at expire_lock
  lock_at_expired l e f = rw (get_by_path-select t uid np target.1 target.0, e) (rw f refl)

-- On a canonical path of a stored user, while a lock is in force there whose token the request's
-- header does not have: Lock answers ErrLocked and the table stays as it is.
pub lock_at_excluded :
    (now : ℕ) (new_token : Result Error Bytes) (uid : ℕ) (np : Bytes) (req : LockRequest)
    (t : LockTable) (l : FileLock)
    → IsTarget uid np
    → live now t uid np ≡ some l
    → lock_header_has_token req.token l.token ≡ false
    → lock_at now new_token uid np req t ≡ (t, err Error.locked)
unfolding live held
lock_at_excluded now new_token uid np req t l target e lacks =
    elim (Option-cases (select uid np t.rows)) [
      | inl n ↦ absurd (ground (arith, n))
      | inr (m, s) ↦ elim (Bool-cases (in_force now m)) [
        | inl f ↦
            let same : m ≡ l = ground (arith, s) in
            lock_at_live now new_token uid np req t target m s f ∙ rw (same, lacks) refl
        | inr f ↦ absurd (ground (arith, s))
      ]
    ]

-- What a granted lock leaves.
pub record Granted (now : ℕ) (uid : ℕ) (np : Bytes) (req : LockRequest) (t t' : LockTable)
    (info : LockInfo) : Type 0 where
  pub row : FileLock
  pub stored : select uid np t'.rows ≡ some row
  pub token : row.token ≡ info.token
  pub expiry : row.timeout_ms ≡ milli (now + lock_timeout req.timeout)
  pub others :
      (u : ℕ) (p : Bytes) → (uid == u && np =? p) ≡ false → live now t' u p ≡ live now t u p

add_ok :
    (t t' : LockTable) (l r : FileLock)
    → add t l ≡ (t', ok r)
    → (r ≡ record l { id = t.next_id }) × (t'.rows ≡ r ∷ t.rows)
unfolding add
add_ok t t' l r h = elim (Bool-cases (any (clash l.user_id l.path l.token) t.rows)) [
  | inl e ↦ absurd (ground (arith, h))
  | inr e ↦ (ground arith, ground arith)
]

pub insert_ok :
    (t t' : LockTable) (l r : FileLock)
    → normalize_path l.path ≡ some l.path
    → insert t l ≡ (t', ok r)
    → (r ≡ record l { id = t.next_id }) × (t'.rows ≡ r ∷ t.rows)
unfolding insert
insert_ok t t' l r n h = elim (Bool-cases (l.user_id == 0 || l.token =? [])) [
  | inl e ↦ absurd (ground arith)
  | inr e ↦ add_ok t t' l r (rw (e, n) at h)
]

inserted_ok :
    (now : ℕ) (req : LockRequest) (r : LockTable × Result FileError FileLock) (t' : LockTable)
    (info : LockInfo)
    → inserted now req r ≡ (t', ok info)
    → (row : FileLock) × (r ≡ (t', ok row)) × (row.token ≡ info.token)
inserted_ok now req (t, err FileError.exists) t' info h = absurd (ground arith)
inserted_ok now req (t, err e) t' info h = absurd (ground arith)
inserted_ok now req (t, ok row) t' info h = (row, ground arith, ground arith)

others_new :
    (now u uid : ℕ) (np p : Bytes) (r : FileLock) (t t' : LockTable)
    → r.user_id ≡ uid
    → r.path ≡ np
    → t'.rows ≡ r ∷ t.rows
    → (uid == u && np =? p) ≡ false
    → live now t' u p ≡ live now t u p
unfolding live select
others_new now u uid np p r t t' a b e ne = rw e (ground arith)

pub select_head :
    (uid : ℕ) (np : Bytes) (r : FileLock) (t t' : LockTable)
    → r.user_id ≡ uid
    → r.path ≡ np
    → t'.rows ≡ r ∷ t.rows
    → select uid np t'.rows ≡ some r
unfolding select
select_head uid np r t t' a b e = rw e (ground (arith, bytes_eq_iff r.path np))

Granted-of_new :
    (now : ℕ) (uid : ℕ) (np : Bytes) (req : LockRequest) (token : Bytes) (t t' : LockTable)
    (info : LockInfo) (row : FileLock)
    → row.token ≡ info.token
    → row ≡ record (new_row now uid np req token) { id = t.next_id }
    → t'.rows ≡ row ∷ t.rows
    → Granted now uid np req t t' info
Granted-of_new now uid np req token t t' info row same built rows = record {
  row = row;
  stored = select_head uid np row t t' (ground arith) (ground arith) rows;
  token = same;
  expiry = ground arith;
  others = λ u p ne. others_new now u uid np p row t t' (ground arith) (ground arith) rows ne;
}

fresh-Granted :
    (now : ℕ) (new_token : Result Error Bytes) (uid : ℕ) (np : Bytes) (req : LockRequest)
    (t t' : LockTable) (info : LockInfo)
    → IsTarget uid np
    → fresh now new_token uid np req t ≡ (t', ok info)
    → Granted now uid np req t t' info
unfolding fresh
fresh-Granted now (err e) uid np req t t' info target h = absurd (ground arith)
fresh-Granted now (ok token) uid np req t t' info target h = elim (Bool-cases req.refresh) [
  | inl e ↦ absurd (ground arith)
  | inr e ↦
      let (row, q, same) =
        inserted_ok now req (insert t (new_row now uid np req token)) t' info (rw e at h) in
      let (built, rows) = insert_ok t t' (new_row now uid np req token) row target.1 q in
      Granted-of_new now uid np req token t t' info row same built rows
]

-- Refreshing: the row keeps its key and token, and all other rows are as before.
pub others_refreshed :
    (now ms u uid : ℕ) (np p : Bytes) (l : FileLock) (t t' : LockTable)
    → IsTable t
    → select uid np t.rows ≡ some l
    → t'.rows ≡ set_timeout l.id ms t.rows
    → (uid == u && np =? p) ≡ false
    → live now t' u p ≡ live now t u p
unfolding live
others_refreshed now ms u uid np p l t t' h s e ne =
    rw (e, select-set_timeout l.id ms u p t.rows)
      (go (select u p t.rows) (λ m em same. same_id u uid p np t.rows m l h.unique em s same)
        (λ m em. select-key u p t.rows m em))
  where
    go :
        (o : Option FileLock)
        → ((m : FileLock) → o ≡ some m → m.id ≡ l.id → m ≡ l)
        → ((m : FileLock) → o ≡ some m → at_key u p m ≡ true)
        → filter_row (in_force now) (touch l.id ms o) ≡ filter_row (in_force now) o
    go none x k = refl
    go (some m) x k = elim (Bool-cases (m.id == l.id)) [
      | inl same ↦
          let q = x m refl (ground arith) in
          let km = k m refl in
          let kl = select-key uid np t.rows l s in
          absurd (ground (arith, bytes_eq_iff l.path np, bytes_eq_iff m.path p, bytes_eq_iff np p))
      | inr other ↦ rw other
    ]

held-Granted :
    (now : ℕ) (uid : ℕ) (np : Bytes) (req : LockRequest) (l : FileLock) (t t' : LockTable)
    (info : LockInfo)
    → IsTable t
    → select uid np t.rows ≡ some l
    → held now req l t ≡ (t', ok info)
    → Granted now uid np req t t' info
unfolding held update_timeout
held-Granted now uid np req l t t' info h s q =
    elim (Bool-cases (lock_header_has_token req.token l.token)) [
      | inl e ↦
          let id = live_given t uid np l h s in
          let rows : t'.rows ≡ set_timeout l.id (milli (now + lock_timeout req.timeout)) t.rows =
            ground arith in
          record {
            row = record l { timeout_ms = milli (now + lock_timeout req.timeout) };
            stored =
                rw
                  (
                    rows,
                    select-set_timeout l.id (milli (now + lock_timeout req.timeout)) uid np t.rows,
                    s,
                  )
                  (ground arith);
            token = ground arith;
            expiry = refl;
            others = λ u p ne.
                others_refreshed now (milli (now + lock_timeout req.timeout)) u uid np p l t t' h s
                  rows ne;
          }
      | inr e ↦ absurd (ground arith)
    ]

-- The purge before it does not show.
Granted-after :
    (now : ℕ) (uid : ℕ) (np : Bytes) (req : LockRequest) (t t1 t' : LockTable) (info : LockInfo)
    → SameLive now t t1
    → Granted now uid np req t1 t' info
    → Granted now uid np req t t' info
Granted-after now uid np req t t1 t' info same g = record {
  row = g.row;
  stored = g.stored;
  token = g.token;
  expiry = g.expiry;
  others = λ u p ne. g.others u p ne ∙ same u p;
}

-- On a table that meets its constraints and a canonical path of a stored user: a lock that is
-- granted, new or refreshed, stands on its path with the token that the answer names and the time
-- asked for, and every other path has the lock in force that it had.
pub lock_at-Granted :
    (now : ℕ) (new_token : Result Error Bytes) (uid : ℕ) (np : Bytes) (req : LockRequest)
    (t t' : LockTable) (info : LockInfo)
    → IsTable t
    → IsTarget uid np
    → lock_at now new_token uid np req t ≡ (t', ok info)
    → Granted now uid np req t t' info
lock_at-Granted now new_token uid np req t t' info h target q =
    elim (Option-cases (select uid np t.rows)) [
      | inl n ↦
          fresh-Granted now new_token uid np req t t' info target
            (sym (lock_at-none now new_token uid np req t target n) ∙ q)
      | inr (l, s) ↦ elim (Bool-cases (in_force now l)) [
        | inl f ↦
            held-Granted now uid np req l t t' info h s
              (sym (lock_at_live now new_token uid np req t target l s f) ∙ q)
        | inr f ↦
            Granted-after now uid np req t (delete t l.id) t' info
              (SameLive-delete now t uid np l h s f)
              (fresh-Granted now new_token uid np req (delete t l.id) t' info target
                (sym (lock_at_expired now new_token uid np req t target l s f) ∙ q))
      ]
    ]
