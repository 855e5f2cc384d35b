-- ===== src/Files/Lock/View.antt =====
-- The locks in force at a time, and that the purge of expired rows does not show in them.
use nextcloud_go.Prelude.{
  ℕ, Bool, true, false, not, ◌&&◌, Option, none, some, Bytes, ◌≡◌, refl, ltb, ◌==◌, ◌=?◌,
  bytes_equality, bytes_eq_iff, if◌then◌else◌, arith, Bool-cases, inl, inr, ap,
}
use nextcloud_go.Files.LockStore.{FileLock, LockTable, select, delete}
use nextcloud_go.Files.LockStore.Unique.{IsTable, IsGiven, delete-IsTable}
use nextcloud_go.Files.LockStore.Lookup.{filter_row, select-key, All-select, select-keep, same_id}
use nextcloud_go.Files.Lock.{milli, expire_lock}

abbrev pub in_force : ℕ → FileLock → Bool
in_force now l = ltb (milli now) l.timeout_ms

-- The lock in force on a path: the abstract state of the lock table.
unfoldable pub live : ℕ → LockTable → ℕ → Bytes → Option FileLock
live now t uid p = filter_row (in_force now) (select uid p t.rows)

-- Two tables with the same locks in force at a time.
abbrev pub SameLive : ℕ → LockTable → LockTable → Type 0
SameLive now t t' = (u : ℕ) (p : Bytes) → live now t' u p ≡ live now t u p

pub live_given :
    (t : LockTable) (uid : ℕ) (p : Bytes) (l : FileLock)
    → IsTable t
    → select uid p t.rows ≡ some l
    → (l.id == 0) ≡ false
live_given t uid p l h e =
    let g = All-select (IsGiven t.next_id) uid p t.rows l h.given e in ground arith

gone :
    (now u : ℕ) (p : Bytes) (l : FileLock) (o : Option FileLock)
    → in_force now l ≡ false
    → ((m : FileLock) → o ≡ some m → m.id ≡ l.id → m ≡ l)
    → filter_row (in_force now) (filter_row (λ m. not (m.id == l.id)) o)
      ≡ filter_row (in_force now) o
gone now u p l none x same = refl
gone now u p l (some m) x same = elim (Bool-cases (m.id == l.id)) [
  | inl e ↦ let q = same m refl (ground arith) in ground arith
  | inr e ↦ rw e
]

pub SameLive-delete :
    (now : ℕ) (t : LockTable) (uid : ℕ) (p : Bytes) (l : FileLock)
    → IsTable t
    → select uid p t.rows ≡ some l
    → in_force now l ≡ false
    → SameLive now t (delete t l.id)
unfolding delete live
SameLive-delete now t uid p l h e f u q =
    rw (live_given t uid p l h e, select-keep (λ m. not (m.id == l.id)) u q t.rows h.unique)
      (gone now u q l (select u q t.rows) f
        (λ m em same. same_id u uid q p t.rows m l h.unique em e same))

pub expire_lock-SameLive :
    (now : ℕ) (t : LockTable) (uid : ℕ) (p : Bytes) (l : FileLock)
    → IsTable t
    → select uid p t.rows ≡ some l
    → SameLive now t (expire_lock t l now).0
unfolding expire_lock
expire_lock-SameLive now t uid p l h e u q = elim (Bool-cases (in_force now l)) [
  | inl f ↦ rw f
  | inr f ↦ rw f (SameLive-delete now t uid p l h e f u q)
]

pub expire_lock-IsTable :
    (now : ℕ) (t : LockTable) (l : FileLock) → IsTable t → IsTable (expire_lock t l now).0
unfolding expire_lock
expire_lock-IsTable now t l h = elim (Bool-cases (in_force now l)) [
  | inl f ↦ rw f h
  | inr f ↦ rw f (delete-IsTable t l.id h)
]

-- An expired row is gone from its path.
pub select-expire_lock :
    (now : ℕ) (t : LockTable) (uid : ℕ) (p : Bytes) (l : FileLock)
    → IsTable t
    → select uid p t.rows ≡ some l
    → in_force now l ≡ false
    → select uid p (delete t l.id).rows ≡ none
unfolding delete
select-expire_lock now t uid p l h e f =
    rw (live_given t uid p l h e, select-keep (λ m. not (m.id == l.id)) uid p t.rows h.unique, e)
      (ground arith)

-- Deleting the row of a path takes away its lock and no other.
pub live-delete :
    (now : ℕ) (t : LockTable) (uid : ℕ) (np : Bytes) (l : FileLock) (u : ℕ) (p : Bytes)
    → IsTable t
    → select uid np t.rows ≡ some l
    → live now (delete t l.id) u p ≡ (if uid == u && np =? p then none else live now t u p)
unfolding delete live
live-delete now t uid np l u p h s =
    rw (live_given t uid np l h s, select-keep (λ m. not (m.id == l.id)) u p t.rows h.unique)
      (go (select u p t.rows) refl (uid == u && np =? p) refl)
  where
    go :
        (o : Option FileLock)
        → select u p t.rows ≡ o
        → (b : Bool) → (uid == u && np =? p) ≡ b
        → filter_row (in_force now) (filter_row (λ m. not (m.id == l.id)) o)
          ≡ (if b then none else filter_row (in_force now) o)
    go none eo true eb = refl
    go none eo false eb = refl
    go (some m) eo true eb =
        let same : some m ≡ some l = ground (
          arith,
          bytes_eq_iff np p,
          ap (λ (q : Bytes). select uid q t.rows) ((bytes_eq_iff np p).0 (ground arith)),
          s,
        ) in
        ground arith
    go (some m) eo false eb = elim (Bool-cases (m.id == l.id)) [
      | inl i ↦
          let q = same_id u uid p np t.rows m l h.unique eo s (ground arith) in
          let km = select-key u p t.rows m eo in
          let kl = select-key uid np t.rows l s in
          absurd (ground (arith, bytes_eq_iff l.path np, bytes_eq_iff m.path p, bytes_eq_iff np p))
      | inr i ↦ rw i
    ]
