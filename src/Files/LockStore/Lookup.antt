-- ===== src/Files/LockStore/Lookup.antt =====
-- What a lookup by user and path sees of the operations on the table.
use nextcloud_go.Prelude.{
  ℕ, Bool, true, false, Option, none, some, List, [], ◌∷◌, Bytes, ◌≡◌, refl, subst, ◌==◌,
  bytes_equality, bytes_eq_iff, if◌then◌else◌, keep, All, arith, Bool-cases, inl, inr,
}
use nextcloud_go.Files.Path.{normalize_path}
use nextcloud_go.Files.LockStore.{
  FileLock, LockTable, at_key, select, found, get_by_path, set_timeout,
}
use nextcloud_go.Files.LockStore.Unique.{Apart, Unique}

abbrev pub filter_row : (FileLock → Bool) → Option FileLock → Option FileLock
filter_row p none = none
filter_row p (some l) = if p l then some l else none

pub select-key :
    (uid : ℕ) (q : Bytes) (rows : List FileLock) (l : FileLock)
    → select uid q rows ≡ some l
    → at_key uid q l ≡ true
unfolding select
select-key uid q [] l h = cc
select-key uid q (m ∷ rows) l h = elim (Bool-cases (at_key uid q m)) [
  | inl e ↦ ground arith
  | inr e ↦ select-key uid q rows l (ground arith)
]

pub All-select {ℓ} :
    (P : FileLock → Type ℓ) (uid : ℕ) (q : Bytes) (rows : List FileLock) (l : FileLock)
    → All P rows
    → select uid q rows ≡ some l
    → P l
unfolding select
All-select P uid q [] l a h = absurd (cc)
All-select P uid q (m ∷ rows) l a h = elim (Bool-cases (at_key uid q m)) [
  | inl e ↦ subst P (ground arith) a.0
  | inr e ↦ All-select P uid q rows l a.1 (ground arith)
]

-- A row apart from all others is not found among them.
select-Apart :
    (uid : ℕ) (q : Bytes) (l : FileLock) (rows : List FileLock)
    → at_key uid q l ≡ true
    → All (Apart l) rows
    → select uid q rows ≡ none
unfolding select
select-Apart uid q l [] e a = refl
select-Apart uid q l (m ∷ rows) e a = ground (
  arith,
  select-Apart uid q l rows e a.1,
  bytes_eq_iff l.path q,
  bytes_eq_iff m.path q,
  bytes_eq_iff m.path l.path,
)

pub select-keep :
    (p : FileLock → Bool) (uid : ℕ) (q : Bytes) (rows : List FileLock)
    → Unique rows
    → select uid q (keep p rows) ≡ filter_row p (select uid q rows)
unfolding select keep
select-keep p uid q [] u = refl
select-keep p uid q (l ∷ rows) u = elim (Bool-cases (at_key uid q l)) [
  | inl e ↦ ground (arith, select-keep p uid q rows u.1, select-Apart uid q l rows e u.0)
  | inr e ↦ ground (arith, select-keep p uid q rows u.1)
]

abbrev pub touch : ℕ → ℕ → Option FileLock → Option FileLock
touch id ms none = none
touch id ms (some l) = some (if l.id == id then record l { timeout_ms = ms } else l)

pub select-set_timeout :
    (id ms uid : ℕ) (q : Bytes) (rows : List FileLock)
    → select uid q (set_timeout id ms rows) ≡ touch id ms (select uid q rows)
unfolding select set_timeout
select-set_timeout id ms uid q [] = refl
select-set_timeout id ms uid q (l ∷ rows) = ground (arith, select-set_timeout id ms uid q rows)

-- An id is one row's.
pub same_id :
    (u u' : ℕ) (p p' : Bytes) (rows : List FileLock) (m l : FileLock)
    → Unique rows
    → select u p rows ≡ some m
    → select u' p' rows ≡ some l
    → m.id ≡ l.id
    → m ≡ l
unfolding select
same_id u u' p p' [] m l un hm hl e = cc
same_id u u' p p' (r ∷ rows) m l un hm hl e = elim (Bool-cases (at_key u p r)) [
  | inl a ↦ elim (Bool-cases (at_key u' p' r)) [
    | inl b ↦ ground arith
    | inr b ↦ absurd (ground (arith, All-select (Apart r) u' p' rows l un.0 (ground arith)))
  ]
  | inr a ↦ elim (Bool-cases (at_key u' p' r)) [
    | inl b ↦ absurd (ground (arith, All-select (Apart r) u p rows m un.0 (ground arith)))
    | inr b ↦ same_id u u' p p' rows m l un.1 (ground arith) (ground arith) e
  ]
]

-- GetByPath at a canonical path is the lookup.
pub get_by_path-select :
    (t : LockTable) (uid : ℕ) (np : Bytes)
    → normalize_path np ≡ some np
    → (uid == 0) ≡ false
    → get_by_path t uid np ≡ found (select uid np t.rows)
unfolding get_by_path
get_by_path-select t uid np n u = ground (arith, n, u)
