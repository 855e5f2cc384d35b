-- ===== src/Files/LockStore/Unique.antt =====
-- The constraints of file_locks as an invariant: keys, tokens and ids are unique, ids are given out.
use nextcloud_go.Prelude.{
  ℕ, suc, ◌<◌, Bool, true, false, not, ◌||◌, List, [], ◌∷◌, ◌≡◌, refl, ◌==◌, ◌=?◌, bytes_equality,
  if◌then◌else◌, keep, any, All, All-keep, arith, Bool-cases, Option-cases, inl, inr,
}
use nextcloud_go.Files.Path.{normalize_path}
use nextcloud_go.Files.LockStore.{
  FileLock, LockTable, at_key, clash, add, insert, set_timeout, update_timeout, delete,
}

-- Two rows that the constraints let stand beside one another.
abbrev pub Apart : FileLock → FileLock → Type 0
Apart l m =
    (at_key l.user_id l.path m ≡ false) × ((m.token =? l.token) ≡ false) × ((m.id == l.id) ≡ false)

abbrev pub Unique : List FileLock → Type 0
Unique [] = Unit
Unique (l ∷ rows) = All (Apart l) rows × Unique rows

abbrev pub IsGiven : ℕ → FileLock → Type 0
IsGiven next l = (0 < l.id) × (l.id < next)

pub record IsTable (t : LockTable) : Type 0 where
  pub given : All (IsGiven t.next_id) t.rows
  pub unique : Unique t.rows

pub Unique-keep : (p : FileLock → Bool) (rows : List FileLock) → Unique rows → Unique (keep p rows)
unfolding keep
Unique-keep p [] h = tt
Unique-keep p (l ∷ rows) h = go (p l) (All-keep (Apart l) p rows h.0) (Unique-keep p rows h.1)
  where
    go :
        (b : Bool)
        → All (Apart l) (keep p rows)
        → Unique (keep p rows)
        → Unique (if b then l ∷ keep p rows else keep p rows)
    go true a u = (a, u)
    go false a u = u

All-later : (n : ℕ) (rows : List FileLock) → All (IsGiven n) rows → All (IsGiven (suc n)) rows
All-later n [] h = tt
All-later n (l ∷ rows) h = (omega arith, All-later n rows h.1)

Apart-of_new :
    (n : ℕ) (l r : FileLock) (rows : List FileLock)
    → r ≡ record l { id = n }
    → All (IsGiven n) rows
    → any (clash l.user_id l.path l.token) rows ≡ false
    → All (Apart r) rows
unfolding any
Apart-of_new n l r [] e g h = tt
Apart-of_new n l r (m ∷ rows) e g h =
    ((ground arith, ground arith, ground arith), Apart-of_new n l r rows e g.1 (ground arith))

add-IsTable : (t : LockTable) (l : FileLock) → 0 < t.next_id → IsTable t → IsTable (add t l).0
unfolding add
add-IsTable t l pos h = elim (Bool-cases (any (clash l.user_id l.path l.token) t.rows)) [
  | inl e ↦ rw e h
  | inr e ↦
      let row = record l { id = t.next_id } in
      rw e (record {
        given = ((pos, omega arith), All-later t.next_id t.rows h.given);
        unique = (Apart-of_new t.next_id l row t.rows refl h.given e, h.unique);
      })
]

-- A row that Insert adds meets the constraints.
insert-IsTable : (t : LockTable) (l : FileLock) → 0 < t.next_id → IsTable t → IsTable (insert t l).0
unfolding insert
insert-IsTable t l pos h = elim (Bool-cases (l.user_id == 0 || l.token =? [])) [
  | inl e ↦ rw e h
  | inr e ↦ elim (Option-cases (normalize_path l.path)) [
    | inl n ↦ rw (e, n) h
    | inr (np, n) ↦ rw (e, n) (add-IsTable t (record l { path = np }) pos h)
  ]
]

All-Apart-set_timeout :
    (id ms : ℕ) (l : FileLock) (rows : List FileLock)
    → All (Apart l) rows
    → All (Apart l) (set_timeout id ms rows)
unfolding set_timeout
All-Apart-set_timeout id ms l [] h = tt
All-Apart-set_timeout id ms l (m ∷ rows) h =
    ((ground arith, ground arith, ground arith), All-Apart-set_timeout id ms l rows h.1)

Unique-set_timeout :
    (id ms : ℕ) (rows : List FileLock) → Unique rows → Unique (set_timeout id ms rows)
unfolding set_timeout
Unique-set_timeout id ms [] h = tt
Unique-set_timeout id ms (l ∷ rows) h =
    (go (l.id == id) (All-Apart-set_timeout id ms l rows h.0), Unique-set_timeout id ms rows h.1)
  where
    go :
        (b : Bool)
        → All (Apart l) (set_timeout id ms rows)
        → All (Apart (if b then record l { timeout_ms = ms } else l)) (set_timeout id ms rows)
    go true a = a
    go false a = a

IsGiven-set_timeout :
    (id ms n : ℕ) (rows : List FileLock)
    → All (IsGiven n) rows
    → All (IsGiven n) (set_timeout id ms rows)
unfolding set_timeout
IsGiven-set_timeout id ms n [] h = tt
IsGiven-set_timeout id ms n (l ∷ rows) h =
    ((ground arith, ground arith), IsGiven-set_timeout id ms n rows h.1)

update_timeout-IsTable :
    (t : LockTable) (id ms : ℕ) → IsTable t → IsTable (update_timeout t id ms).0
unfolding update_timeout
update_timeout-IsTable t id ms h = elim (Bool-cases (id == 0)) [
  | inl e ↦ rw e h
  | inr e ↦ rw e (record {
    given = IsGiven-set_timeout id ms t.next_id t.rows h.given;
    unique = Unique-set_timeout id ms t.rows h.unique;
  })
]

pub delete-IsTable : (t : LockTable) (id : ℕ) → IsTable t → IsTable (delete t id)
unfolding delete
delete-IsTable t id h = elim (Bool-cases (id == 0)) [
  | inl e ↦ rw e h
  | inr e ↦ rw e (record {
    given = All-keep (IsGiven t.next_id) (λ l. not (l.id == id)) t.rows h.given;
    unique = Unique-keep (λ l. not (l.id == id)) t.rows h.unique;
  })
]
