-- ===== src/Files/LockStore/Subtree/Moved.antt =====
-- Which locks a RenamePath that succeeds moves, and to where.
use nextcloud_go.Prelude.{
  ℕ, Bool, true, false, ◌&&◌, ◌||◌, some, List, [], ◌∷◌, Bytes, text, ◌≡◌, refl, ap, ◌∙◌, ◌==◌,
  ◌=?◌, bytes_equality, if◌then◌else◌, keep, any, map, All, All-keep, arith, Bool-cases, inl, inr,
}
use nextcloud_go.Text.Like.{
  Dialect, at_or_below, selects-at_or_below, NoWildcard, resettled, next_path-resettled,
}
use nextcloud_go.Errors.{FileError, Result, ok, err}
use nextcloud_go.Files.Path.{normalize_path}
use nextcloud_go.Files.Path.Idempotent.{normalize_path_idem}
use nextcloud_go.Files.LockStore.{FileLock, LockTable}
use nextcloud_go.Files.LockStore.Unique.{Apart, Unique}
use nextcloud_go.Files.LockStore.Subtree.{
  in_subtree, next_path, with_path, path_taken, set_path, then_rest, rename_rows, comes_first,
  insert_by_path, sort_by_path, list_by_prefix, rename_path,
}

abbrev pub moved : Bytes → Bytes → FileLock → FileLock
moved src dst l = record l { path = next_path src dst l.path }

-- What the loop does with one row
rename_row : Bytes → Bytes → List FileLock → FileLock → FileLock
rename_row src dst [] l = l
rename_row src dst (i ∷ items) l =
    rename_row src dst items (with_path i.id (next_path src dst i.path) l)

map-map :
    (f g : FileLock → FileLock) (rows : List FileLock)
    → map f (map g rows) ≡ map (λ l. f (g l)) rows
map-map f g [] = refl
map-map f g (l ∷ rows) = ap (λ ls. f (g l) ∷ ls) (map-map f g rows)

map_same : (rows : List FileLock) → rows ≡ map (λ l. l) rows
map_same [] = refl
map_same (l ∷ rows) = ap (λ ls. l ∷ ls) (map_same rows)

then_rest-ok :
    (go : LockTable → LockTable × Result FileError (Unit {0}))
    (o : LockTable × Result FileError (Unit {0}))
    → (then_rest go o).1 ≡ ok tt
    → (o.1 ≡ ok tt) × (then_rest go o ≡ go o.0)
then_rest-ok go (t, ok u) h = (refl, refl)
then_rest-ok go (t, err e) h = cc

rows-set_path :
    (id : ℕ) (p : Bytes) (t : LockTable)
    → (set_path id p t).1 ≡ ok tt
    → (set_path id p t).0.rows ≡ map (with_path id p) t.rows
unfolding set_path
rows-set_path id p t h = elim (Bool-cases (path_taken id p t.rows t.rows)) [
  | inl e ↦ absurd (ground (arith, e, h))
  | inr e ↦ rw e refl
]

rows-rename_rows :
    (src dst : Bytes) (items : List FileLock) (t : LockTable)
    → (rename_rows src dst items t).1 ≡ ok tt
    → (rename_rows src dst items t).0.rows ≡ map (rename_row src dst items) t.rows
unfolding rename_rows rename_row
rows-rename_rows src dst [] t h = map_same t.rows
rows-rename_rows src dst (i ∷ items) t h =
    let p = next_path src dst i.path in
    let (wrote, same) = then_rest-ok (rename_rows src dst items) (set_path i.id p t) h in
    let rest = rows-rename_rows src dst items (set_path i.id p t).0 (rw same at h) in
    rw same (
      rest
      ∙ ap (map (rename_row src dst items)) (rows-set_path i.id p t wrote)
      ∙ map-map (rename_row src dst items) (with_path i.id p) t.rows)

-- Of the items, those with the id of a row are that row.
abbrev Agree : FileLock → List FileLock → Type 0
Agree l = All (λ i. (i.id == l.id) ≡ true → i ≡ l)

abbrev listed_id : FileLock → List FileLock → Bool
unfolding any
listed_id l items = any (λ i. i.id == l.id) items

rename_row_again :
    (src dst : Bytes) (items : List FileLock) (l : FileLock)
    → Agree l items
    → rename_row src dst items (moved src dst l) ≡ moved src dst l
unfolding rename_row
rename_row_again src dst [] l a = refl
rename_row_again src dst (i ∷ items) l a = elim (Bool-cases (l.id == i.id)) [
  | inl e ↦
      let same : i ≡ l = a.0 (ground (arith, e)) in
      rw (e, same) (rename_row_again src dst items l a.1)
  | inr e ↦ rw e (rename_row_again src dst items l a.1)
]

rename_row-listed :
    (src dst : Bytes) (items : List FileLock) (l : FileLock)
    → Agree l items
    → rename_row src dst items l ≡ (if listed_id l items then moved src dst l else l)
unfolding rename_row any
rename_row-listed src dst [] l a = refl
rename_row-listed src dst (i ∷ items) l a = elim (Bool-cases (i.id == l.id)) [
  | inl e ↦
      let same : i ≡ l = a.0 e in
      let self : (l.id == l.id) ≡ true = ground arith in
      rw (same, self) (rename_row_again src dst items l a.1)
  | inr e ↦
      let other : (l.id == i.id) ≡ false = ground (arith, e) in
      rw (e, other) (rename_row-listed src dst items l a.1)
]

-- The order of the listed rows does not show.
listed_id-insert_by_path :
    (l m : FileLock) (ls : List FileLock)
    → listed_id l (insert_by_path m ls) ≡ (m.id == l.id || listed_id l ls)
unfolding any insert_by_path
listed_id-insert_by_path l m [] = refl
listed_id-insert_by_path l m (k ∷ ls) = elim (Bool-cases (comes_first m.path k.path)) [
  | inl e ↦ rw e refl
  | inr e ↦ rw e (ground (arith, listed_id-insert_by_path l m ls))
]

listed_id-sort_by_path :
    (l : FileLock) (ls : List FileLock) → listed_id l (sort_by_path ls) ≡ listed_id l ls
unfolding any sort_by_path
listed_id-sort_by_path l [] = refl
listed_id-sort_by_path l (m ∷ ls) =
    listed_id-insert_by_path l m (sort_by_path ls)
    ∙ ap (λ b. m.id == l.id || b) (listed_id-sort_by_path l ls)

All-insert_by_path {ℓ} :
    (P : FileLock → Type ℓ) (m : FileLock) (ls : List FileLock)
    → P m
    → All P ls
    → All P (insert_by_path m ls)
unfolding insert_by_path
All-insert_by_path P m [] h a = (h, tt)
All-insert_by_path P m (k ∷ ls) h a = elim (Bool-cases (comes_first m.path k.path)) [
  | inl e ↦ rw e (h, a)
  | inr e ↦ rw e (a.0, All-insert_by_path P m ls h a.1)
]

All-sort_by_path {ℓ} :
    (P : FileLock → Type ℓ) (ls : List FileLock) → All P ls → All P (sort_by_path ls)
unfolding sort_by_path
All-sort_by_path P [] a = tt
All-sort_by_path P (m ∷ ls) a =
    All-insert_by_path P m (sort_by_path ls) a.0 (All-sort_by_path P ls a.1)

module _ (p : FileLock → Bool) where
  -- A row of the table is among the kept ones by its id exactly if it is kept.
  abbrev Told : List FileLock → FileLock → Type 0
  Told rows l = (listed_id l (keep p rows) ≡ p l) × Agree l rows

  unlisted :
      (l : FileLock) (rows : List FileLock) → All (Apart l) rows → listed_id l (keep p rows) ≡ false
  unfolding any keep
  unlisted l [] a = refl
  unlisted l (m ∷ rows) a = ground (arith, a.0, unlisted l rows a.1)

  Agree-Apart : (l : FileLock) (rows : List FileLock) → All (Apart l) rows → Agree l rows
  Agree-Apart l [] a = tt
  Agree-Apart l (m ∷ rows) a = (λ i. absurd (ground (arith, a.0, i)), Agree-Apart l rows a.1)

  Told-more :
      (r : FileLock) (rows items : List FileLock)
      → All (Apart r) items
      → All (Told rows) items
      → All (Told (r ∷ rows)) items
  unfolding any keep
  Told-more r rows [] a h = tt
  Told-more r rows (l ∷ items) a h = (
    (ground (arith, a.0, h.0.0), (λ i. absurd (ground (arith, a.0, i)), h.0.1)),
    Told-more r rows items a.1 h.1,
  )

  Told-rows : (rows : List FileLock) → Unique rows → All (Told rows) rows
  unfolding any keep
  Told-rows [] u = tt
  Told-rows (l ∷ rows) u = (
    (ground (arith, unlisted l rows u.0), (λ i. refl, Agree-Apart l rows u.0)),
    Told-more l rows rows u.0 (Told-rows rows u.1),
  )

map_pointwise :
    (f g : FileLock → FileLock) (rows : List FileLock)
    → All (λ l. f l ≡ g l) rows
    → map f rows ≡ map g rows
map_pointwise f g [] a = refl
map_pointwise f g (l ∷ rows) a = rw a.0 (ap (λ ls. g l ∷ ls) (map_pointwise f g rows a.1))

module _ (d : Dialect) (src dst : Bytes) (uid : ℕ) (root : (src =? text "/") ≡ false)
    (plain : NoWildcard src) where
  abbrev below : FileLock → Bool
  below l = l.user_id == uid && at_or_below d src l.path

  in_subtree-below : (l : FileLock) → in_subtree d uid src l ≡ below l
  in_subtree-below l = ap (λ b. l.user_id == uid && b) (selects-at_or_below d src l.path root plain)

  moved_each :
      (rows items : List FileLock)
      → All (Told (in_subtree d uid src) rows) items
      → All
          (λ l.
            rename_row src dst (sort_by_path (keep (in_subtree d uid src) rows)) l
            ≡ (if below l then moved src dst l else l))
          items
  moved_each rows [] a = tt
  moved_each rows (l ∷ items) a =
      let p = in_subtree d uid src in
      let chosen = keep p rows in
      let agree = All-sort_by_path _ chosen (All-keep _ p rows a.0.1) in
      let told = listed_id-sort_by_path l chosen ∙ a.0.0 ∙ in_subtree-below l in
      (
        rename_row-listed src dst (sort_by_path chosen) l agree
            ∙ ap (λ b. if b then moved src dst l else l) told,
        moved_each rows items a.1,
      )

settled :
    (d : Dialect) (src dst : Bytes) (uid : ℕ) (rows : List FileLock)
    → All
        (λ l. (if l.user_id == uid && at_or_below d src l.path then moved src dst l else l) ≡ (
          if l.user_id == uid && at_or_below d src l.path
          then record l { path = resettled src dst l.path }
          else l))
        rows
settled d src dst uid [] = tt
settled d src dst uid (l ∷ rows) = (
  ap (λ q. if l.user_id == uid && at_or_below d src l.path then record l { path = q } else l)
      (next_path-resettled src dst l.path),
  settled d src dst uid rows,
)

-- On a table with unique keys, tokens and ids, a RenamePath that succeeds, from a path without % and _
-- and not the root, moves exactly the user's locks at the path and below it, each with what follows
-- the path behind the destination, and leaves every other lock as it is. What lies below a path is
-- decided as the dialect's LIKE compares letters: on SQLite without regard to the case of ASCII
-- letters, and a lock that is below the path only in this way gets its whole old path behind the
-- destination.
pub rename_path-moved :
    (d : Dialect) (t : LockTable) (uid : ℕ) (from to src dst : Bytes)
    → Unique t.rows
    → normalize_path from ≡ some src
    → normalize_path to ≡ some dst
    → (src =? text "/") ≡ false
    → NoWildcard src
    → (rename_path d t uid from to).1 ≡ ok tt
    → (rename_path d t uid from to).0.rows
      ≡ map
          (λ l.
            if l.user_id == uid && at_or_below d src l.path
            then record l { path = resettled src dst l.path }
            else l)
          t.rows
unfolding rename_path list_by_prefix
rename_path-moved d t uid from to src dst u n m root plain h =
    let p = in_subtree d uid src in
    let items = sort_by_path (keep p t.rows) in
    let loop = rename_rows src dst items t in
    let same : rename_path d t uid from to ≡ loop =
      rw (n, m, normalize_path_idem from src n) refl in
    rw same (
      rows-rename_rows src dst items t (rw same at h)
      ∙ map_pointwise (rename_row src dst items)
          (λ l. if l.user_id == uid && at_or_below d src l.path then moved src dst l else l) t.rows
          (moved_each d src dst uid root plain t.rows t.rows (Told-rows p t.rows u))
      ∙ map_pointwise _ _ t.rows (settled d src dst uid t.rows))
