-- ===== src/Sharing/Subtree/Exact.antt =====
-- Which shares the statements on a subtree reach.
use nextcloud_go.Prelude.{
  ℕ, Bool, true, false, not, ◌&&◌, ◌||◌, Option, none, some, List, [], ◌∷◌, ◌++◌, Bytes, text, ◌≡◌,
  refl, sym, ap, ◌∙◌, ◌==◌, ◌=?◌, bytes_equality, bytes_eq_iff, beq_refl, if◌then◌else◌, keep, map,
  All, All-keep, contains, all, nat_equality, arith, Bool-cases, inl, inr,
}
use nextcloud_go.Text.{has_prefix, trim_prefix, trim_right, split, join}
use nextcloud_go.Text.Like.{
  Dialect, postgres, sqlite, like, selects, at_or_below, selects-at_or_below, resettled,
  next_path-resettled, NoWildcard, some_tail,
}
use nextcloud_go.Files.Path.{
  normalize_path, valid_utf8, slashes, rooted, untrailed, by_segments, rejoin, good_segment,
}
use nextcloud_go.Files.Path.Idempotent.{normalize_path_idem}
use nextcloud_go.Sharing.Store.{Share, ShareTable, update_row}
use nextcloud_go.Sharing.Store.Rows.{Apart, Unique}
use nextcloud_go.Sharing.Subtree.{
  in_subtree, list_by_prefix, delete_by_path, next_path, with_path, rename_rows, rename_path,
}

keep_same :
    (p q : Share → Bool) (rows : List Share) → ((r : Share) → p r ≡ q r) → keep p rows ≡ keep q rows
unfolding keep
keep_same p q [] h = refl
keep_same p q (r ∷ rows) h = rw (h r) (ap (λ l. if q r then r ∷ l else l) (keep_same p q rows h))

-- DeleteByPath at a path without % and _ and not the root takes exactly the owner's shares at the
-- path and below it, as the dialect's LIKE compares letters.
pub delete_by_path-at_or_below :
    (d : Dialect) (t : ShareTable) (uid : ℕ) (path np : Bytes)
    → normalize_path path ≡ some np
    → (np =? text "/") ≡ false
    → NoWildcard np
    → (delete_by_path d t uid path).0.rows
      ≡ keep (λ r. not (r.owner_user_id == uid && at_or_below d np r.path)) t.rows
unfolding delete_by_path
delete_by_path-at_or_below d t uid path np n root h = rw n (
    keep_same _ _ t.rows
      (λ r. ap (λ b. not (r.owner_user_id == uid && b)) (selects-at_or_below d np r.path root h)))

-- The loop writes each listed row once, from its own path.
abbrev moved : Bytes → Bytes → Share → Share
moved src dst r = with_path (next_path src dst r.path) r

rename_row : Bytes → Bytes → List Share → Share → Share
rename_row src dst [] r = r
rename_row src dst (item ∷ items) r =
    rename_row src dst items
      (if r.id == item.id then with_path (next_path src dst item.path) r else r)

rename_rows-cons :
    (src dst : Bytes) (items : List Share) (r : Share) (rows : List Share)
    → rename_rows src dst items (r ∷ rows)
      ≡ rename_row src dst items r ∷ rename_rows src dst items rows
unfolding rename_rows rename_row update_row
rename_rows-cons src dst [] r rows = refl
rename_rows-cons src dst (item ∷ items) r rows =
    rename_rows-cons src dst items _
      (update_row (with_path (next_path src dst item.path)) item.id rows)

rename_row-apart :
    (src dst : Bytes) (items : List Share) (r : Share)
    → All (λ m. (m.id == r.id) ≡ false) items
    → rename_row src dst items r ≡ r
unfolding rename_row
rename_row-apart src dst [] r h = refl
rename_row-apart src dst (item ∷ items) r h =
    let other : (r.id == item.id) ≡ false = ground (arith, h.0) in
    rw other (rename_row-apart src dst items r h.1)

update_row-apart :
    (f : Share → Share) (id : ℕ) (rows : List Share)
    → All (λ m. (m.id == id) ≡ false) rows
    → update_row f id rows ≡ rows
unfolding update_row
update_row-apart f id [] h = refl
update_row-apart f id (r ∷ rows) h = rw h.0 (ap (λ l. r ∷ l) (update_row-apart f id rows h.1))

Apart-id :
    (r : Share) (rows : List Share) → All (Apart r) rows → All (λ m. (m.id == r.id) ≡ false) rows
Apart-id r [] h = tt
Apart-id r (m ∷ rows) h = (h.0.0, Apart-id r rows h.1)

move_if : (Share → Bool) → Bytes → Bytes → Share → Share
move_if p src dst r = if p r then moved src dst r else r

-- A listed row at the head of the table
rename_row_first :
    (src dst : Bytes) (items : List Share) (r : Share)
    → All (λ m. (m.id == r.id) ≡ false) items
    → rename_row src dst (r ∷ items) r ≡ moved src dst r
unfolding rename_row
rename_row_first src dst items r h =
    let self : (r.id == r.id) ≡ true = ground arith in
    rw self (rename_row-apart src dst items (moved src dst r) h)

rename_rows_first :
    (src dst : Bytes) (items : List Share) (r : Share) (rows : List Share)
    → All (λ m. (m.id == r.id) ≡ false) rows
    → rename_rows src dst (r ∷ items) rows ≡ rename_rows src dst items rows
unfolding rename_rows
rename_rows_first src dst items r rows h =
    rw (update_row-apart (with_path (next_path src dst r.path)) r.id rows h) refl

rename_rows-keep :
    (p : Share → Bool) (src dst : Bytes) (rows : List Share)
    → Unique rows
    → rename_rows src dst (keep p rows) rows ≡ map (move_if p src dst) rows
unfolding keep move_if rename_rows
rename_rows-keep p src dst [] u = refl
rename_rows-keep p src dst (r ∷ rows) u =
    let others = Apart-id r rows u.0 in
    let kept = All-keep (λ m. (m.id == r.id) ≡ false) p rows others in
    elim (Bool-cases (p r)) [
      | inl e ↦ rw e (
          rename_rows-cons src dst (r ∷ keep p rows) r rows
          ∙ rw
              (
                rename_row_first src dst (keep p rows) r kept,
                rename_rows_first src dst (keep p rows) r rows others,
              )
              (ap (λ l. moved src dst r ∷ l) (rename_rows-keep p src dst rows u.1)))
      | inr e ↦ rw e (
          rename_rows-cons src dst (keep p rows) r rows
          ∙ rw (rename_row-apart src dst (keep p rows) r kept)
              (ap (λ l. r ∷ l) (rename_rows-keep p src dst rows u.1)))
    ]

map_same :
    (f g : Share → Share) (rows : List Share) → ((r : Share) → f r ≡ g r) → map f rows ≡ map g rows
map_same f g [] h = refl
map_same f g (r ∷ rows) h = rw (h r) (ap (λ l. g r ∷ l) (map_same f g rows h))

-- RenamePath from a path without % and _ and not the root moves exactly the owner's shares at the
-- path and below it, each with what follows the path behind the destination, and no other. What lies
-- below a path is decided as the dialect's LIKE compares letters: on SQLite without regard to the case
-- of ASCII letters, and a share that is below the path only in this way gets its whole old path behind
-- the destination.
pub rename_path-at_or_below :
    (d : Dialect) (t : ShareTable) (uid : ℕ) (from to src dst : Bytes)
    → Unique t.rows
    → normalize_path from ≡ some src
    → normalize_path to ≡ some dst
    → (src =? text "/") ≡ false
    → NoWildcard src
    → (rename_path d t uid from to).0.rows
      ≡ map
          (λ r.
            if r.owner_user_id == uid && at_or_below d src r.path
            then with_path (resettled src dst r.path) r
            else r)
          t.rows
unfolding rename_path list_by_prefix move_if
rename_path-at_or_below d t uid from to src dst u n m root h =
    rw (n, m, normalize_path_idem from src n)
      (rename_rows-keep (in_subtree d uid src) src dst t.rows u
        ∙ map_same _ _ t.rows (λ r.
          ap
            (λ b. if r.owner_user_id == uid && b then with_path (next_path src dst r.path) r else r)
            (selects-at_or_below d src r.path root h)
          ∙ ap
              (λ q. if r.owner_user_id == uid && at_or_below d src r.path then with_path q r else r)
              (next_path-resettled src dst r.path)))

abbrev pub other_dir : ℕ → Bytes
other_dir x = text "/a" ++ (x ∷ text "b/c")

wild_normal : normalize_path (text "/a_b") ≡ some (text "/a_b")
unfolding normalize_path valid_utf8 slashes rooted untrailed by_segments rejoin contains all split
    join has_prefix trim_right good_segment nextcloud_go.Prelude.bytes_eq
wild_normal = refl

selects-other_dir :
    (d : Dialect) (x : ℕ) → (x == b'_') ≡ false → selects d (text "/a_b") (other_dir x) ≡ true
unfolding selects like some_tail nextcloud_go.Prelude.bytes_eq
selects-other_dir postgres x h = rw h refl
selects-other_dir sqlite x h = rw h refl

next_path-other_dir :
    (x : ℕ) (dst : Bytes)
    → (x == b'_') ≡ false
    → next_path (text "/a_b") dst (other_dir x) ≡ dst ++ other_dir x
unfolding trim_prefix has_prefix nextcloud_go.Prelude.bytes_eq
next_path-other_dir x dst h = rw h refl

-- RenamePath from a path with an underscore reaches other directories, on PostgreSQL and on SQLite: on a table with one share,
-- of the same owner and at /a?b/c for some other byte, a rename of /a_b writes the destination in
-- front of the whole old path.
pub rename_path_wildcard :
    (d : Dialect) (uid x next : ℕ) (r : Share) (dst : Bytes)
    → (x == b'_') ≡ false
    → r.owner_user_id ≡ uid
    → r.path ≡ other_dir x
    → normalize_path dst ≡ some dst
    → (rename_path d (record { rows = r ∷ []; next_id = next }) uid (text "/a_b") dst).0.rows
      ≡ with_path (dst ++ r.path) r ∷ []
unfolding rename_path list_by_prefix keep rename_rows update_row
rename_path_wildcard d uid x next r dst other owner path m =
    let hit : in_subtree d uid (text "/a_b") r ≡ true =
      rw (owner, path, selects-other_dir d x other) (ground arith) in
    let to : next_path (text "/a_b") dst r.path ≡ dst ++ r.path =
      rw path (next_path-other_dir x dst other) in
    let self : (r.id == r.id) ≡ true = ground arith in
    rw (wild_normal, m, wild_normal, hit, self, to) refl
