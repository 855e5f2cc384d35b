-- ===== src/Text/Like.antt =====
-- SQL's LIKE without an escape, on text of one byte per character, and the patterns that the stores
-- make of a path. PostgreSQL tells the cases of a letter apart; SQLite, as database/open.go opens it,
-- does not for ASCII letters. MySQL compares under the collation of its tables and is not modelled.
use nextcloud_go.Prelude.{
  ℕ, leb, drop, length, ap, sym, ◌∙◌, bytes_eq_iff, Bool-cases, inl, inr, ◌+◌, map, Bool, true,
  false, ◌&&◌, ◌||◌, [], ◌∷◌, ◌++◌, Bytes, text, ◌≡◌, refl, ◌==◌, ◌=?◌, bytes_equality,
  if◌then◌else◌, All, arith,
}
use nextcloud_go.Text.{has_prefix, trim_prefix, after_prefix}

-- A tail of the text passes.
unfoldable pub some_tail : (Bytes → Bool) → Bytes → Bool
some_tail k [] = k []
some_tail k (x ∷ s) = k (x ∷ s) || some_tail k s

pub data Dialect : Type 0 where
  postgres sqlite : Dialect

-- A character as LIKE compares it
abbrev pub fold_case : Dialect → ℕ → ℕ
fold_case postgres c = c
fold_case sqlite c = if leb 65 c && leb c 90 then c + 32 else c

abbrev pub one_char : Dialect → ℕ → (Bytes → Bool) → Bytes → Bool
one_char d c k [] = false
one_char d c k (x ∷ s) = (c == b'_' || fold_case d x == fold_case d c) && k s

abbrev pub is_empty : Bytes → Bool
is_empty [] = true
is_empty (x ∷ s) = false

unfoldable pub like : Dialect → Bytes → Bytes → Bool
unfolding some_tail
like d [] s = is_empty s
like d (c ∷ p) s =
    let rest = like d p in if c == b'%' then some_tail rest s else one_char d c rest s

-- The pattern of what lies below a canonical path
abbrev pub below_pattern : Bytes → Bytes
below_pattern np = if np =? text "/" then text "/%" else np ++ text "/%"

-- file_path = ? OR file_path LIKE ?
unfoldable pub selects : Dialect → Bytes → Bytes → Bool
selects d np p = p =? np || like d (below_pattern np) p

-- A path without the two characters that LIKE reads as wildcards
abbrev pub NoWildcard : Bytes → Type 0
NoWildcard = All (λ c. ((c == b'%') ≡ false) × ((c == b'_') ≡ false))

some_tail-is_empty : (s : Bytes) → some_tail is_empty s ≡ true
unfolding some_tail
some_tail-is_empty [] = refl
some_tail-is_empty (x ∷ s) = some_tail-is_empty s

-- A text as LIKE compares it
abbrev pub folded : Dialect → Bytes → Bytes
folded postgres s = s
folded sqlite s = map (fold_case sqlite) s

-- For a pattern without wildcards but the last, LIKE is the test of a prefix.
pub like-prefix :
    (d : Dialect) (p s : Bytes)
    → NoWildcard p
    → like d (p ++ text "/%") s ≡ has_prefix (folded d (p ++ text "/")) (folded d s)
unfolding like has_prefix
like-prefix postgres [] [] h = refl
like-prefix postgres [] (x ∷ s) h = rw (some_tail-is_empty s) refl
like-prefix postgres (c ∷ p) [] h = ground (arith, h.0)
like-prefix postgres (c ∷ p) (x ∷ s) h = rw (h.0.0, h.0.1, like-prefix postgres p s h.1) refl
like-prefix sqlite [] [] h = refl
like-prefix sqlite [] (x ∷ s) h = rw (some_tail-is_empty s) refl
like-prefix sqlite (c ∷ p) [] h = ground (arith, h.0)
like-prefix sqlite (c ∷ p) (x ∷ s) h = rw (h.0.0, h.0.1, like-prefix sqlite p s h.1) refl

-- At a path, or below it as the database's LIKE compares letters
abbrev pub at_or_below : Dialect → Bytes → Bytes → Bool
at_or_below d np p = p =? np || has_prefix (folded d (np ++ text "/")) (folded d p)

pub selects-at_or_below :
    (d : Dialect) (np p : Bytes)
    → (np =? text "/") ≡ false
    → NoWildcard np
    → selects d np p ≡ at_or_below d np p
unfolding selects
selects-at_or_below d np p root h = rw root (rw (like-prefix d np p h) refl)

-- Where a rename puts a path: what follows the source goes behind the destination. A path that only
-- LIKE takes for one below the source goes there whole.
abbrev pub resettled : Bytes → Bytes → Bytes → Bytes
resettled src dst p = dst ++ (if has_prefix src p then drop (length src) p else p)

after_prefix-drop : (src p : Bytes) → after_prefix src p ≡ drop (length src) p
after_prefix-drop [] p = refl
after_prefix-drop (c ∷ src) [] = refl
after_prefix-drop (c ∷ src) (x ∷ p) = after_prefix-drop src p

trim_prefix-drop :
    (src p : Bytes) → trim_prefix src p ≡ (if has_prefix src p then drop (length src) p else p)
unfolding trim_prefix has_prefix
trim_prefix-drop src p = ap (λ b. if has_prefix src p then b else p) (after_prefix-drop src p)

append_nil : (a : Bytes) → a ≡ a ++ []
append_nil [] = refl
append_nil (x ∷ a) = ap (λ b. x ∷ b) (append_nil a)

drop_all : (p : Bytes) → (if has_prefix p p then drop (length p) p else p) ≡ []
unfolding has_prefix
drop_all [] = refl
drop_all (x ∷ p) = ground (arith, drop_all p)

pub next_path-resettled :
    (src dst p : Bytes) → (if p =? src then dst else dst ++ trim_prefix src p) ≡ resettled src dst p
next_path-resettled src dst p = elim (Bool-cases (p =? src)) [
  | inl e ↦
      let same : p ≡ src = (bytes_eq_iff p src).0 e in
      rw (e, same) (append_nil dst ∙ ap (λ b. dst ++ b) (sym (drop_all src)))
  | inr e ↦ rw e (ap (λ b. dst ++ b) (trim_prefix-drop src p))
]
