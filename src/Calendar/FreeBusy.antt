-- ===== src/Calendar/FreeBusy.antt =====
-- mergeBusy of internal/calendar/freebusy.go. An interval is its two times; a time is a number.
pub mod Merge
use nextcloud_go.Prelude.{ℕ, Bool, true, false, not, List, [], ◌∷◌, ltb, if◌then◌else◌}

pub record Interval : Type 0 where
  pub start : ℕ
  pub end : ℕ

-- sort.Slice by the start, as an insertion sort
unfoldable pub insert_by_start : Interval → List Interval → List Interval
insert_by_start iv [] = iv ∷ []
insert_by_start iv (x ∷ xs) =
    let rest = insert_by_start iv xs in if ltb x.start iv.start then x ∷ rest else iv ∷ x ∷ xs

unfoldable pub sort_by_start : List Interval → List Interval
sort_by_start [] = []
sort_by_start (iv ∷ ivs) = insert_by_start iv (sort_by_start ivs)

abbrev pub extended : Interval → Interval → Interval
extended last iv = if ltb last.end iv.end then record last { end = iv.end } else last

-- The loop of mergeBusy, with the last interval of its output
unfoldable pub coalesce : Interval → List Interval → List Interval
coalesce last [] = last ∷ []
coalesce last (iv ∷ ivs) =
    let joined = coalesce (extended last iv) ivs in
    let apart = coalesce iv ivs in if not (ltb last.end iv.start) then joined else last ∷ apart

abbrev pub merge_sorted : List Interval → List Interval
merge_sorted [] = []
merge_sorted (iv ∷ ivs) = coalesce iv ivs

-- mergeBusy
unfoldable pub merge_busy : List Interval → List Interval
merge_busy ivs = merge_sorted (sort_by_start ivs)
