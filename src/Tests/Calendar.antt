-- ===== src/Tests/Calendar.antt =====
-- Four appointments in no order: two overlap, one follows without a gap.
use nextcloud_go.Prelude.{ℕ, List, [], ◌∷◌, ◌≡◌, refl}
use nextcloud_go.Calendar.FreeBusy.{Interval, insert_by_start, sort_by_start, coalesce, merge_busy}
use nextcloud_go.Calendar.FreeBusy.Merge.{busy_at, HasGaps, merge_busy-covers}

abbrev from_to : ℕ → ℕ → Interval
from_to a b = record { start = a; end = b }

abbrev day : List Interval
day = from_to 14 15 ∷ from_to 9 11 ∷ from_to 11 12 ∷ from_to 10 11 ∷ []

merged : merge_busy day ≡ from_to 9 12 ∷ from_to 14 15 ∷ []
unfolding merge_busy sort_by_start insert_by_start coalesce
merged = refl

merge_busy-covers_example :
    ((t : ℕ) → busy_at t (merge_busy day) ≡ busy_at t day) × HasGaps (merge_busy day)
merge_busy-covers_example = merge_busy-covers day
