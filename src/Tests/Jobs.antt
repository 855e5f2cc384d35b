-- ===== src/Tests/Jobs.antt =====
-- A runner with one periodic job, and a table with a row of a job that it does not know.
use nextcloud_go.Prelude.{
  ◌+◌, true, false, none, some, [], ◌∷◌, text, ◌≡◌, refl, sym, subst, arith, pos, ◌==◌, ◌=?◌,
  bytes_equality, bytes_eq, contains, All, keep,
}
use mathlib.Core.List.{Memᴰ}
use nextcloud_go.Jobs.Store.{
  Row, JobTable, candidates, order, any_row, update_where, claim_loop, claim_due, fail,
}
use nextcloud_go.Jobs.Runner.{Runner, job_row, periodic_names, run_one, start}
use nextcloud_go.Jobs.Claim.{Step, Steps, claim_due-exclusive}
use nextcloud_go.Jobs.Unknown.{row_of, deliveries, deliveries_drop}
use nextcloud_go.Jobs.Periodic.{open_rows, times_started, open_rows-run_one, open_rows-start}

abbrev runner : Runner
runner = record { workers = 2; poll = 5000; jobs = text "locks.expire" ∷ []; started = false }

abbrev sweep : Row
sweep = record (job_row (text "locks.expire") [] 40 20) { id = 1 }

abbrev ghost : Row
ghost = record (job_row (text "old.job") [] 50 20) { id = 2 }

abbrev table : JobTable
table = record { rows = sweep ∷ ghost ∷ []; next_id = 3 }

abbrev claimed_table : JobTable
claimed_table = record { rows = record sweep { started_at = some 45 } ∷ ghost ∷ []; next_id = 3 }

claimed : claim_due 45 (pos 2) table ≡ (claimed_table, record sweep { started_at = some 45 } ∷ [])
unfolding claim_due candidates order keep claim_loop update_where any_row
claimed = refl

sweep_claimed : Memᴰ (record sweep { started_at = some 45 }) (claim_due 45 (pos 2) table).1
sweep_claimed =
    subst (λ x. Memᴰ (record sweep { started_at = some 45 }) x.1) (sym claimed) (Memᴰ.head refl)

unknown : contains runner.jobs ghost.name ≡ false
unfolding contains bytes_eq
unknown = refl

known : contains runner.jobs sweep.name ≡ true
unfolding contains bytes_eq
known = refl

periodic : contains periodic_names sweep.name ≡ true
unfolding contains bytes_eq
periodic = refl

named : (sweep.name =? []) ≡ false
unfolding bytes_eq
named = refl

ghost_row : row_of 2 table.rows ≡ some ghost
unfolding row_of
ghost_row = refl

sweep_row : row_of 1 table.rows ≡ some sweep
unfolding row_of
sweep_row = refl

deliveries_drop_example :
    (row' : Row) × (row_of 2 (deliveries 4 runner 60 61 2 table).rows ≡ some row')
    × (row'.attempts ≡ 3)
    × (row'.completed_at ≡ some 61)
deliveries_drop_example =
    deliveries_drop runner 61 2 refl 3 60 table ghost ghost_row refl unknown refl

open_rows-run_one_example :
    open_rows (text "locks.expire") (run_one runner 60 61 none sweep table)
    ≡ open_rows (text "locks.expire") table
open_rows-run_one_example =
    open_rows-run_one runner 60 61 none sweep table known periodic named refl ((refl, tt), (tt, tt))
      sweep_row refl

open_rows-start_example :
    open_rows (text "locks.expire") (start runner 60 table).1
    ≡ times_started runner (text "locks.expire") periodic_names
      + open_rows (text "locks.expire") table
open_rows-start_example = open_rows-start runner 60 (text "locks.expire") table refl

abbrev started : Row
started = record sweep { started_at = some 45 }

-- Between two claims the other row is claimed, fails, and a new row comes in.
later-Steps :
    Steps 1
      (claim_due 45 (pos 2) table).0
      (fail 2 (text "gone") 90 (claim_due 50 (pos 2) (claim_due 45 (pos 2) table).0).0)
later-Steps =
    Steps.next (Steps.next Steps.here (Step.claims 50 (pos 2) _))
      (Step.fails 2 (text "gone") 90 _ refl)

claim_due-exclusive_example :
    All
      (λ c. (c.id == 1) ≡ false)
      (claim_due 95
        (pos 2)
        (fail 2 (text "gone") 90 (claim_due 50 (pos 2) (claim_due 45 (pos 2) table).0).0)).1
claim_due-exclusive_example =
    claim_due-exclusive 45 95 (pos 2) (pos 2) table
      (fail 2 (text "gone") 90 (claim_due 50 (pos 2) (claim_due 45 (pos 2) table).0).0) started
      sweep_claimed (omega arith) later-Steps
