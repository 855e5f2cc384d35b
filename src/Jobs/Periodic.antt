-- ===== src/Jobs/Periodic.antt =====
-- How many rows of a name are open, through runs and starts.
use nextcloud_go.Prelude.{
  ℕ, ◌+◌, Bool, true, false, ◌&&◌, Option, none, some, List, [], ◌∷◌, ◌++◌, Bytes, ◌≡◌, refl, subst,
  ◌∙◌, ap, ◌==◌, ◌=?◌, beq_refl, bytes_equality, bytes_eq, contains, All, arith, Bool-cases, inl,
  inr, count_if,
}
use nextcloud_go.Jobs.Store.{Row, JobTable, is_none, insert, update_where, has_id, complete, fail}
use nextcloud_go.Jobs.Unknown.{row_of, failed}
use nextcloud_go.Jobs.Runner.{
  Runner, RunnerError, periodic_names, enqueue, start_loop, started_if, start, run_one,
}

abbrev pub open_row : Bytes → Row → Bool
open_row name r = r.name =? name && is_none r.completed_at

-- The rows of a name that have not run to their end.
unfoldable pub open_rows : Bytes → JobTable → ℕ
unfolding count_if
open_rows name t = count_if (open_row name) t.rows

abbrev pub UniqueIds : List Row → Type 0
UniqueIds [] = Unit
UniqueIds (r ∷ rows) = All (λ s. (s.id == r.id) ≡ false) rows × UniqueIds rows

count_if-append :
    (p : Row → Bool) (xs ys : List Row) → count_if p (xs ++ ys) ≡ count_if p xs + count_if p ys
unfolding count_if
count_if-append p [] ys = omega arith
count_if-append p (x ∷ xs) ys = ground (arith, count_if-append p xs ys)

update_elsewhere :
    (id : ℕ) (f : Row → Row) (rows : List Row)
    → All (λ s. (s.id == id) ≡ false) rows
    → update_where (has_id id) f rows ≡ rows
unfolding update_where
update_elsewhere id f [] h = refl
update_elsewhere id f (r ∷ rows) h = ground (arith, update_elsewhere id f rows h.1)

abbrev one : Bool → ℕ
one true = 1
one false = 0

count_if-cons :
    (p : Row → Bool) (x : Row) (xs : List Row) → count_if p (x ∷ xs) ≡ one (p x) + count_if p xs
unfolding count_if
count_if-cons p x xs = ground arith

-- Replacing the row of an id changes the count by what the row counts before and after.
count_if-update :
    (p : Row → Bool) (id : ℕ) (f : Row → Row) (rows : List Row) (r : Row)
    → UniqueIds rows
    → row_of id rows ≡ some r
    → count_if p (update_where (has_id id) f rows) + one (p r) ≡ count_if p rows + one (p (f r))
unfolding update_where row_of
count_if-update p id f [] r u h = absurd (cc)
count_if-update p id f (s ∷ rows) r u h = elim (Bool-cases (has_id id s)) [
  | inl e ↦
      let same : s ≡ r = ground arith in
      let i : s.id ≡ id = ground arith in
      let rest =
        update_elsewhere id f rows
          (subst (λ (k : ℕ). All (λ (q : Row). (q.id == k) ≡ false) rows) i u.0) in
      rw (e, rest, count_if-cons p (f s) rows, count_if-cons p s rows)
        (omega (arith, ap (λ x. one (p x)) same, ap (λ x. one (p (f x))) same))
  | inr e ↦
      rw (e, count_if-cons p s (update_where (has_id id) f rows), count_if-cons p s rows)
        (omega (arith, count_if-update p id f rows r u.1 (rw e at h)))
]

open_rows-complete :
    (name : Bytes) (wall id : ℕ) (t : JobTable) (r : Row)
    → (id == 0) ≡ false
    → UniqueIds t.rows
    → row_of id t.rows ≡ some r
    → open_row name r ≡ true
    → open_rows name (complete wall id t) + 1 ≡ open_rows name t
unfolding open_rows complete
open_rows-complete name wall id t r real u h o =
    let step =
      count_if-update (open_row name) id (λ x. record x { completed_at = some wall }) t.rows r u
        h in
    rw real (ground (arith, step))

open_rows-fail :
    (name : Bytes) (id : ℕ) (x : Bytes) (at : ℕ) (t : JobTable) (r : Row)
    → (id == 0) ≡ false
    → UniqueIds t.rows
    → row_of id t.rows ≡ some r
    → open_rows name (fail id x at t) ≡ open_rows name t
unfolding open_rows fail
open_rows-fail name id x at t r real u h =
    let step = count_if-update (open_row name) id (failed x at) t.rows r u h in
    rw real (omega (arith, step))

-- A row that Enqueue adds is open, and counts for its own name alone.
pub open_rows-enqueue :
    (r : Runner) (now : ℕ) (name other payload : Bytes) (run_at : ℕ) (t : JobTable)
    → contains r.jobs name ≡ true
    → (name =? []) ≡ false
    → open_rows other (enqueue r now name payload run_at t).0
      ≡ one (name =? other) + open_rows other t
unfolding open_rows enqueue insert
open_rows-enqueue r now name other payload run_at t known named =
    rw (known, named, count_if-append) (unfold count_if in ground arith)

-- A run of a registered periodic job on an open row of a table with distinct ids, good or bad,
-- leaves as many open rows of the name as it found: the completed row is replaced by the next one.
pub open_rows-run_one :
    (r : Runner) (now wall : ℕ) (outcome : Option Bytes) (row : Row) (t : JobTable)
    → contains r.jobs row.name ≡ true
    → contains periodic_names row.name ≡ true
    → (row.name =? []) ≡ false
    → (row.id == 0) ≡ false
    → UniqueIds t.rows
    → row_of row.id t.rows ≡ some row
    → row.completed_at ≡ none
    → open_rows row.name (run_one r now wall outcome row t) ≡ open_rows row.name t
unfolding run_one
open_rows-run_one r now wall (some e) row t known periodic named real u found unfinished =
    rw known (open_rows-fail row.name row.id e (now + r.poll) t row real u found)
open_rows-run_one r now wall none row t known periodic named real u found unfinished =
    rw (known, periodic)
      (omega (
        arith,
        open_rows-enqueue r now row.name row.name [] (now + r.poll) (complete wall row.id t) known
            named,
        ap one (beq_refl row.name),
        open_rows-complete row.name wall row.id t row real u found
            (ground (arith, beq_refl row.name)),
      ))

-- How many of the names are registered and equal to one.
abbrev pub times_started : Runner → Bytes → List Bytes → ℕ
times_started r other [] = 0
times_started r other (name ∷ names) =
    one (contains r.jobs name && name =? other) + times_started r other names

enqueue_known :
    (r : Runner) (now : ℕ) (name payload : Bytes) (run_at : ℕ) (t : JobTable)
    → contains r.jobs name ≡ true
    → (name =? []) ≡ false
    → (enqueue r now name payload run_at t).1 ≡ none
unfolding enqueue insert
enqueue_known r now name payload run_at t known named = rw (known, named)

start_loop_known :
    (r : Runner) (now : ℕ) (name : Bytes) (names : List Bytes) (t : JobTable)
    → contains r.jobs name ≡ true
    → (enqueue r now name [] (now + r.poll) t).1 ≡ none
    → start_loop r now (name ∷ names) t
      ≡ start_loop r now names (enqueue r now name [] (now + r.poll) t).0
unfolding start_loop
start_loop_known r now name names t known fine = rw (known, start_loop) (rw (fine, start_loop) refl)

start_loop_unknown :
    (r : Runner) (now : ℕ) (name : Bytes) (names : List Bytes) (t : JobTable)
    → contains r.jobs name ≡ false
    → start_loop r now (name ∷ names) t ≡ start_loop r now names t
unfolding start_loop
start_loop_unknown r now name names t unknown = rw (unknown, start_loop) refl

start_loop-open_rows :
    (r : Runner) (now : ℕ) (other : Bytes) (names : List Bytes) (t : JobTable)
    → All (λ name. (name =? []) ≡ false) names
    → (open_rows other (start_loop r now names t).0
        ≡ times_started r other names + open_rows other t)
      × ((start_loop r now names t).1 ≡ none)
unfolding start_loop
start_loop-open_rows r now other [] t h = (omega arith, refl)
start_loop-open_rows r now other (name ∷ names) t h = elim (Bool-cases (contains r.jobs name)) [
  | inl known ↦
      let t' = (enqueue r now name [] (now + r.poll) t).0 in
      let (rest, fine) = start_loop-open_rows r now other names t' h.1 in
      let added = open_rows-enqueue r now name other [] (now + r.poll) t known h.0 in
      let step =
        start_loop_known r now name names t known
          (enqueue_known r now name [] (now + r.poll) t known h.0) in
      (
        ap (λ x. open_rows other x.0) step ∙ (rest ∙ rw known (omega (arith, added))),
        ap (λ x. x.1) step ∙ fine,
      )
  | inr unknown ↦
      let (rest, fine) = start_loop-open_rows r now other names t h.1 in
      let step = start_loop_unknown r now name names t unknown in
      (
        ap (λ x. open_rows other x.0) step ∙ (rest ∙ rw unknown (omega arith)),
        ap (λ x. x.1) step ∙ fine,
      )
]

started_if-table : (r : Runner) (x : JobTable × Option RunnerError) → (started_if r x).1 ≡ x.0
started_if-table r (t, none) = refl
started_if-table r (t, some e) = refl

-- Every start of a stopped runner adds one open row for each periodic job that is registered,
-- whatever rows the table holds already.
pub open_rows-start :
    (r : Runner) (now : ℕ) (other : Bytes) (t : JobTable)
    → r.started ≡ false
    → open_rows other (start r now t).1 ≡ times_started r other periodic_names + open_rows other t
unfolding start bytes_eq
open_rows-start r now other t stopped = simp stopped (
    ap (open_rows other) (started_if-table r (start_loop r now periodic_names t))
    ∙ (start_loop-open_rows r now other periodic_names t named).0)
  where
    named : All (λ name. (name =? []) ≡ false) periodic_names
    named = (refl, (refl, (refl, (refl, (refl, tt)))))
