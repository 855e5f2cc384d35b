-- ===== src/Jobs/Unknown.antt =====
-- A row whose name no job knows is retried three times and dropped at its fourth delivery.
use nextcloud_go.Prelude.{
  ℕ, zero, suc, ◌+◌, ◌≤◌, ◌<◌, true, false, Option, none, some, List, [], ◌∷◌, Bytes, ◌≡◌, refl,
  ◌∙◌, ap, le→leb, lt→leb, ◌==◌, bytes_equality, contains, if◌then◌else◌, arith, Bool-cases, inl,
  inr,
}
use nextcloud_go.Jobs.Store.{Row, JobTable, update_where, has_id, complete, fail}
use nextcloud_go.Jobs.Runner.{Runner, run_one, unknown_text, max_unknown_job_attempts}

-- The row with an id.
unfoldable pub row_of : ℕ → List Row → Option Row
row_of id [] = none
row_of id (r ∷ rows) = let rest = row_of id rows in if has_id id r then some r else rest

abbrev pub map_row : (Row → Row) → Option Row → Option Row
map_row f none = none
map_row f (some r) = some (f r)

pub row_of-update_where :
    (id : ℕ) (f : Row → Row) (rows : List Row)
    → ((r : Row) → has_id id r ≡ true → has_id id (f r) ≡ true)
    → row_of id (update_where (has_id id) f rows) ≡ map_row f (row_of id rows)
unfolding row_of update_where
row_of-update_where id f [] k = refl
row_of-update_where id f (r ∷ rows) k = elim (Bool-cases (has_id id r)) [
  | inl e ↦ ground (arith, k r e, row_of-update_where id f rows k)
  | inr e ↦ ground (arith, row_of-update_where id f rows k)
]

pub row_of-complete :
    (wall id : ℕ) (t : JobTable)
    → (id == 0) ≡ false
    → row_of id (complete wall id t).rows
      ≡ map_row (λ r. record r { completed_at = some wall }) (row_of id t.rows)
unfolding complete
row_of-complete wall id t e =
    rw e (row_of-update_where id (λ r. record r { completed_at = some wall }) t.rows (λ r h. h))

-- What Fail makes of the row.
abbrev pub failed : Bytes → ℕ → Row → Row
failed text at r = record r {
  run_at = at;
  started_at = none;
  last_error = text;
  attempts = r.attempts + 1;
}

pub row_of-fail :
    (id : ℕ) (text : Bytes) (at : ℕ) (t : JobTable)
    → (id == 0) ≡ false
    → row_of id (fail id text at t).rows ≡ map_row (failed text at) (row_of id t.rows)
unfolding fail
row_of-fail id text at t e = rw e (row_of-update_where id (failed text at) t.rows (λ r h. h))

abbrev run_found : Runner → ℕ → ℕ → Option Bytes → Option Row → JobTable → JobTable
run_found r now wall outcome none t = t
run_found r now wall outcome (some row) t = run_one r now wall outcome row t

-- n deliveries of the row with an id, each `gap` later than the one before.
unfoldable pub deliveries : ℕ → Runner → ℕ → ℕ → ℕ → JobTable → JobTable
deliveries zero r now wall id t = t
deliveries (suc n) r now wall id t =
    deliveries n r (now + r.poll) wall id (run_found r now wall none (row_of id t.rows) t)

module _ (r : Runner) (wall id : ℕ) (real : (id == 0) ≡ false) where
  -- A delivery of a row of no known job, with the attempts that the runner has seen.
  delivered_low :
      (now : ℕ) (t : JobTable) (row : Row)
      → row_of id t.rows ≡ some row
      → row.id ≡ id
      → contains r.jobs row.name ≡ false
      → row.attempts < max_unknown_job_attempts
      → row_of id (run_one r now wall none row t).rows
        ≡ some (failed unknown_text (now + r.poll) row)
  unfolding run_one
  delivered_low now t row found same unknown few =
      rw (unknown, lt→leb max_unknown_job_attempts row.attempts few)
        (ap (λ k. row_of id (fail k unknown_text (now + r.poll) t).rows) same
          ∙ (row_of-fail id unknown_text (now + r.poll) t real
              ∙ ap (map_row (failed unknown_text (now + r.poll))) found))

  delivered_high :
      (now : ℕ) (t : JobTable) (row : Row)
      → row_of id t.rows ≡ some row
      → row.id ≡ id
      → contains r.jobs row.name ≡ false
      → max_unknown_job_attempts ≤ row.attempts
      → row_of id (run_one r now wall none row t).rows
        ≡ some (record row { completed_at = some wall })
  unfolding run_one
  delivered_high now t row found same unknown many =
      rw (unknown, le→leb max_unknown_job_attempts row.attempts many)
        (ap (λ k. row_of id (complete wall k t).rows) same
          ∙ (row_of-complete wall id t real
              ∙ ap (map_row (λ x. record x { completed_at = some wall })) found))

  -- An open row under a name that no registered job has: while there are attempts left, each
  -- delivery puts the row back, open, with one attempt more.
  pub deliveries_retry :
      (n now : ℕ) (t : JobTable) (row : Row)
      → row_of id t.rows ≡ some row
      → row.id ≡ id
      → contains r.jobs row.name ≡ false
      → row.attempts + n ≤ max_unknown_job_attempts
      → row.completed_at ≡ none
      → (row' : Row) × (row_of id (deliveries n r now wall id t).rows ≡ some row')
        × (row'.id ≡ id)
        × (row'.name ≡ row.name)
        × (row'.attempts ≡ row.attempts + n)
        × (row'.completed_at ≡ none)
  unfolding deliveries
  deliveries_retry zero now t row found same unknown few unfinished =
      (row, found, same, refl, omega arith, unfinished)
  deliveries_retry (suc n) now t row found same unknown few unfinished =
      let row1 = failed unknown_text (now + r.poll) row in
      let after = delivered_low now t row found same unknown (omega arith) in
      let (row', f, i, m, a, c) =
        deliveries_retry n (now + r.poll) (run_one r now wall none row t) row1 after same unknown
          (omega arith) unfinished in
      (
        row',
        ap
              (λ o.
                row_of id
                  (deliveries n r (now + r.poll) wall id (run_found r now wall none o t)).rows)
              found
            ∙ f,
        i,
        m,
        omega (arith, a),
        c,
      )

  -- A row under a name that no registered job has, with `n` attempts left: the delivery behind
  -- those completes the row, which is dropped with its attempts used up.
  pub deliveries_drop :
      (n now : ℕ) (t : JobTable) (row : Row)
      → row_of id t.rows ≡ some row
      → row.id ≡ id
      → contains r.jobs row.name ≡ false
      → row.attempts + n ≡ max_unknown_job_attempts
      → (row' : Row) × (row_of id (deliveries (suc n) r now wall id t).rows ≡ some row')
        × (row'.attempts ≡ max_unknown_job_attempts)
        × (row'.completed_at ≡ some wall)
  unfolding deliveries
  deliveries_drop zero now t row found same unknown all = (
    record row { completed_at = some wall },
    ap (λ o. row_of id (run_found r now wall none o t).rows) found
        ∙ delivered_high now t row found same unknown (omega arith),
    omega arith,
    refl,
  )
  deliveries_drop (suc n) now t row found same unknown all =
      let row1 = failed unknown_text (now + r.poll) row in
      let after = delivered_low now t row found same unknown (omega arith) in
      let (row', f, a, c) =
        deliveries_drop n (now + r.poll) (run_one r now wall none row t) row1 after same unknown
          (omega arith) in
      (
        row',
        ap
              (λ o.
                row_of id
                  (deliveries (suc n) r (now + r.poll) wall id
                    (run_found r now wall none o t)).rows)
              found
            ∙ f,
        a,
        c,
      )
