-- ===== src/Jobs/Store.antt =====
-- internal/jobs/store.go: the statements of SQLStore on the table jobs. The table is a list of rows
-- with the next id; times are milliseconds, and `none` is NULL. The database answers every
-- statement.
use nextcloud_go.Prelude.{
  ℕ, zero, suc, ◌+◌, Bool, true, false, not, ◌&&◌, ◌||◌, Option, none, some, List, [], ◌∷◌, ◌++◌,
  Bytes, ltb, leb, ◌==◌, ◌=?◌, bytes_equality, if◌then◌else◌, keep, take, ℤ, pos, negsuc,
}

pub record Row : Type 0 where
  pub id : ℕ
  pub name : Bytes
  pub payload : Bytes
  pub run_at : ℕ
  pub started_at : Option ℕ
  pub completed_at : Option ℕ
  pub last_error : Bytes
  pub attempts : ℕ
  pub created_at : ℕ

pub record JobTable : Type 0 where
  pub rows : List Row
  pub next_id : ℕ

abbrev pub is_none {ℓ} : {A : Type ℓ} → Option A → Bool
is_none none = true
is_none (some a) = false

-- Insert: whether the row was accepted. `wall` is the time for a row with no creation time.
unfoldable pub insert : ℕ → JobTable → Row → JobTable × Bool
insert wall t r = if r.name =? [] then (t, false) else (
  record {
    rows =
        t.rows
        ++ (record r {
          id = t.next_id;
          started_at = none;
          completed_at = none;
          created_at = if r.created_at == 0 then wall else r.created_at;
        }
            ∷ []);
    next_id = suc t.next_id;
  },
  true,
)

-- WHERE started_at IS NULL AND completed_at IS NULL AND run_at <= ?
abbrev pub waiting : Row → Bool
waiting r = is_none r.started_at && is_none r.completed_at

abbrev pub due : ℕ → Row → Bool
due now r = waiting r && leb r.run_at now

-- ORDER BY run_at, id
abbrev pub before : Row → Row → Bool
before a b = ltb a.run_at b.run_at || a.run_at == b.run_at && leb a.id b.id

insert_sorted : Row → List Row → List Row
insert_sorted r [] = r ∷ []
insert_sorted r (s ∷ rows) =
    let rest = insert_sorted r rows in if before r s then r ∷ s ∷ rows else s ∷ rest

unfoldable pub order : List Row → List Row
unfolding insert_sorted
order [] = []
order (r ∷ rows) = insert_sorted r (order rows)

-- The SELECT of ClaimDue.
unfoldable pub candidates : ℕ → ℕ → List Row → List Row
unfolding order keep
candidates now limit rows = take limit (order (keep (due now) rows))

-- UPDATE jobs SET … WHERE id = ? AND …
unfoldable pub update_where : (Row → Bool) → (Row → Row) → List Row → List Row
update_where p f [] = []
update_where p f (r ∷ rows) = (if p r then f r else r) ∷ update_where p f rows

abbrev pub has_id : ℕ → Row → Bool
has_id id r = r.id == id

unfoldable pub any_row : (Row → Bool) → List Row → Bool
any_row p [] = false
any_row p (r ∷ rows) = p r || any_row p rows

abbrev pub start_at : ℕ → Row → Row
start_at now r = record r { started_at = some now }

-- The loop of ClaimDue over the candidates: a row is claimed if the UPDATE affects it.
unfoldable pub claim_loop : ℕ → List Row → List Row → List Row × List Row
unfolding update_where any_row
claim_loop now [] rows = (rows, [])
claim_loop now (c ∷ cs) rows =
    let hit = λ (r : Row). has_id c.id r && waiting r in
    let (rows', claimed) = claim_loop now cs (update_where hit (start_at now) rows) in
    (rows', if any_row hit rows then start_at now c ∷ claimed else claimed)

abbrev pub limit_of : ℤ → ℕ
limit_of (pos zero) = 1
limit_of (pos (suc n)) = suc n
limit_of (negsuc n) = 1

-- ClaimDue
unfoldable pub claim_due : ℕ → ℤ → JobTable → JobTable × List Row
unfolding claim_loop candidates
claim_due now limit t =
    let (rows, claimed) = claim_loop now (candidates now (limit_of limit) t.rows) t.rows in
    (record t { rows = rows }, claimed)

-- Complete
unfoldable pub complete : ℕ → ℕ → JobTable → JobTable
unfolding update_where
complete wall id t = if id == 0 then t else record t {
  rows = update_where (has_id id) (λ r. record r { completed_at = some wall }) t.rows;
}

-- Fail
unfoldable pub fail : ℕ → Bytes → ℕ → JobTable → JobTable
unfolding update_where
fail id err_text retry_at t = if id == 0 then t else record t {
  rows =
      update_where (has_id id)
        (λ r. record r {
          run_at = retry_at;
          started_at = none;
          last_error = err_text;
          attempts = r.attempts + 1;
        })
        t.rows;
}

-- DeleteByName
unfoldable pub delete_by_name : Bytes → JobTable → JobTable
unfolding keep
delete_by_name name t = record t { rows = keep (λ r. not (r.name =? name)) t.rows }
