-- ===== src/Jobs/Runner.antt =====
-- internal/jobs/runner.go. A registered job is known by its name; what its Run returns is an
-- argument of the round that runs it (`none` is nil, else the text of the error). The store's
-- statements succeed.
use nextcloud_go.Prelude.{
  ℕ, zero, suc, ◌+◌, Bool, true, false, not, Option, none, some, List, [], ◌∷◌, Bytes, text, leb,
  ◌=?◌, bytes_equality, if◌then◌else◌, contains, keep, ℤ, pos, negsuc,
}
use nextcloud_go.Jobs.Store.{Row, JobTable, insert, claim_due, complete, fail}

abbrev pub max_unknown_job_attempts : ℕ
max_unknown_job_attempts = 3

abbrev pub periodic_names : List Bytes
periodic_names =
    text "shares.expire"
    ∷ text "locks.expire"
    ∷ text "preview.gc"
    ∷ text "wopi.tokens.gc"
    ∷ text "mail.sync"
    ∷ []

pub record Runner : Type 0 where
  pub workers : ℕ
  pub poll : ℕ
  pub jobs : List Bytes
  pub started : Bool

abbrev positive : ℕ → ℤ → ℕ
positive d (pos zero) = d
positive d (pos (suc n)) = suc n
positive d (negsuc n) = d

-- NewRunner; `poll` in milliseconds
unfoldable pub new_runner : ℤ → ℤ → Runner
new_runner workers poll = record {
  workers = positive 1 workers;
  poll = positive 5000 poll;
  jobs = [];
  started = false;
}

pub data RunnerError : Type 0 where
  invalid_job duplicate_job unknown_job invalid_row : RunnerError

-- Register; `none` is nil
unfoldable pub register : Runner → Bytes → Runner × Option RunnerError
unfolding contains
register r name =
    if name =? []
    then (r, some invalid_job)
    else if contains r.jobs name
    then (r, some duplicate_job)
    else (record r { jobs = name ∷ r.jobs }, none)

-- Unregister
unfoldable pub unregister : Runner → Bytes → Runner
unfolding keep
unregister r name = record r { jobs = keep (λ j. not (j =? name)) r.jobs }

abbrev pub job_row : Bytes → Bytes → ℕ → ℕ → Row
job_row name payload run_at created = record {
  id = 0;
  name = name;
  payload = payload;
  run_at = run_at;
  started_at = none;
  completed_at = none;
  last_error = [];
  attempts = 0;
  created_at = created;
}

-- Enqueue at the time `now`
unfoldable pub enqueue : Runner → ℕ → Bytes → Bytes → ℕ → JobTable → JobTable × Option RunnerError
unfolding contains insert
enqueue r now name payload run_at t =
    if not (contains r.jobs name)
    then (t, some unknown_job)
    else (let (t', accepted) = insert now t (job_row name payload run_at now) in
        (t', if accepted then none else some invalid_row))

-- The loop of Start over the periodic names.
unfoldable pub start_loop : Runner → ℕ → List Bytes → JobTable → JobTable × Option RunnerError
start_loop r now [] t = (t, none)
start_loop r now (name ∷ names) t =
    let (t', e) = enqueue r now name [] (now + r.poll) t in
    elim (contains r.jobs name) [
      | false ↦ start_loop r now names t
      | true ↦ elim e [ some x ↦ (t', some x) | none ↦ start_loop r now names t' ]
    ]

abbrev pub started_if :
    Runner → JobTable × Option RunnerError → Runner × JobTable × Option RunnerError
started_if r (t, none) = (record r { started = true }, t, none)
started_if r (t, some e) = (record r { started = false }, t, some e)

-- Start, up to the goroutines that it starts: worker and pollLoop are the callers of `claim_round`
-- and `run_one`.
unfoldable pub start : Runner → ℕ → JobTable → Runner × JobTable × Option RunnerError
start r now t = if r.started then (r, t, none) else started_if r (start_loop r now periodic_names t)

-- Stop
unfoldable pub stop : Runner → Runner
stop r = record r { started = false }

-- claim: the rows that go to the workers
unfoldable pub claim_round : Runner → ℕ → JobTable → JobTable × List Row
unfolding claim_due
claim_round r now t = claim_due now (pos r.workers) t

abbrev pub unknown_text : Bytes
unknown_text = text "jobs: unknown job"

-- runOne. `wall` is the clock of the machine, which Complete reads.
unfoldable pub run_one : Runner → ℕ → ℕ → Option Bytes → Row → JobTable → JobTable
run_one r now wall outcome row t =
    if not (contains r.jobs row.name)
    then (if leb max_unknown_job_attempts row.attempts
        then complete wall row.id t
        else fail row.id unknown_text (now + r.poll) t)
    else elim outcome [
      | some e ↦ fail row.id e (now + r.poll) t
      | none ↦
          if contains periodic_names row.name
          then (enqueue r now row.name [] (now + r.poll) (complete wall row.id t)).0
          else complete wall row.id t
    ]
