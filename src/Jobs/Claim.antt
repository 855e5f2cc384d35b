-- ===== src/Jobs/Claim.antt =====
-- A claimed row is not claimed again until its run has failed; a claim stays within its limit.
use nextcloud_go.Prelude.{
  ℕ, zero, suc, ◌+◌, ◌≤◌, ◌<◌, Bool, true, false, not, ◌&&◌, ◌||◌, none, some, List, [], ◌∷◌, ◌++◌,
  Bytes, ◌≡◌, refl, sym, ap, subst, ◌∙◌, ◌==◌, ==_iff, ◌=?◌, bytes_equality, if◌then◌else◌, length,
  keep, take, All, arith, Bool-cases, inl, inr, ℤ,
}
use mathlib.Core.List.{Memᴰ}
use nextcloud_go.Jobs.Store.{
  Row, JobTable, insert, waiting, due, order, candidates, update_where, has_id, any_row, start_at,
  claim_loop, limit_of, claim_due, complete, fail, delete_by_name,
}

abbrev open_id : ℕ → Row → Bool
open_id i r = has_id i r && waiting r

-- No row with this id waits, and the id has been given out.
pub record IsTaken (i : ℕ) (t : JobTable) : Type 0 where
  pub given : i < t.next_id
  pub none_waits : any_row (open_id i) t.rows ≡ false

taken-update :
    (i : ℕ) (p : Row → Bool) (f : Row → Row) (rows : List Row)
    → ((r : Row) → p r ≡ true → open_id i r ≡ false → open_id i (f r) ≡ false)
    → any_row (open_id i) rows ≡ false
    → any_row (open_id i) (update_where p f rows) ≡ false
unfolding any_row update_where
taken-update i p f [] k h = refl
taken-update i p f (r ∷ rows) k h = elim (Bool-cases (p r)) [
  | inl e ↦ ground (arith, k r e, taken-update i p f rows k (ground arith))
  | inr e ↦ ground (arith, taken-update i p f rows k (ground arith))
]

taken-started :
    (i now : ℕ) (p : Row → Bool) (rows : List Row)
    → any_row (open_id i) rows ≡ false
    → any_row (open_id i) (update_where p (start_at now) rows) ≡ false
taken-started i now p rows h = taken-update i p (start_at now) rows (λ r e o. ground arith) h

-- The UPDATE of a claim leaves no row of the id waiting.
started_taken :
    (i now : ℕ) (rows : List Row)
    → any_row (open_id i) (update_where (open_id i) (start_at now) rows) ≡ false
unfolding any_row update_where
started_taken i now [] = refl
started_taken i now (r ∷ rows) = elim (Bool-cases (open_id i r)) [
  | inl e ↦ ground (arith, started_taken i now rows)
  | inr e ↦ ground (arith, started_taken i now rows)
]

claim_loop-taken :
    (i now : ℕ) (cs rows : List Row)
    → any_row (open_id i) rows ≡ false
    → any_row (open_id i) (claim_loop now cs rows).0 ≡ false
unfolding claim_loop
claim_loop-taken i now [] rows h = h
claim_loop-taken i now (c ∷ cs) rows h =
    claim_loop-taken i now cs (update_where (open_id c.id) (start_at now) rows)
      (taken-started i now (open_id c.id) rows h)

other_id :
    (i j : ℕ) (rows : List Row)
    → any_row (open_id j) rows ≡ true
    → any_row (open_id i) rows ≡ false
    → (j == i) ≡ false
other_id i j rows e h = elim (Bool-cases (j == i)) [
  | inl same ↦
      let clash : true ≡ false =
        sym e ∙ (ap (λ k. any_row (open_id k) rows) ((==_iff j i).0 same) ∙ h) in
      cc
  | inr other ↦ other
]

-- Nothing with a taken id is claimed.
claim_loop-skips :
    (i now : ℕ) (cs rows : List Row)
    → any_row (open_id i) rows ≡ false
    → All (λ d. (d.id == i) ≡ false) (claim_loop now cs rows).1
unfolding claim_loop
claim_loop-skips i now [] rows h = tt
claim_loop-skips i now (c ∷ cs) rows h = go (any_row (open_id c.id) rows) refl (
    claim_loop-skips i now cs (update_where (open_id c.id) (start_at now) rows)
      (taken-started i now (open_id c.id) rows h))
  where
    go :
        (b : Bool)
        → any_row (open_id c.id) rows ≡ b
        → All
            (λ d. (d.id == i) ≡ false)
            (claim_loop now cs (update_where (open_id c.id) (start_at now) rows)).1
        → All
            (λ d. (d.id == i) ≡ false)
            (if b
              then start_at now c
                ∷ (claim_loop now cs (update_where (open_id c.id) (start_at now) rows)).1
              else (claim_loop now cs (update_where (open_id c.id) (start_at now) rows)).1)
    go true e a = (other_id i c.id rows e h, a)
    go false e a = a

-- What is claimed is taken afterwards.
claim_loop-takes :
    (now : ℕ) (cs rows : List Row)
    → All
        (λ d. any_row (open_id d.id) (claim_loop now cs rows).0 ≡ false)
        (claim_loop now cs rows).1
unfolding claim_loop
claim_loop-takes now [] rows = tt
claim_loop-takes now (c ∷ cs) rows =
    go (any_row (open_id c.id) rows)
      (claim_loop-taken c.id now cs (update_where (open_id c.id) (start_at now) rows)
        (started_taken c.id now rows))
      (claim_loop-takes now cs (update_where (open_id c.id) (start_at now) rows))
  where
    go :
        (b : Bool)
        → any_row
            (open_id c.id)
            (claim_loop now cs (update_where (open_id c.id) (start_at now) rows)).0
          ≡ false
        → All
            (λ d.
              any_row
                (open_id d.id)
                (claim_loop now cs (update_where (open_id c.id) (start_at now) rows)).0
              ≡ false)
            (claim_loop now cs (update_where (open_id c.id) (start_at now) rows)).1
        → All
            (λ d.
              any_row
                (open_id d.id)
                (claim_loop now cs (update_where (open_id c.id) (start_at now) rows)).0
              ≡ false)
            (if b
              then start_at now c
                ∷ (claim_loop now cs (update_where (open_id c.id) (start_at now) rows)).1
              else (claim_loop now cs (update_where (open_id c.id) (start_at now) rows)).1)
    go true h a = (h, a)
    go false h a = a

any_row-append :
    (p : Row → Bool) (xs ys : List Row) → any_row p (xs ++ ys) ≡ (any_row p xs || any_row p ys)
unfolding any_row
any_row-append p [] ys = refl
any_row-append p (x ∷ xs) ys = ground (arith, any_row-append p xs ys)

any_row-keep :
    (p q : Row → Bool) (xs : List Row) → any_row p xs ≡ false → any_row p (keep q xs) ≡ false
unfolding any_row keep
any_row-keep p q [] h = refl
any_row-keep p q (x ∷ xs) h = ground (arith, any_row-keep p q xs)

-- What the rest of the program may do to the table while a row with this id is in work: claims,
-- completions, new rows, deletions, and failures of other rows.
pub data Step (i : ℕ) : JobTable → JobTable → Type 0 where
  claims : (now : ℕ) (limit : ℤ) (t : JobTable) → Step i t (claim_due now limit t).0
  completes : (wall j : ℕ) (t : JobTable) → Step i t (complete wall j t)
  fails : (j : ℕ) (e : Bytes) (at : ℕ) (t : JobTable) → (j == i) ≡ false → Step i t (fail j e at t)
  inserts : (wall : ℕ) (r : Row) (t : JobTable) → Step i t (insert wall t r).0
  deletes : (name : Bytes) (t : JobTable) → Step i t (delete_by_name name t)

pub data Steps (i : ℕ) (s : JobTable) : JobTable → Type 0 where
  here : Steps i s s
  next : {t u : JobTable} → Steps i s t → Step i t u → Steps i s u

insert-IsTaken : (i wall : ℕ) (r : Row) (t : JobTable) → IsTaken i t → IsTaken i (insert wall t r).0
unfolding insert
insert-IsTaken i wall r t h = elim (Bool-cases (r.name =? [])) [
  | inl e ↦ rw e h
  | inr e ↦ rw e (record {
    given = omega (arith, h.given);
    none_waits = rw (any_row-append, h.none_waits) (unfold any_row in ground (arith, h.given));
  })
]

complete-IsTaken : (i wall j : ℕ) (t : JobTable) → IsTaken i t → IsTaken i (complete wall j t)
unfolding complete
complete-IsTaken i wall j t h = elim (Bool-cases (j == 0)) [
  | inl e ↦ rw e h
  | inr e ↦ rw e (record {
    given = h.given;
    none_waits =
        taken-update i (has_id j) (λ r. record r { completed_at = some wall }) t.rows
          (λ r p o. ground arith) h.none_waits;
  })
]

fail-IsTaken :
    (i j : ℕ) (e : Bytes) (at : ℕ) (t : JobTable)
    → (j == i) ≡ false
    → IsTaken i t
    → IsTaken i (fail j e at t)
unfolding fail
fail-IsTaken i j x at t ne h = elim (Bool-cases (j == 0)) [
  | inl e ↦ rw e h
  | inr e ↦ rw e (record {
    given = h.given;
    none_waits =
        taken-update i (has_id j)
          (λ r. record r {
            run_at = at;
            started_at = none;
            last_error = x;
            attempts = r.attempts + 1;
          })
          t.rows (λ r p o. ground arith) h.none_waits;
  })
]

Step-IsTaken : {i : ℕ} {t u : JobTable} → Step i t u → IsTaken i t → IsTaken i u
unfolding claim_due delete_by_name
Step-IsTaken {i = i} (claims now limit t) h = record {
  given = h.given;
  none_waits = claim_loop-taken i now (candidates now (limit_of limit) t.rows) t.rows h.none_waits;
}
Step-IsTaken {i = i} (completes wall j t) h = complete-IsTaken i wall j t h
Step-IsTaken {i = i} (fails j e at t ne) h = fail-IsTaken i j e at t ne h
Step-IsTaken {i = i} (inserts wall r t) h = insert-IsTaken i wall r t h
Step-IsTaken {i = i} (deletes name t) h = record {
  given = h.given;
  none_waits = any_row-keep (open_id i) (λ r. not (r.name =? name)) t.rows h.none_waits;
}

Steps-IsTaken : {i : ℕ} {s t : JobTable} → IsTaken i s → Steps i s t → IsTaken i t
Steps-IsTaken h here = h
Steps-IsTaken h (next r st) = Step-IsTaken st (Steps-IsTaken h r)

-- The claimed rows, each taken in the table that the claim leaves.
pub claim_due-takes :
    (now : ℕ) (limit : ℤ) (t : JobTable)
    → All
        (λ d. any_row (open_id d.id) (claim_due now limit t).0.rows ≡ false)
        (claim_due now limit t).1
unfolding claim_due
claim_due-takes now limit t = claim_loop-takes now (candidates now (limit_of limit) t.rows) t.rows

All-Memᴰ {ℓ} : (P : Row → Type ℓ) (d : Row) (rows : List Row) → Memᴰ d rows → All P rows → P d
All-Memᴰ P d [] m h = elim m [ ]
All-Memᴰ P d (r ∷ rows) (Memᴰ.head e) h = subst P (sym e) h.0
All-Memᴰ P d (r ∷ rows) (Memᴰ.tail m) h = All-Memᴰ P d rows m h.1

-- A row that one claim returns, under an id that the table has given out, is returned by no later
-- claim, whatever claims, completions, insertions, deletions by name and failures of other rows
-- lie in between.
pub claim_due-exclusive :
    (now now' : ℕ) (limit limit' : ℤ) (s t : JobTable) (d : Row)
    → Memᴰ d (claim_due now limit s).1
    → d.id < s.next_id
    → Steps d.id (claim_due now limit s).0 t
    → All (λ c. (c.id == d.id) ≡ false) (claim_due now' limit' t).1
unfolding claim_due
claim_due-exclusive now now' limit limit' s t d m given steps =
    let taken : IsTaken d.id (claim_due now limit s).0 = record {
      given = given;
      none_waits =
          All-Memᴰ (λ c. any_row (open_id c.id) (claim_due now limit s).0.rows ≡ false) d
            (claim_due now limit s).1 m (claim_due-takes now limit s);
    } in
    claim_loop-skips d.id now' (candidates now' (limit_of limit') t.rows) t.rows
      (Steps-IsTaken taken steps).none_waits

length-take_le {ℓ} : {A : Type ℓ} (n : ℕ) (xs : List A) → length (take n xs) ≤ n
length-take_le zero xs = omega arith
length-take_le (suc n) [] = omega arith
length-take_le (suc n) (x ∷ xs) = omega (arith, length-take_le n xs)

length-claim_loop : (now : ℕ) (cs rows : List Row) → length (claim_loop now cs rows).1 ≤ length cs
unfolding claim_loop
length-claim_loop now [] rows = omega arith
length-claim_loop now (c ∷ cs) rows =
    ground (arith, length-claim_loop now cs (update_where (open_id c.id) (start_at now) rows))

-- A claim returns no more rows than its limit, and at most one where the limit is not positive.
pub length-claim_due :
    (now : ℕ) (limit : ℤ) (t : JobTable) → length (claim_due now limit t).1 ≤ limit_of limit
unfolding claim_due candidates
length-claim_due now limit t = omega (
  arith,
  length-claim_loop now (candidates now (limit_of limit) t.rows) t.rows,
  length-take_le (limit_of limit) (order (keep (due now) t.rows)),
)
