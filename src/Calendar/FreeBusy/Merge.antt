-- ===== src/Calendar/FreeBusy/Merge.antt =====
-- What mergeBusy keeps of the intervals, and how its answer looks.
use nextcloud_go.Prelude.{
  ℕ, ◌<◌, ◌≤◌, Bool, true, false, ◌&&◌, ◌||◌, List, [], ◌∷◌, ltb, leb, ◌≡◌, refl, ap, subst, ◌∙◌,
  any, All, arith, Bool-cases, inl, inr,
}
use nextcloud_go.Calendar.FreeBusy.{
  Interval, insert_by_start, sort_by_start, extended, coalesce, merge_sorted, merge_busy,
}

-- Whether an interval holds a time: from its start to before its end
abbrev pub holds : ℕ → Interval → Bool
holds t iv = leb iv.start t && ltb t iv.end

abbrev pub busy_at : ℕ → List Interval → Bool
unfolding any
busy_at t ivs = any (holds t) ivs

-- Between an interval and the next one there is a gap.
abbrev pub HasGaps : List Interval → Type 0
HasGaps [] = Unit {0}
HasGaps (x ∷ []) = Unit {0}
HasGaps (x ∷ y ∷ xs) = (x.end < y.start) × HasGaps (y ∷ xs)

abbrev StartsFrom : ℕ → List Interval → Type 0
StartsFrom n = All (λ iv. n ≤ iv.start)

abbrev IsSorted : List Interval → Type 0
IsSorted [] = Unit {0}
IsSorted (x ∷ xs) = StartsFrom x.start xs × IsSorted xs

or_swap : (a b c : Bool) → (a || (b || c)) ≡ (b || (a || c))
or_swap true true c = refl
or_swap true false c = refl
or_swap false b c = refl

or_assoc : (a b c : Bool) → ((a || b) || c) ≡ (a || (b || c))
or_assoc true b c = refl
or_assoc false b c = refl

busy_at-insert_by_start :
    (t : ℕ) (iv : Interval) (xs : List Interval)
    → busy_at t (insert_by_start iv xs) ≡ (holds t iv || busy_at t xs)
unfolding insert_by_start any
busy_at-insert_by_start t iv [] = refl
busy_at-insert_by_start t iv (x ∷ xs) = elim (Bool-cases (ltb x.start iv.start)) [
  | inl e ↦
      rw (e, busy_at-insert_by_start t iv xs) (or_swap (holds t x) (holds t iv) (busy_at t xs))
  | inr e ↦ rw e refl
]

busy_at-sort_by_start :
    (t : ℕ) (ivs : List Interval) → busy_at t (sort_by_start ivs) ≡ busy_at t ivs
unfolding sort_by_start any
busy_at-sort_by_start t [] = refl
busy_at-sort_by_start t (iv ∷ ivs) =
    busy_at-insert_by_start t iv (sort_by_start ivs)
    ∙ ap (λ b. holds t iv || b) (busy_at-sort_by_start t ivs)

StartsFrom-weaken : (m n : ℕ) (xs : List Interval) → m ≤ n → StartsFrom n xs → StartsFrom m xs
StartsFrom-weaken m n [] h s = tt
StartsFrom-weaken m n (x ∷ xs) h s = (omega (arith, h, s.0), StartsFrom-weaken m n xs h s.1)

StartsFrom-insert_by_start :
    (n : ℕ) (iv : Interval) (xs : List Interval)
    → n ≤ iv.start
    → StartsFrom n xs
    → StartsFrom n (insert_by_start iv xs)
unfolding insert_by_start
StartsFrom-insert_by_start n iv [] h s = (h, tt)
StartsFrom-insert_by_start n iv (x ∷ xs) h s = elim (Bool-cases (ltb x.start iv.start)) [
  | inl e ↦ rw e (s.0, StartsFrom-insert_by_start n iv xs h s.1)
  | inr e ↦ rw e (h, s)
]

insert_by_start-IsSorted :
    (iv : Interval) (xs : List Interval) → IsSorted xs → IsSorted (insert_by_start iv xs)
unfolding insert_by_start
insert_by_start-IsSorted iv [] h = (tt, tt)
insert_by_start-IsSorted iv (x ∷ xs) h = elim (Bool-cases (ltb x.start iv.start)) [
  | inl e ↦ rw e (
    StartsFrom-insert_by_start x.start iv xs (ground arith) h.0,
    insert_by_start-IsSorted iv xs h.1,
  )
  | inr e ↦
      let low : iv.start ≤ x.start = ground arith in
      rw e ((low, StartsFrom-weaken iv.start x.start xs low h.0), h)
]

sort_by_start-IsSorted : (ivs : List Interval) → IsSorted (sort_by_start ivs)
unfolding sort_by_start
sort_by_start-IsSorted [] = tt
sort_by_start-IsSorted (iv ∷ ivs) =
    insert_by_start-IsSorted iv (sort_by_start ivs) (sort_by_start-IsSorted ivs)

holds-extended :
    (t : ℕ) (last iv : Interval)
    → last.start ≤ iv.start
    → iv.start ≤ last.end
    → holds t (extended last iv) ≡ (holds t last || holds t iv)
holds-extended t last iv h k = ground arith

extended-IsSorted :
    (last iv : Interval) (ivs : List Interval)
    → IsSorted (last ∷ iv ∷ ivs)
    → IsSorted (extended last iv ∷ ivs)
extended-IsSorted last iv ivs h = elim (Bool-cases (ltb last.end iv.end)) [
  | inl e ↦ rw e (h.0.1, h.1.1)
  | inr e ↦ rw e (h.0.1, h.1.1)
]

busy_at-coalesce :
    (t : ℕ) (last : Interval) (ivs : List Interval)
    → IsSorted (last ∷ ivs)
    → busy_at t (coalesce last ivs) ≡ (holds t last || busy_at t ivs)
unfolding coalesce any
busy_at-coalesce t last [] h = refl
busy_at-coalesce t last (iv ∷ ivs) h = elim (Bool-cases (ltb last.end iv.start)) [
  | inl e ↦ rw e (ap (λ b. holds t last || b) (busy_at-coalesce t iv ivs h.1))
  | inr e ↦ rw e (
      busy_at-coalesce t (extended last iv) ivs (extended-IsSorted last iv ivs h)
      ∙ ap (λ b. b || busy_at t ivs) (holds-extended t last iv h.0.0 (ground arith))
      ∙ or_assoc (holds t last) (holds t iv) (busy_at t ivs))
]

-- The answer of a loop begins with the interval it was given, but perhaps a later end.
abbrev BeginsAt : ℕ → List Interval → Type 0
BeginsAt n [] = ⊥
BeginsAt n (x ∷ xs) = x.start ≡ n

coalesce-BeginsAt :
    (last : Interval) (ivs : List Interval) → BeginsAt last.start (coalesce last ivs)
unfolding coalesce
coalesce-BeginsAt last [] = refl
coalesce-BeginsAt last (iv ∷ ivs) = elim (Bool-cases (ltb last.end iv.start)) [
  | inl e ↦ rw e refl
  | inr e ↦
      let same : (extended last iv).start ≡ last.start = ground arith in
      rw e (
        subst (λ (n : ℕ). BeginsAt n (coalesce (extended last iv) ivs)) same
          (coalesce-BeginsAt (extended last iv) ivs))
]

HasGaps-cons :
    (x : Interval) (n : ℕ) (ys : List Interval)
    → x.end < n
    → BeginsAt n ys
    → HasGaps ys
    → HasGaps (x ∷ ys)
HasGaps-cons x n [] h b g = tt
HasGaps-cons x n (y ∷ ys) h b g = (omega (arith, h, b), g)

coalesce-HasGaps : (last : Interval) (ivs : List Interval) → HasGaps (coalesce last ivs)
unfolding coalesce
coalesce-HasGaps last [] = tt
coalesce-HasGaps last (iv ∷ ivs) = elim (Bool-cases (ltb last.end iv.start)) [
  | inl e ↦ rw e (
      HasGaps-cons last iv.start (coalesce iv ivs) (ground arith) (coalesce-BeginsAt iv ivs)
        (coalesce-HasGaps iv ivs))
  | inr e ↦ rw e (coalesce-HasGaps (extended last iv) ivs)
]

busy_at-merge_sorted :
    (t : ℕ) (ivs : List Interval) → IsSorted ivs → busy_at t (merge_sorted ivs) ≡ busy_at t ivs
unfolding any
busy_at-merge_sorted t [] h = refl
busy_at-merge_sorted t (iv ∷ ivs) h = busy_at-coalesce t iv ivs h

merge_sorted-HasGaps : (ivs : List Interval) → HasGaps (merge_sorted ivs)
merge_sorted-HasGaps [] = tt
merge_sorted-HasGaps (iv ∷ ivs) = coalesce-HasGaps iv ivs

-- mergeBusy answers intervals that together hold exactly the times that its input holds, whatever
-- the input's order and overlaps, and each of them ends before the next one starts.
pub merge_busy-covers :
    (ivs : List Interval)
    → ((t : ℕ) → busy_at t (merge_busy ivs) ≡ busy_at t ivs) × HasGaps (merge_busy ivs)
unfolding merge_busy
merge_busy-covers ivs =
    let sorted = sort_by_start-IsSorted ivs in
    (
      λ t. busy_at-merge_sorted t (sort_by_start ivs) sorted ∙ busy_at-sort_by_start t ivs,
      merge_sorted-HasGaps (sort_by_start ivs),
    )
