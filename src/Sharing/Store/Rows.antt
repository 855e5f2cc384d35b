-- ===== src/Sharing/Store/Rows.antt =====
-- Lookups in the rows of the table shares, and the constraints on these rows.
use nextcloud_go.Prelude.{
  ℕ, Bool, true, false, not, Option, none, some, List, [], ◌∷◌, Bytes, ◌≡◌, refl, subst, ◌==◌, ◌=?◌,
  bytes_equality, bytes_eq_iff, if◌then◌else◌, keep, All, All-keep, arith, Bool-cases, inl, inr,
}
use nextcloud_go.Sharing.Store.{Share, ShareTable, first_row, delete}

abbrev pub filter_row : (Share → Bool) → Option Share → Option Share
filter_row q none = none
filter_row q (some r) = if q r then some r else none

-- At most one row passes.
abbrev pub Single : (Share → Bool) → List Share → Type 0
Single p [] = Unit
Single p (r ∷ rows) = (p r ≡ true → All (λ x. p x ≡ false) rows) × Single p rows

first_row-none :
    (p : Share → Bool) (rows : List Share) → All (λ x. p x ≡ false) rows → first_row p rows ≡ none
unfolding first_row
first_row-none p [] h = refl
first_row-none p (r ∷ rows) h = rw h.0 (first_row-none p rows h.1)

pub first_row-keep :
    (p q : Share → Bool) (rows : List Share)
    → Single p rows
    → first_row p (keep q rows) ≡ filter_row q (first_row p rows)
unfolding first_row keep
first_row-keep p q [] h = refl
first_row-keep p q (r ∷ rows) h = elim (Bool-cases (p r)) [
  | inl e ↦ ground (arith, first_row-keep p q rows h.1, first_row-none p rows (h.0 e))
  | inr e ↦ ground (arith, first_row-keep p q rows h.1)
]

pub All-first_row {ℓ} :
    (P : Share → Type ℓ) (p : Share → Bool) (rows : List Share) (sh : Share)
    → All P rows
    → first_row p rows ≡ some sh
    → P sh
unfolding first_row
All-first_row P p [] sh a h = absurd (cc)
All-first_row P p (r ∷ rows) sh a h = elim (Bool-cases (p r)) [
  | inl e ↦ subst P (ground arith) a.0
  | inr e ↦ All-first_row P p rows sh a.1 (ground arith)
]

pub first_row-passes :
    (p : Share → Bool) (rows : List Share) (sh : Share) → first_row p rows ≡ some sh → p sh ≡ true
unfolding first_row
first_row-passes p [] sh h = cc
first_row-passes p (r ∷ rows) sh h = elim (Bool-cases (p r)) [
  | inl e ↦ ground arith
  | inr e ↦ first_row-passes p rows sh (ground arith)
]

-- Ids and tokens are the rows' own.
abbrev pub Apart : Share → Share → Type 0
Apart l m = ((m.id == l.id) ≡ false) × ((m.token =? l.token) ≡ false)

abbrev pub Unique : List Share → Type 0
Unique [] = Unit
Unique (r ∷ rows) = All (Apart r) rows × Unique rows

pub Unique-keep : (p : Share → Bool) (rows : List Share) → Unique rows → Unique (keep p rows)
unfolding keep
Unique-keep p [] h = tt
Unique-keep p (r ∷ rows) h = go (p r) (All-keep (Apart r) p rows h.0) (Unique-keep p rows h.1)
  where
    go :
        (b : Bool)
        → All (Apart r) (keep p rows)
        → Unique (keep p rows)
        → Unique (if b then r ∷ keep p rows else keep p rows)
    go true a u = (a, u)
    go false a u = u

abbrev pub has_id : ℕ → Share → Bool
has_id id r = r.id == id

abbrev pub has_token : Bytes → Share → Bool
has_token token r = r.token =? token

others_id :
    (id : ℕ) (r : Share) (rows : List Share)
    → (r.id == id) ≡ true
    → All (Apart r) rows
    → All (λ x. has_id id x ≡ false) rows
others_id id r [] e a = tt
others_id id r (m ∷ rows) e a = (ground arith, others_id id r rows e a.1)

others_token :
    (token : Bytes) (r : Share) (rows : List Share)
    → (r.token =? token) ≡ true
    → All (Apart r) rows
    → All (λ x. has_token token x ≡ false) rows
others_token token r [] e a = tt
others_token token r (m ∷ rows) e a = (
  ground
      (arith, bytes_eq_iff r.token token, bytes_eq_iff m.token token, bytes_eq_iff m.token r.token),
  others_token token r rows e a.1,
)

pub Single-id : (id : ℕ) (rows : List Share) → Unique rows → Single (has_id id) rows
Single-id id [] u = tt
Single-id id (r ∷ rows) u = (λ e. others_id id r rows e u.0, Single-id id rows u.1)

pub Single-token : (token : Bytes) (rows : List Share) → Unique rows → Single (has_token token) rows
Single-token token [] u = tt
Single-token token (r ∷ rows) u =
    (λ e. others_token token r rows e u.0, Single-token token rows u.1)

-- Behind a filter that keeps all that a second one passes, the second one finds the same.
pub keep-keep :
    (p q : Share → Bool) (rows : List Share)
    → All (λ r. p r ≡ false → q r ≡ false) rows
    → keep q (keep p rows) ≡ keep q rows
unfolding keep
keep-keep p q [] h = refl
keep-keep p q (r ∷ rows) h = elim (Bool-cases (p r)) [
  | inl e ↦ ground (arith, keep-keep p q rows h.1)
  | inr e ↦ ground (arith, keep-keep p q rows h.1, h.0 e)
]

pub every_row {ℓ} : (P : Share → Type ℓ) (rows : List Share) → ((r : Share) → P r) → All P rows
every_row P [] h = tt
every_row P (r ∷ rows) h = (h r, every_row P rows h)

pub All-map {ℓ κ} :
    {P : Share → Type ℓ} {Q : Share → Type κ} (rows : List Share)
    → ((r : Share) → P r → Q r)
    → All P rows
    → All Q rows
All-map [] f h = tt
All-map (r ∷ rows) f h = (f r h.0, All-map rows f h.1)

pub keep-delete :
    (q : Share → Bool) (id : ℕ) (t : ShareTable)
    → All (λ r. has_id id r ≡ true → q r ≡ false) t.rows
    → keep q (delete t id).rows ≡ keep q t.rows
unfolding delete
keep-delete q id t h = elim (Bool-cases (id == 0)) [
  | inl e ↦ rw e refl
  | inr e ↦
      rw e
        (keep-keep (λ r. not (r.id == id)) q t.rows (All-map t.rows (λ r f n. f (ground arith)) h))
]

-- The row that was found is the only one with its id.
pub only-first_row :
    (p : Share → Bool) (rows : List Share) (sh : Share)
    → Unique rows
    → first_row p rows ≡ some sh
    → All (λ r. (r.id == sh.id) ≡ true → r ≡ sh) rows
unfolding first_row
only-first_row p [] sh u h = absurd (cc)
only-first_row p (r ∷ rows) sh u h = elim (Bool-cases (p r)) [
  | inl e ↦
      let same : r ≡ sh = ground arith in
      (λ i. same, All-map rows (λ m a i. absurd (ground (arith, a, same))) u.0)
  | inr e ↦ (
    λ i. absurd (ground (arith, All-first_row (Apart r) p rows sh u.0 (ground arith))),
    only-first_row p rows sh u.1 (ground arith),
  )
]
