-- ===== src/Text/Laws.antt =====
-- Laws of the string functions: what a cut finds, and that Split and Join are inverse.
use nextcloud_go.Prelude.{
  ◌≤◌, ℕ, ◌≤◌, ◌<◌, Bool, true, false, none, some, List, [], ◌∷◌, ◌++◌, Bytes, ◌≡◌, refl, ap, subst,
  arith, ◌==◌, length, All, Bool-cases, Option-cases, inl, inr, if◌then◌else◌,
}
use nextcloud_go.Text.{trim_suffix, before_last, Lacks, trim_suffix, cut, split, join, cons_head}

pub cut-append : (c : ℕ) (a b : Bytes) → Lacks c a → cut c (a ++ (c ∷ b)) ≡ some (a, b)
unfolding cut
cut-append c [] b h = ground arith
cut-append c (x ∷ a) b h = ground (arith, cut-append c a b h.1)

pub cut-Lacks : (c : ℕ) (s : Bytes) → Lacks c s → cut c s ≡ none
unfolding cut
cut-Lacks c [] h = refl
cut-Lacks c (x ∷ s) h = ground (arith, cut-Lacks c s h.1)

-- What is left behind a cut is shorter: the loops that cut again and again end.
pub cut_shorter : (c : ℕ) (s a b : Bytes) → cut c s ≡ some (a, b) → length b < length s
unfolding cut
cut_shorter c [] a b h = cc
cut_shorter c (x ∷ s) a b h = elim (Bool-cases (x == c)) [
  | inl e ↦ ground arith
  | inr e ↦ elim (Option-cases (cut c s)) [
    | inl n ↦ ground arith
    | inr (r, q) ↦ ground (arith, cut_shorter c s r.0 r.1 q)
  ]
]

-- A cut takes the text apart at the first `c`.
pub cut-eq_some : (c : ℕ) (s a b : Bytes) → cut c s ≡ some (a, b) → (s ≡ a ++ (c ∷ b)) × Lacks c a
unfolding cut
cut-eq_some c [] a b h = cc
cut-eq_some c (x ∷ s) [] b h = elim (Bool-cases (x == c)) [
  | inl e ↦ ground arith
  | inr e ↦ elim (Option-cases (cut c s)) [ inl n ↦ ground arith | inr (r, q) ↦ ground arith ]
]
cut-eq_some c (x ∷ s) (y ∷ a) b h = elim (Bool-cases (x == c)) [
  | inl e ↦ ground arith
  | inr e ↦ elim (Option-cases (cut c s)) [
    | inl n ↦ ground arith
    | inr (r, q) ↦
        let (same, without) = cut-eq_some c s r.0 r.1 q in
        (ground arith, (ground arith, subst (Lacks c) (ground arith) without))
  ]
]

cons_head-split : (c x : ℕ) (s : Bytes) → join c (cons_head x (split c s)) ≡ x ∷ join c (split c s)
unfolding join split
cons_head-split c x [] = refl
cons_head-split c x (y ∷ s) = elim (Bool-cases (y == c)) [
  | inl e ↦ ground arith
  | inr e ↦ go (split c s) e
]
  where
    go :
        (ps : List Bytes)
        → (y == c) ≡ false
        → join c (cons_head x (if y == c then [] ∷ ps else cons_head y ps))
          ≡ x ∷ join c (if y == c then [] ∷ ps else cons_head y ps)
    go [] e = ground arith
    go (p ∷ []) e = ground arith
    go (p ∷ q ∷ ps) e = ground arith

pub split-cons : (c : ℕ) (s : Bytes) → (p : Bytes) × (ps : List Bytes) × (split c s ≡ p ∷ ps)
unfolding split
split-cons c [] = ([], [], refl)
split-cons c (x ∷ s) = go (x == c) (split c s)
  where
    go :
        (b : Bool) (ps : List Bytes)
        → (p : Bytes) × (qs : List Bytes) × ((if b then [] ∷ ps else cons_head x ps) ≡ p ∷ qs)
    go true ps = ([], ps, refl)
    go false [] = (x ∷ [], [], refl)
    go false (p ∷ ps) = (x ∷ p, ps, refl)

pub join-split : (c : ℕ) (s : Bytes) → join c (split c s) ≡ s
unfolding join split
join-split c [] = refl
join-split c (x ∷ s) =
    let (p, ps, e) = split-cons c s in ground (arith, join-split c s, cons_head-split c x s, e)

split-Lacks : (c : ℕ) (p : Bytes) → Lacks c p → split c p ≡ p ∷ []
unfolding split
split-Lacks c [] h = refl
split-Lacks c (x ∷ p) h = ground (arith, split-Lacks c p h.1)

split-append : (c : ℕ) (p s : Bytes) → Lacks c p → split c (p ++ (c ∷ s)) ≡ p ∷ split c s
unfolding split
split-append c [] s h = ground arith
split-append c (x ∷ p) s h = ground (arith, split-append c p s h.1)

pub split-join :
    (c : ℕ) (p : Bytes) (ps : List Bytes)
    → All (Lacks c) (p ∷ ps)
    → split c (join c (p ∷ ps)) ≡ p ∷ ps
unfolding join
split-join c p [] h = split-Lacks c p h.0
split-join c p (q ∷ ps) h =
    rw (split-append c p (join c (q ∷ ps)) h.0) (ap (λ r. p ∷ r) (split-join c q ps h.1))

-- No piece of a split text holds the separator.
pub split-All-Lacks : (c : ℕ) (s : Bytes) → All (Lacks c) (split c s)
unfolding split
split-All-Lacks c [] = (tt, tt)
split-All-Lacks c (x ∷ s) = go (x == c) refl (split c s) (split-All-Lacks c s)
  where
    go :
        (b : Bool)
        → (x == c) ≡ b
        → (ps : List Bytes) → All (Lacks c) ps
        → All (Lacks c) (if b then [] ∷ ps else cons_head x ps)
    go true e ps h = (tt, h)
    go false e [] h = ((e, tt), tt)
    go false e (p ∷ ps) h = ((e, h.0), h.1)

pub length-trim_suffix : (c : ℕ) (s : Bytes) → length (trim_suffix c s) ≤ length s
unfolding trim_suffix
length-trim_suffix c [] = omega arith
length-trim_suffix c (x ∷ []) = ground arith
length-trim_suffix c (x ∷ y ∷ s) = omega (arith, length-trim_suffix c (y ∷ s))

pub before_last_shorter : (c : ℕ) (s r : Bytes) → before_last c s ≡ some r → length r < length s
unfolding before_last
before_last_shorter c [] r h = cc
before_last_shorter c (x ∷ s) r h = elim (Option-cases (before_last c s)) [
  | inl n ↦ ground arith
  | inr (q, e) ↦ ground (arith, before_last_shorter c s q e)
]

before_last-Lacks : (c : ℕ) (b : Bytes) → Lacks c b → before_last c b ≡ none
unfolding before_last
before_last-Lacks c [] h = refl
before_last-Lacks c (x ∷ b) h = ground (arith, before_last-Lacks c b h.1)

pub before_last-append : (c : ℕ) (a b : Bytes) → Lacks c b → before_last c (a ++ (c ∷ b)) ≡ some a
unfolding before_last
before_last-append c [] b h = ground (arith, before_last-Lacks c b h)
before_last-append c (x ∷ a) b h = ground (arith, before_last-append c a b h)

pub trim_suffix-Lacks : (c : ℕ) (b : Bytes) → Lacks c b → trim_suffix c b ≡ b
unfolding trim_suffix
trim_suffix-Lacks c [] h = refl
trim_suffix-Lacks c (x ∷ []) h = ground arith
trim_suffix-Lacks c (x ∷ y ∷ b) h = ap (λ s. x ∷ s) (trim_suffix-Lacks c (y ∷ b) h.1)

pub trim_suffix-append :
    (c x : ℕ) (a b : Bytes) → Lacks c (x ∷ b) → trim_suffix c (a ++ (c ∷ x ∷ b)) ≡ a ++ (c ∷ x ∷ b)
unfolding trim_suffix
trim_suffix-append c x [] b h = ap (λ s. c ∷ s) (trim_suffix-Lacks c (x ∷ b) h)
trim_suffix-append c x (y ∷ []) b h = ap (λ s. y ∷ s) (trim_suffix-append c x [] b h)
trim_suffix-append c x (y ∷ z ∷ a) b h = ap (λ s. y ∷ s) (trim_suffix-append c x (z ∷ a) b h)
