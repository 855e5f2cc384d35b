-- ===== src/Files/Path/Idempotent.antt =====
-- NormalizePath leaves a canonical path as it is: the lock store normalises again what the DAV
-- operations have normalised.
use nextcloud_go.Prelude.{
  ℕ, zero, suc, true, false, not, ◌||◌, inl, inr, some, List, [], ◌∷◌, Bytes, ◌≡◌, refl, ◌=?◌, ◌==◌,
  ltb, bytes_equality, nat_equality, if◌then◌else◌, length, all, arith, Bool-cases, Option-cases,
  bytes_eq_iff, subst, contains,
}
use nextcloud_go.Text.{Lacks, split, join, trim_right, cons_unless}
use nextcloud_go.Text.Laws.{join-split, split-cons}
use nextcloud_go.Files.Path.{
  normalize_path, by_segments, rejoin, good_segment, rooted, untrailed, slashes, or_root, is_slash,
  Utf8State, start, more, after_e0, after_ed, after_f0, after_f4, utf8_step, utf8_from, valid_utf8,
  is_start,
}

-- What the first test of NormalizePath and the replacement of backslashes give.
record IsSafe (st : Utf8State) (p : Bytes) : Type 0 where
  no_nul : contains p 0 ≡ false
  valid : utf8_from st p ≡ true
  no_backslash : Lacks 92 p

step-slash : (st : Utf8State) (c : ℕ) → utf8_step st (if c == 92 then b'/' else c) ≡ utf8_step st c
unfolding utf8_step
step-slash start c = ground arith
step-slash (more zero) c = refl
step-slash (more (suc n)) c = ground arith
step-slash after_e0 c = ground arith
step-slash after_ed c = ground arith
step-slash after_f0 c = ground arith
step-slash after_f4 c = ground arith

only_from_start :
    (st st' : Utf8State) (c : ℕ)
    → is_slash c ≡ true
    → utf8_step st c ≡ some st'
    → is_start st ≡ true
unfolding utf8_step
only_from_start start st' c e h = refl
only_from_start (more zero) st' c e h = cc
only_from_start (more (suc n)) st' c e h = absurd (ground arith)
only_from_start after_e0 st' c e h = absurd (ground arith)
only_from_start after_ed st' c e h = absurd (ground arith)
only_from_start after_f0 st' c e h = absurd (ground arith)
only_from_start after_f4 st' c e h = absurd (ground arith)

slashes-IsSafe :
    (st : Utf8State) (p : Bytes)
    → contains p 0 ≡ false
    → utf8_from st p ≡ true
    → IsSafe st (slashes p)
unfolding slashes contains utf8_from
slashes-IsSafe st [] c v = record { no_nul = refl; valid = v; no_backslash = tt }
slashes-IsSafe st (x ∷ p) c v = elim (Option-cases (utf8_step st x)) [
  | inl n ↦ absurd (ground arith)
  | inr (st', e) ↦
      let rest = slashes-IsSafe st' p (ground arith) (ground arith) in
      record {
        no_nul = ground (arith, rest.no_nul);
        valid = ground (arith, step-slash st x, rest.valid);
        no_backslash = (ground arith, rest.no_backslash);
      }
]

trim-IsSafe : (st : Utf8State) (p : Bytes) → IsSafe st p → IsSafe st (trim_right is_slash p)
unfolding trim_right contains utf8_from
trim-IsSafe st [] h = h
trim-IsSafe st (x ∷ p) h = elim (Option-cases (utf8_step st x)) [
  | inl n ↦ absurd (ground (arith, h.valid))
  | inr (st', e) ↦ go st' e (trim_right is_slash p) (
      trim-IsSafe st' p (record {
        no_nul = ground (arith, h.no_nul);
        valid = ground (arith, h.valid);
        no_backslash = h.no_backslash.1;
      }))
]
  where
    go :
        (st' : Utf8State)
        → utf8_step st x ≡ some st'
        → (q : Bytes) → IsSafe st' q
        → IsSafe st (cons_unless is_slash x q)
    go st' e [] r = elim (Bool-cases (is_slash x)) [
      | inl s ↦
          rw s (record { no_nul = refl; valid = only_from_start st st' x s e; no_backslash = tt })
      | inr s ↦ rw s (record {
        no_nul = ground (arith, h.no_nul);
        valid = ground (arith, r.valid);
        no_backslash = (h.no_backslash.0, tt);
      })
    ]
    go st' e (y ∷ q) r = record {
      no_nul = ground (arith, h.no_nul, r.no_nul);
      valid = ground (arith, r.valid);
      no_backslash = (h.no_backslash.0, r.no_backslash);
    }

trim_right_idem : (p : Bytes) → trim_right is_slash (trim_right is_slash p) ≡ trim_right is_slash p
unfolding trim_right
trim_right_idem [] = refl
trim_right_idem (x ∷ p) = go (trim_right is_slash p) (trim_right_idem p)
  where
    go :
        (q : Bytes)
        → trim_right is_slash q ≡ q
        → trim_right is_slash (cons_unless is_slash x q) ≡ cons_unless is_slash x q
    go [] h = ground arith
    go (y ∷ q) h = ground (arith, h)

rooted-cons : (p : Bytes) → (r : Bytes) × (rooted (or_root p) ≡ b'/' ∷ r)
unfolding rooted
rooted-cons [] = ([], refl)
rooted-cons (x ∷ p) = elim (Bool-cases (x == b'/')) [
  | inl e ↦ (p, ground arith)
  | inr e ↦ (x ∷ p, ground arith)
]

untrailed_long :
    (x : ℕ) (s : Bytes)
    → untrailed (b'/' ∷ x ∷ s) ≡ or_root (cons_unless is_slash b'/' (trim_right is_slash (x ∷ s)))
unfolding untrailed trim_right
untrailed_long x s = ground arith

untrailed-cons : (r : Bytes) → (r' : Bytes) × (untrailed (b'/' ∷ r) ≡ b'/' ∷ r')
unfolding untrailed trim_right
untrailed-cons [] = ([], refl)
untrailed-cons (x ∷ s) = rw (untrailed_long x s) (go (trim_right is_slash (x ∷ s)))
  where
    go : (q : Bytes) → (r' : Bytes) × (or_root (cons_unless is_slash b'/' q) ≡ b'/' ∷ r')
    go [] = ([], refl)
    go (y ∷ q) = (y ∷ q, refl)

untrailed_idem : (r : Bytes) → untrailed (untrailed (b'/' ∷ r)) ≡ untrailed (b'/' ∷ r)
unfolding untrailed trim_right
untrailed_idem [] = refl
untrailed_idem (x ∷ s) =
    rw (untrailed_long x s) (go (trim_right is_slash (x ∷ s)) (trim_right_idem (x ∷ s)))
  where
    go :
        (q : Bytes)
        → trim_right is_slash q ≡ q
        → untrailed (or_root (cons_unless is_slash b'/' q)) ≡ or_root (cons_unless is_slash b'/' q)
    go [] h = refl
    go (y ∷ q) h = ground (arith, h)

slashes-Lacks : (p : Bytes) → Lacks 92 p → slashes p ≡ p
unfolding slashes
slashes-Lacks [] h = refl
slashes-Lacks (x ∷ p) h = ground (arith, slashes-Lacks p h.1)

rooted-slash : (r : Bytes) → rooted (or_root (b'/' ∷ r)) ≡ b'/' ∷ r
unfolding rooted
rooted-slash r = refl

rejoin-same :
    (r q : Bytes) (ps : List Bytes)
    → ((p : Bytes) × (qs : List Bytes) × (ps ≡ p ∷ qs))
    → join b'/' ps ≡ r
    → rejoin ps ≡ some q
    → q ≡ b'/' ∷ r
unfolding rejoin
rejoin-same r q [] (p, qs, e) j h = cc
rejoin-same r q (p ∷ qs) e j h = elim (Bool-cases (all good_segment (p ∷ qs))) [
  | inl g ↦ ground (arith, j)
  | inr g ↦ absurd (ground arith)
]

-- A rooted path that is let through comes back unchanged.
by_segments-same : (r q : Bytes) → by_segments (b'/' ∷ r) ≡ some q → q ≡ b'/' ∷ r
unfolding by_segments split
by_segments-same r q h = elim (Bool-cases ((b'/' ∷ r) =? (b'/' ∷ []))) [
  | inl e ↦ ground (arith, bytes_eq_iff (b'/' ∷ r) (b'/' ∷ []))
  | inr e ↦ rejoin-same r q (split b'/' r) (split-cons b'/' r) (join-split b'/' r) (rw e at h)
]

IsSafe-rooted : (p : Bytes) → IsSafe start p → IsSafe start (rooted (or_root p))
unfolding rooted contains utf8_from utf8_step
IsSafe-rooted [] h = record { no_nul = refl; valid = refl; no_backslash = (refl, tt) }
IsSafe-rooted (x ∷ p) h = elim (Bool-cases (x == b'/')) [
  | inl e ↦ rw e h
  | inr e ↦ rw e (record {
    no_nul = ground (arith, h.no_nul);
    valid = h.valid;
    no_backslash = (refl, h.no_backslash);
  })
]

IsSafe-or_root : (p : Bytes) → IsSafe start p → IsSafe start (or_root p)
unfolding contains utf8_from utf8_step
IsSafe-or_root [] h = record { no_nul = refl; valid = refl; no_backslash = (refl, tt) }
IsSafe-or_root (x ∷ p) h = h

IsSafe-untrailed : (p : Bytes) → IsSafe start p → IsSafe start (untrailed p)
unfolding untrailed
IsSafe-untrailed p h = elim (Bool-cases (ltb 1 (length p))) [
  | inl e ↦ rw e (IsSafe-or_root (trim_right is_slash p) (trim-IsSafe start p h))
  | inr e ↦ rw e h
]

-- A path in the form that the steps before the last leave, and that the last lets through.
normal_form :
    (r q : Bytes)
    → untrailed (b'/' ∷ r) ≡ b'/' ∷ r
    → IsSafe start (b'/' ∷ r)
    → by_segments (b'/' ∷ r) ≡ some q
    → normalize_path (b'/' ∷ r) ≡ some (b'/' ∷ r)
unfolding normalize_path valid_utf8
normal_form r q u safe h = ground (
  arith,
  u,
  safe.no_nul,
  safe.valid,
  slashes-Lacks (b'/' ∷ r) safe.no_backslash,
  rooted-slash r,
  by_segments-same r q h,
)

normal_tail :
    (r q : Bytes)
    → IsSafe start (untrailed (b'/' ∷ r))
    → by_segments (untrailed (b'/' ∷ r)) ≡ some q
    → normalize_path q ≡ some q
normal_tail r q safe h =
    let (r', e) = untrailed-cons r in
    let h' : by_segments (b'/' ∷ r') ≡ some q = rw (← e) h in
    let same = by_segments-same r' q h' in
    rw same
      (normal_form r' q (ground (arith, untrailed_idem r, e)) (subst (IsSafe start) e safe) h')

-- A path that NormalizePath has returned is returned unchanged.
pub normalize_path_idem : (p q : Bytes) → normalize_path p ≡ some q → normalize_path q ≡ some q
normalize_path_idem p q h = elim (Bool-cases (contains p 0 || not (valid_utf8 p))) [
  | inl bad ↦ absurd (unfold normalize_path in ground arith)
  | inr good ↦
      let clean : IsSafe start (slashes p) =
        unfold valid_utf8 in slashes-IsSafe start p (ground arith) (ground arith) in
      let (r, e) = rooted-cons (slashes p) in
      normal_tail r q
        (rw (← e)
          (IsSafe-untrailed (rooted (or_root (slashes p))) (IsSafe-rooted (slashes p) clean)))
        (rw (← e) (unfold normalize_path in rw good at h))
]
