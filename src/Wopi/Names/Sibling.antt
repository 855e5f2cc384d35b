-- ===== src/Wopi/Names/Sibling.antt =====
-- Where the file of PutRelativeFile and RenameFile comes to stand.
use nextcloud_go.Prelude.{
  ℕ, ltb, zero, suc, ◌+◌, Bool, true, false, some, [], ◌∷◌, ◌++◌, Bytes, text, ◌≡◌, refl, ◌==◌,
  ◌=?◌, bytes_equality, arith, Bool-cases, Option-cases, inl, inr, contains, nat_equality, bytes_eq,
  length, drop,
}
use nextcloud_go.Text.{Lacks, has_prefix, before_last, trim_suffix}
use nextcloud_go.Text.Laws.{before_last-append, trim_suffix-append, trim_suffix-Lacks}
use nextcloud_go.Files.Path.{parent_file_path}
use nextcloud_go.Wopi.Names.{
  sanitize_wopi_name, join_sibling, last_name, itoa, stem_of, ext_of, dedupe_from,
  dedupe_sibling_name,
}

contains-Lacks : (c : ℕ) (s : Bytes) → contains s c ≡ false → Lacks c s
unfolding contains
contains-Lacks c [] h = tt
contains-Lacks c (x ∷ s) h = elim (Bool-cases (x == c)) [
  | inl e ↦ absurd (ground arith)
  | inr e ↦ (e, contains-Lacks c s (ground arith))
]

-- A good name is not empty and holds no slash.
pub sanitize_wopi_name-good :
    (raw name : Bytes)
    → sanitize_wopi_name raw ≡ some name
    → ((name =? []) ≡ false) × (contains name b'/' ≡ false)
unfolding sanitize_wopi_name
sanitize_wopi_name-good raw name h = ground arith

drop-append : (a b : Bytes) (c : ℕ) → drop (suc (length a)) (a ++ (c ∷ b)) ≡ b
drop-append [] b c = refl
drop-append (x ∷ a) b c = drop-append a b c

append-nonempty : (a b : Bytes) (c : ℕ) → (a ++ (c ∷ b) =? []) ≡ false
unfolding bytes_eq
append-nonempty [] b c = refl
append-nonempty (x ∷ a) b c = refl

module _ (x : ℕ) (b : Bytes) (good : Lacks b'/' (x ∷ b)) where
  parent-child :
      (a : Bytes) → has_prefix (text "/") a ≡ true → parent_file_path (a ++ (b'/' ∷ x ∷ b)) ≡ a
  unfolding parent_file_path has_prefix bytes_eq
  parent-child [] h = absurd (ground arith)
  parent-child (y ∷ a) h =
      rw
        (
          trim_suffix-append b'/' x (y ∷ a) b good,
          append-nonempty a (x ∷ b) b'/',
          before_last-append b'/' (y ∷ a) (x ∷ b) good,
        )
        (ground arith)

  name-child :
      (a : Bytes) → has_prefix (text "/") a ≡ true → last_name (a ++ (b'/' ∷ x ∷ b)) ≡ x ∷ b
  unfolding last_name has_prefix bytes_eq
  name-child [] h = absurd (ground arith)
  name-child (y ∷ a) h =
      rw (append-nonempty a (x ∷ b) b'/', before_last-append b'/' (y ∷ a) (x ∷ b) good)
        (ground (arith, drop-append a (x ∷ b) b'/'))

-- A name that a directory can hold
abbrev pub IsName : Bytes → Type 0
IsName name = ((name =? []) ≡ false) × (contains name b'/' ≡ false)

top-child :
    (x : ℕ) (b : Bytes)
    → Lacks b'/' (x ∷ b)
    → (parent_file_path (b'/' ∷ x ∷ b) ≡ text "/") × (last_name (b'/' ∷ x ∷ b) ≡ x ∷ b)
unfolding parent_file_path last_name bytes_eq
top-child x b good =
    let cut_here = before_last-append b'/' [] (x ∷ b) good in
    (rw (trim_suffix-Lacks b'/' (x ∷ b) good, cut_here) refl, rw cut_here refl)

pub join_sibling-child :
    (parent name : Bytes)
    → has_prefix (text "/") parent ≡ true
    → IsName name
    → (parent_file_path (join_sibling parent name) ≡ parent)
      × (last_name (join_sibling parent name) ≡ name)
unfolding join_sibling bytes_eq has_prefix
join_sibling-child parent [] h good = absurd (ground arith)
join_sibling-child [] (x ∷ b) h good = absurd (ground arith)
join_sibling-child (y ∷ []) (x ∷ b) h good =
    let root : y ≡ b'/' = ground arith in
    rw root (top-child x b (contains-Lacks b'/' (x ∷ b) good.1))
join_sibling-child (y ∷ z ∷ a) (x ∷ b) h good =
    let without = contains-Lacks b'/' (x ∷ b) good.1 in
    let in_parent = parent-child x b without (y ∷ z ∷ a) h in
    let named = name-child x b without (y ∷ z ∷ a) h in
    (ground (arith, in_parent), ground (arith, named))

contains-append :
    (c : ℕ) (a b : Bytes)
    → contains a c ≡ false
    → contains b c ≡ false
    → contains (a ++ b) c ≡ false
unfolding contains
contains-append c [] b h k = k
contains-append c (x ∷ a) b h k = elim (Bool-cases (x == c)) [
  | inl e ↦ absurd (ground arith)
  | inr e ↦ ground (arith, contains-append c a b)
]

contains-before_last :
    (c k : ℕ) (s r : Bytes) → before_last c s ≡ some r → contains s k ≡ false → contains r k ≡ false
unfolding contains before_last
contains-before_last c k [] r e h = cc
contains-before_last c k (x ∷ s) r e h = elim (Option-cases (before_last c s)) [
  | inl n ↦ ground arith
  | inr (q, f) ↦ ground (arith, contains-before_last c k s q f)
]

contains-drop : (n k : ℕ) (s : Bytes) → contains s k ≡ false → contains (drop n s) k ≡ false
unfolding contains
contains-drop zero k s h = h
contains-drop (suc n) k [] h = refl
contains-drop (suc n) k (x ∷ s) h = contains-drop n k s (ground arith)

nonempty-append : (a b : Bytes) → (a =? []) ≡ false → (a ++ b =? []) ≡ false
unfolding bytes_eq
nonempty-append [] b h = cc
nonempty-append (x ∷ a) b h = refl

itoa-contains : (n : ℕ) → contains (itoa n) b'/' ≡ false
unfolding contains
itoa-contains n = elim (Bool-cases (ltb n 10)) [ inl e ↦ ground arith | inr e ↦ ground arith ]

module _ (name : Bytes) (good : contains name b'/' ≡ false) where
  stem_of-contains : contains (stem_of name) b'/' ≡ false
  unfolding stem_of
  stem_of-contains = elim (Option-cases (before_last b'.' name)) [
    | inl e ↦ rw e good
    | inr (r, e) ↦ rw e (contains-before_last b'.' b'/' name r e good)
  ]

  ext_of-contains : contains (ext_of name) b'/' ≡ false
  unfolding ext_of contains
  ext_of-contains = elim (Option-cases (before_last b'.' name)) [
    | inl e ↦ rw e refl
    | inr (r, e) ↦ rw e (contains-drop (length r) b'/' name good)
  ]

  next-IsName : (n : ℕ) → IsName (stem_of name ++ text " " ++ itoa n ++ ext_of name)
  unfolding contains
  next-IsName n =
      let front = stem_of name ++ text " " in
      let numbered =
        contains-append b'/' front (itoa n)
          (contains-append b'/' (stem_of name) (text " ") stem_of-contains refl)
          (itoa-contains n) in
      (
        nonempty-append (front ++ itoa n) (ext_of name)
            (nonempty-append front (itoa n) (append-nonempty (stem_of name) [] 32)),
        contains-append b'/' (front ++ itoa n) (ext_of name) numbered ext_of-contains,
      )

  dedupe_from-IsName :
      (taken : Bytes → Bool) (parent : Bytes) (n rounds : ℕ) (candidate : Bytes)
      → IsName candidate
      → IsName (dedupe_from taken parent name n rounds candidate)
  unfolding dedupe_from
  dedupe_from-IsName taken parent n zero candidate h = h
  dedupe_from-IsName taken parent n (suc rounds) candidate h =
      elim (Bool-cases (taken (join_sibling parent candidate))) [
        | inl e ↦ rw e (
            dedupe_from-IsName taken parent (n + 1) rounds
              (stem_of name ++ text " " ++ itoa n ++ ext_of name) (next-IsName n))
        | inr e ↦ rw e h
      ]

pub dedupe_sibling_name-IsName :
    (taken : Bytes → Bool) (parent name : Bytes)
    → IsName name
    → IsName (dedupe_sibling_name taken parent name)
unfolding dedupe_sibling_name
dedupe_sibling_name-IsName taken parent name h =
    dedupe_from-IsName name h.1 taken parent 1 99 name h

pub parent_file_path-absolute :
    (p : Bytes) → has_prefix (text "/") p ≡ true → has_prefix (text "/") (parent_file_path p) ≡ true
unfolding parent_file_path trim_suffix before_last bytes_eq has_prefix
parent_file_path-absolute [] h = cc
parent_file_path-absolute (x ∷ []) h = ground arith
parent_file_path-absolute (x ∷ y ∷ s) h =
    let root : x ≡ b'/' = ground arith in
    rw root (elim (Option-cases (before_last b'/' (trim_suffix b'/' (y ∷ s)))) [
      | inl e ↦ rw e (ground arith)
      | inr (r, e) ↦ rw e (ground arith)
    ])
