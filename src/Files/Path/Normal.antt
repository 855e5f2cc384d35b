-- ===== src/Files/Path/Normal.antt =====
-- What NormalizePath lets through, and that walking up from a path ends at the root.
use nextcloud_go.Prelude.{
  ℕ, ◌<◌, true, ◌||◌, ◌⊎◌, inl, inr, Option, none, some, List, [], ◌∷◌, Bytes, ◌≡◌, refl, ◌=?◌,
  bytes_equality, length, All, all, arith, Bool-cases,
}
use nextcloud_go.Text.{Lacks, split, join, trim_suffix, before_last}
use nextcloud_go.Text.Laws.{split-All-Lacks, length-trim_suffix, before_last_shorter}
use nextcloud_go.Files.Path.{
  normalize_path, by_segments, rejoin, tail_of, good_segment, parent_file_path, parent_of_trimmed,
  rooted, untrailed, slashes, or_root, or_slash,
}

-- A segment of a canonical path: not empty, not "." or "..", with no slash.
abbrev pub IsSegment : Bytes → Type 0
IsSegment seg = Lacks b'/' seg × (good_segment seg ≡ true)

-- "/" or "/a/b/c" with segments that name files.
abbrev pub IsNormal : Bytes → Type 0
IsNormal q =
    (q ≡ b'/' ∷ [])
    ⊎ ((seg : Bytes) × (segs : List Bytes) × (q ≡ b'/' ∷ join b'/' (seg ∷ segs))
        × All IsSegment (seg ∷ segs))

all_segments :
    (segs : List Bytes) → All (Lacks b'/') segs → all good_segment segs ≡ true → All IsSegment segs
unfolding all
all_segments [] l g = tt
all_segments (seg ∷ segs) l g = elim (Bool-cases (good_segment seg)) [
  | inl e ↦ ((l.0, e), all_segments segs l.1 (ground arith))
  | inr e ↦ absurd (ground arith)
]

rejoin-IsNormal :
    (segs : List Bytes) (q : Bytes) → All (Lacks b'/') segs → rejoin segs ≡ some q → IsNormal q
unfolding rejoin
rejoin-IsNormal [] q l h = inl (ground arith)
rejoin-IsNormal (seg ∷ segs) q l h = elim (Bool-cases (all good_segment (seg ∷ segs))) [
  | inl e ↦ inr (seg, segs, ground arith, all_segments (seg ∷ segs) l e)
  | inr e ↦ absurd (ground arith)
]

tail_Lacks : (ps : List Bytes) → All (Lacks b'/') ps → All (Lacks b'/') (tail_of ps)
tail_Lacks [] h = tt
tail_Lacks (p ∷ ps) h = h.1

by_segments-IsNormal : (p q : Bytes) → by_segments p ≡ some q → IsNormal q
unfolding by_segments
by_segments-IsNormal p q h = elim (Bool-cases (p =? (b'/' ∷ []))) [
  | inl e ↦ inl (ground arith)
  | inr e ↦
      rejoin-IsNormal (tail_of (split b'/' p)) q
        (tail_Lacks (split b'/' p) (split-All-Lacks b'/' p)) (ground arith)
]

-- A path that NormalizePath answers is the root, or segments each behind one slash, none of them
-- empty, "." or "..".
pub normalize_path-IsNormal : (p q : Bytes) → normalize_path p ≡ some q → IsNormal q
unfolding normalize_path
normalize_path-IsNormal p q h =
    by_segments-IsNormal (untrailed (rooted (or_root (slashes p)))) q (ground arith)

or_slash_shorter :
    (n : ℕ) (o : Option Bytes)
    → ((q : Bytes) → o ≡ some q → length q < n)
    → (or_slash o ≡ b'/' ∷ []) ⊎ (length (or_slash o) < n)
or_slash_shorter n none h = inl refl
or_slash_shorter n (some []) h = inl refl
or_slash_shorter n (some (c ∷ q)) h = inr (h (c ∷ q) refl)

trimmed_shorter :
    (t : Bytes) → (parent_of_trimmed t ≡ b'/' ∷ []) ⊎ (length (parent_of_trimmed t) < length t)
unfolding parent_of_trimmed
trimmed_shorter t = elim (Bool-cases (t =? [] || t =? (b'/' ∷ []))) [
  | inl e ↦ inl (rw e)
  | inr e ↦ rw e (or_slash_shorter (length t) (before_last b'/' t) (before_last_shorter b'/' t))
]

-- The parent of a path is the root or a shorter text.
pub parent_file_path_shorter :
    (p : Bytes) → (parent_file_path p ≡ b'/' ∷ []) ⊎ (length (parent_file_path p) < length p)
unfolding parent_file_path
parent_file_path_shorter p =
    let shrunk = length-trim_suffix b'/' p in
    elim (trimmed_shorter (trim_suffix b'/' p)) [ inl e ↦ inl e | inr e ↦ inr (omega arith) ]
