-- ===== src/Text.antt =====
-- What the sources use of Go's package strings, on strings as lists of bytes. `trim_space` knows
-- the six white-space characters of ASCII: of Unicode's others the model knows none.
pub mod Laws
pub mod Like
use nextcloud_go.Prelude.{
  ℕ, ◌+◌, ◌-◌, Bool, true, false, ◌&&◌, ◌||◌, Option, none, some, List, [], ◌∷◌, ◌++◌, Bytes, ◌≡◌,
  leb, ◌==◌, if◌then◌else◌, All,
}

-- No byte of the text is `c`.
abbrev pub Lacks : ℕ → Bytes → Type 0
Lacks c = All (λ x. (x == c) ≡ false)

-- strings.HasPrefix
unfoldable pub has_prefix : Bytes → Bytes → Bool
has_prefix [] s = true
has_prefix (c ∷ p) [] = false
has_prefix (c ∷ p) (x ∷ s) = x == c && has_prefix p s

abbrev pub after_prefix : Bytes → Bytes → Bytes
after_prefix [] s = s
after_prefix (c ∷ p) [] = []
after_prefix (c ∷ p) (x ∷ s) = after_prefix p s

-- strings.TrimPrefix
unfoldable pub trim_prefix : Bytes → Bytes → Bytes
unfolding has_prefix
trim_prefix p s = if has_prefix p s then after_prefix p s else s

-- strings.TrimSuffix for a suffix of one byte
unfoldable pub trim_suffix : ℕ → Bytes → Bytes
trim_suffix c [] = []
trim_suffix c (x ∷ []) = if x == c then [] else x ∷ []
trim_suffix c (x ∷ y ∷ s) = x ∷ trim_suffix c (y ∷ s)

abbrev pub cons_unless : (ℕ → Bool) → ℕ → Bytes → Bytes
cons_unless p x [] = if p x then [] else x ∷ []
cons_unless p x (y ∷ s) = x ∷ y ∷ s

-- strings.TrimRightFunc and strings.TrimLeftFunc
unfoldable pub trim_right : (ℕ → Bool) → Bytes → Bytes
trim_right p [] = []
trim_right p (x ∷ s) = cons_unless p x (trim_right p s)

unfoldable pub trim_left : (ℕ → Bool) → Bytes → Bytes
trim_left p [] = []
trim_left p (x ∷ s) = elim (p x) [ true ↦ trim_left p s | false ↦ x ∷ s ]

abbrev pub is_space : ℕ → Bool
is_space c = c == 32 || leb 9 c && leb c 13

-- strings.TrimSpace
unfoldable pub trim_space : Bytes → Bytes
unfolding trim_left trim_right
trim_space s = trim_right is_space (trim_left is_space s)

abbrev with_first : ℕ → Option (Bytes × Bytes) → Option (Bytes × Bytes)
with_first x none = none
with_first x (some (a, b)) = some (x ∷ a, b)

-- strings.Cut at one byte, and IndexByte with the slices before and behind the byte
unfoldable pub cut : ℕ → Bytes → Option (Bytes × Bytes)
cut c [] = none
cut c (x ∷ s) = elim (x == c) [ true ↦ some ([], s) | false ↦ with_first x (cut c s) ]

abbrev cons_head : ℕ → List Bytes → List Bytes
cons_head x [] = (x ∷ []) ∷ []
cons_head x (p ∷ ps) = (x ∷ p) ∷ ps

-- strings.Split and strings.Join with a separator of one byte
unfoldable pub split : ℕ → Bytes → List Bytes
split c [] = [] ∷ []
split c (x ∷ s) = let rest = split c s in if x == c then [] ∷ rest else cons_head x rest

unfoldable pub join : ℕ → List Bytes → Bytes
join c [] = []
join c (p ∷ []) = p
join c (p ∷ q ∷ ps) = p ++ (c ∷ join c (q ∷ ps))

-- s[:i] for i := strings.LastIndex(s, c)
unfoldable pub before_last : ℕ → Bytes → Option Bytes
before_last c [] = none
before_last c (x ∷ s) = elim (before_last c s) [
  | some r ↦ some (x ∷ r)
  | none ↦ if x == c then some [] else none
]

abbrev to_lower_byte : ℕ → ℕ
to_lower_byte c = if leb 65 c && leb c 90 then c + 32 else c

-- strings.ToLower on ASCII
unfoldable pub to_lower : Bytes → Bytes
to_lower [] = []
to_lower (c ∷ s) = to_lower_byte c ∷ to_lower s
