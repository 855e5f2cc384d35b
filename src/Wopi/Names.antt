-- ===== src/Wopi/Names.antt =====
-- The names and paths of internal/wopi/handler.go, with what they use of Go's package path on a
-- canonical path.
pub mod Sibling
use nextcloud_go.Prelude.{
  ℕ, zero, suc, ◌+◌, ◌*◌, ◌-◌, ◌/◌, ◌%◌, ◌^◌, Bool, true, false, not, ◌&&◌, ◌||◌, Option, none,
  some, List, [], ◌∷◌, ◌++◌, Bytes, text, ltb, leb, ◌==◌, ◌=?◌, bytes_equality, nat_equality,
  if◌then◌else◌, contains, length, drop, take,
}
use nextcloud_go.Text.{has_prefix, before_last}
use nextcloud_go.Files.Path.{parent_file_path}

abbrev pub stem_before : Bytes → Option Bytes → Bytes
stem_before name none = name
stem_before name (some a) = a

abbrev pub from_cut : Bytes → Option Bytes → Bytes
from_cut name none = []
from_cut name (some a) = drop (length a) name

-- path.Ext of a name without a slash, and the name with that suffix trimmed
unfoldable pub ext_of : Bytes → Bytes
ext_of name = from_cut name (before_last b'.' name)

unfoldable pub stem_of : Bytes → Bytes
stem_of name = stem_before name (before_last b'.' name)

abbrev pub behind : Bytes → Option Bytes → Bytes
behind p none = p
behind p (some a) = drop (suc (length a)) p

-- path.Base of a canonical path
unfoldable pub last_name : Bytes → Bytes
last_name p = if p =? text "/" then p else behind p (before_last b'/' p)

-- sanitizeWOPIName; `none` is its error
unfoldable pub sanitize_wopi_name : Bytes → Option Bytes
sanitize_wopi_name name =
    if name =? []
      || (name =? text "." || (name =? text ".." || (contains name b'/' || contains name 92)))
    then none
    else some name

-- relativeTargetName
unfoldable pub relative_target_name : Bytes → Bytes → Bytes → Option Bytes
relative_target_name fs_path rel suggested =
    if not (rel =? [])
    then sanitize_wopi_name rel
    else if has_prefix (text ".") suggested
    then sanitize_wopi_name (stem_of (last_name fs_path) ++ suggested)
    else sanitize_wopi_name suggested

-- joinSibling
unfoldable pub join_sibling : Bytes → Bytes → Bytes
join_sibling parent name =
    if parent =? text "/" || parent =? text "." then b'/' ∷ name else parent ++ (b'/' ∷ name)

-- strconv.Itoa below 100
abbrev pub itoa : ℕ → Bytes
itoa n = if ltb n 10 then (n + 48) ∷ [] else (n / 10 + 48) ∷ (n % 10 + 48) ∷ []

-- The loop of dedupeSiblingName, with the candidate of round n and the rounds left. `taken` says
-- whether Stat finds a path.
unfoldable pub dedupe_from : (Bytes → Bool) → Bytes → Bytes → ℕ → ℕ → Bytes → Bytes
dedupe_from taken parent name n zero candidate = candidate
dedupe_from taken parent name n (suc rounds) candidate =
    let next = stem_of name ++ text " " ++ itoa n ++ ext_of name in
    let rest = dedupe_from taken parent name (n + 1) rounds next in
    if taken (join_sibling parent candidate) then rest else candidate

-- dedupeSiblingName: for n := 1; n < 100; n++
unfoldable pub dedupe_sibling_name : (Bytes → Bool) → Bytes → Bytes → Bytes
dedupe_sibling_name taken parent name = dedupe_from taken parent name 1 99 name

abbrev pub is_digit : ℕ → Bool
is_digit c = leb 48 c && leb c 57

-- The value of a text of digits behind what was read already
unfoldable pub digits_from : ℕ → Bytes → Option ℕ
digits_from n [] = some n
digits_from n (c ∷ s) =
    let rest = digits_from (10 * n + (c - 48)) s in if is_digit c then rest else none

abbrev pub unsigned : Bytes → Option ℕ
unfolding digits_from
unsigned [] = none
unsigned (c ∷ s) = digits_from 0 (c ∷ s)

abbrev pub unsign : Bytes → Bytes
unsign [] = []
unsign (c ∷ s) = if c == b'+' then s else c ∷ s

abbrev pub positive_int64 : Option ℕ → Option ℕ
positive_int64 none = none
positive_int64 (some n) = if n == 0 || leb (2 ^ 63) n then none else some n

-- strconv.ParseInt(s, 10, 64), where only a positive number is taken
unfoldable pub parse_id : Bytes → Option ℕ
unfolding digits_from
parse_id s = positive_int64 (unsigned (unsign s))

abbrev pub tail_id : Bool → Bytes → Option (ℕ × Bool)
unfolding parse_id
tail_id contents s =
    if s =? [] || contains s b'/'
    then none
    else elim (parse_id s) [ none ↦ none | some n ↦ some (n, contents) ]

-- strings.CutSuffix
abbrev pub cut_suffix : Bytes → Bytes → Option Bytes
cut_suffix suffix s =
    if leb (length suffix) (length s) && drop (length s - length suffix) s =? suffix
    then some (take (length s - length suffix) s)
    else none

abbrev pub tail_of_cut : Bytes → Option Bytes → Option (ℕ × Bool)
unfolding parse_id
tail_of_cut tail none = tail_id false tail
tail_of_cut tail (some s) = tail_id true s

-- parseFileTail
unfoldable pub parse_file_tail : Bytes → Option (ℕ × Bool)
parse_file_tail tail = tail_of_cut tail (cut_suffix (text "/contents") tail)
