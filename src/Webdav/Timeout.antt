-- ===== src/Webdav/Timeout.antt =====
-- parseTimeoutHeader and timeoutHeaderValue of internal/webdav/lock.go. A Duration is an int64 of
-- nanoseconds; the product with time.Second wraps.
pub mod Range
use nextcloud_go.Prelude.{
  ℕ, zero, suc, ◌+◌, ◌*◌, ◌-◌, ◌/◌, ◌%◌, ◌^◌, Bool, true, false, not, ◌&&◌, ◌||◌, Option, none,
  some, List, [], ◌∷◌, ◌++◌, Bytes, text, ltb, leb, ◌==◌, ◌=?◌, bytes_equality, if◌then◌else◌, drop,
  ℤ, pos, negsuc, of_word,
}
use nextcloud_go.Text.{has_prefix, trim_space, cut, to_lower}

abbrev pub second : ℕ
second = 1000000000

abbrev pub default_lock_timeout : ℤ
default_lock_timeout = pos (1800 * second)

abbrev pub max_lock_timeout : ℕ
max_lock_timeout = 86400 * second

abbrev is_digit : ℕ → Bool
is_digit c = leb b'0' c && leb c b'9'

digits_from : ℕ → Bytes → Option ℕ
digits_from acc [] = some acc
digits_from acc (c ∷ s) = elim (is_digit c) [
  | true ↦ digits_from (acc * 10 + (c - b'0')) s
  | false ↦ none
]

-- An unsigned run of one digit or more.
magnitude : Bytes → Option ℕ
unfolding digits_from
magnitude [] = none
magnitude (c ∷ s) = digits_from 0 (c ∷ s)

abbrev positive_int : Option ℕ → Option ℤ
positive_int none = none
positive_int (some n) = if ltb n (2 ^ 63) then some (pos n) else none

abbrev negative_int : Option ℕ → Option ℤ
negative_int none = none
negative_int (some zero) = some (pos 0)
negative_int (some (suc n)) = if ltb n (2 ^ 63) then some (negsuc n) else none

-- strconv.ParseInt(s, 10, 64); `none` is an error
unfoldable pub parse_int : Bytes → Option ℤ
unfolding magnitude
parse_int [] = none
parse_int (c ∷ s) =
    if c == b'-'
    then negative_int (magnitude s)
    else if c == b'+'
    then positive_int (magnitude s)
    else positive_int (magnitude (c ∷ s))

abbrev cap : ℤ → ℤ
cap (pos d) = if ltb max_lock_timeout d then pos max_lock_timeout else pos d
cap (negsuc d) = negsuc d

-- time.Duration(n) * time.Second for n > 0, then the cap
unfoldable pub capped_seconds : ℕ → ℤ
unfolding of_word
capped_seconds n = cap (of_word (n * second % 2 ^ 64))

abbrev seconds_or_default : Option ℤ → ℤ
seconds_or_default none = default_lock_timeout
seconds_or_default (some (negsuc n)) = default_lock_timeout
seconds_or_default (some (pos zero)) = default_lock_timeout
seconds_or_default (some (pos (suc n))) = capped_seconds (suc n)

abbrev before_comma : Option (Bytes × Bytes) → Bytes → Bytes
before_comma none v = v
before_comma (some (a, b)) v = a

infinite : Bytes → Bool
unfolding to_lower
infinite v = to_lower v =? text "infinite"

first_timeout : Bytes → ℤ
unfolding infinite has_prefix to_lower parse_int
first_timeout first =
    if infinite first || not (has_prefix (text "second-") (to_lower first))
    then default_lock_timeout
    else seconds_or_default (parse_int (drop 7 first))

-- parseTimeoutHeader
unfoldable pub parse_timeout_header : Bytes → ℤ
unfolding first_timeout trim_space cut infinite
parse_timeout_header header =
    let v = trim_space header in
    if v =? [] || infinite v
    then default_lock_timeout
    else first_timeout (trim_space (before_comma (cut b',' v) v))

decimal_from : ℕ → ℕ → Bytes → Bytes
decimal_from zero n acc = acc
decimal_from (suc fuel) n acc =
    let rest = decimal_from fuel (n / 10) ((b'0' + n % 10) ∷ acc) in
    if ltb n 10 then (b'0' + n) ∷ acc else rest

-- strconv.Itoa of a number that is not negative
unfoldable pub itoa : ℕ → Bytes
unfolding decimal_from
itoa n = decimal_from (suc n) n []

abbrev whole_seconds : ℤ → ℕ
whole_seconds (pos d) = d / second
whole_seconds (negsuc d) = 0

-- timeoutHeaderValue
unfoldable pub timeout_header_value : ℤ → Bytes
unfolding itoa
timeout_header_value d = text "Second-" ++ itoa (whole_seconds d)
