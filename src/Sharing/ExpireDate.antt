-- ===== src/Sharing/ExpireDate.antt =====
-- parseExpireDate of internal/sharing/service.go, with what it uses of Go's time.ParseInLocation for
-- its two layouts. A time is in milliseconds from the year 0 until it becomes Unix milliseconds.
use nextcloud_go.Prelude.{
  ℕ, zero, suc, ◌+◌, ◌*◌, ◌-◌, ◌/◌, ◌%◌, Bool, true, false, not, ◌&&◌, ◌||◌, Option, none, some, [],
  ◌∷◌, Bytes, leb, ◌==◌, bytes_equality, if◌then◌else◌, ℤ, pos, negsuc,
}
use nextcloud_go.Text.{trim_left, trim_space}

abbrev pub is_digit : ℕ → Bool
is_digit c = leb 48 c && leb c 57

-- A number that was read, and the text behind it.
abbrev pub Parsed : Type 0
Parsed = Option (ℕ × Bytes)

-- Two digits, and with `false` one digit alone as well.
unfoldable pub get_num : Bool → Bytes → Parsed
get_num fixed [] = none
get_num fixed (a ∷ []) = if not fixed && is_digit a then some (a - 48, []) else none
get_num fixed (a ∷ b ∷ s) =
    if not (is_digit a)
    then none
    else if is_digit b
    then some (10 * (a - 48) + (b - 48), s)
    else if fixed
    then none
    else some (a - 48, b ∷ s)

unfoldable pub get_year : Bytes → Parsed
get_year (a ∷ b ∷ c ∷ d ∷ s) =
    if is_digit a && (is_digit b && (is_digit c && is_digit d))
    then some (1000 * (a - 48) + 100 * (b - 48) + 10 * (c - 48) + (d - 48), s)
    else none
get_year _ = none

-- A literal of the layout
abbrev pub literal : ℕ → Bytes → Option Bytes
literal c [] = none
literal c (x ∷ s) = if x == c then some s else none

-- A blank of the layout takes a run of blanks.
abbrev pub blanks : Bytes → Option Bytes
blanks [] = some []
blanks (x ∷ s) = if x == 32 then some (trim_left (λ c. c == 32) s) else none

abbrev pub within : ℕ → ℕ → Parsed → Parsed
within lo hi none = none
within lo hi (some (n, s)) = if leb lo n && leb n hi then some (n, s) else none

infixl 10 ◌>>=◌
abbrev pub ◌>>=◌ {ℓ κ} : {A : Type ℓ} {B : Type κ} → Option A → (A → Option B) → Option B
none >>= f = none
some a >>= f = f a

unfoldable pub leap : ℕ → Bool
leap y = y % 4 == 0 && (not (y % 100 == 0) || y % 400 == 0)

unfoldable pub days_in : ℕ → ℕ → ℕ
unfolding leap
days_in y m =
    if m == 2
    then (if leap y then 29 else 28)
    else if m == 4 || (m == 6 || (m == 9 || m == 11))
    then 30
    else 31

-- The days of the months 1 to m of a year.
unfoldable pub days_of_months : ℕ → ℕ → ℕ
unfolding days_in
days_of_months y zero = 0
days_of_months y (suc m) = days_of_months y m + days_in y (suc m)

abbrev pub days_before_year : ℕ → ℕ
days_before_year y = 365 * y + (y + 3) / 4 - (y + 99) / 100 + (y + 399) / 400

abbrev pub date_ms : ℕ → ℕ → ℕ → ℕ
unfolding days_of_months
date_ms y m d = (days_before_year y + days_of_months y (m - 1) + (d - 1)) * 86400000

-- Layout 2006-01-02: the time, and the text behind it. The day is checked against its month.
unfoldable pub parse_day : Bytes → Parsed
unfolding get_num get_year days_in
parse_day s = do
  (y, s1) ← get_year s
  s2 ← literal b'-' s1
  (m, s3) ← within 1 12 (get_num true s2)
  s4 ← literal b'-' s3
  (d, s5) ← get_num true s4
  if leb 1 d && leb d (days_in y m) then some (date_ms y m d, s5) else none

-- The digits at the head of a text, and the text behind them
unfoldable pub span_digits : Bytes → Bytes × Bytes
span_digits [] = ([], [])
span_digits (c ∷ s) =
    let (ds, rest) = span_digits s in if is_digit c then (c ∷ ds, rest) else ([], c ∷ s)

abbrev pub millis : Bytes → ℕ
millis [] = 0
millis (a ∷ []) = 100 * (a - 48)
millis (a ∷ b ∷ []) = 100 * (a - 48) + 10 * (b - 48)
millis (a ∷ b ∷ c ∷ s) = 100 * (a - 48) + 10 * (b - 48) + (c - 48)

-- Behind the seconds Go takes a fraction that the layout does not name.
unfoldable pub fraction : Bytes → ℕ × Bytes
unfolding span_digits
fraction (p ∷ d ∷ s) =
    let (ds, rest) = span_digits (d ∷ s) in
    if (p == b'.' || p == b',') && is_digit d then (millis ds, rest) else (0, p ∷ d ∷ s)
fraction s = (0, s)

-- Layout 15:04:05
unfoldable pub parse_clock : Bytes → Parsed
unfolding get_num fraction
parse_clock s = do
  (h, s1) ← within 0 23 (get_num false s)
  s2 ← literal b':' s1
  (mi, s3) ← within 0 59 (get_num true s2)
  s4 ← literal b':' s3
  (se, s5) ← within 0 59 (get_num true s4)
  let (ms, s6) = fraction s5
  some ((h * 3600 + mi * 60 + se) * 1000 + ms, s6)

abbrev pub at_end : Parsed → Option ℕ
at_end none = none
at_end (some (n, [])) = some n
at_end (some (n, c ∷ s)) = none

-- time.ParseInLocation("2006-01-02", raw, time.UTC)
unfoldable pub parse_date : Bytes → Option ℕ
unfolding parse_day
parse_date s = at_end (parse_day s)

-- time.ParseInLocation("2006-01-02 15:04:05", raw, time.UTC)
unfoldable pub parse_date_time : Bytes → Option ℕ
unfolding parse_day parse_clock
parse_date_time s = at_end (do
  (day, s1) ← parse_day s
  s2 ← blanks s1
  (clock, s3) ← parse_clock s2
  some (day + clock, s3))

-- 1970-01-01 in milliseconds from the year 0
abbrev pub epoch : ℕ
epoch = 719528 * 86400000

unfoldable pub unix_milli : ℕ → ℤ
unix_milli t = if leb epoch t then pos (t - epoch) else negsuc (epoch - t - 1)

abbrev pub end_of_day : ℕ
end_of_day = ((23 * 60 + 59) * 60 + 59) * 1000

abbrev pub by_date : Option ℕ → Option ℤ
by_date none = none
by_date (some t) = some (unix_milli (t + end_of_day))

abbrev pub by_date_time : Option ℕ → Option ℤ → Option ℤ
by_date_time (some t) rest = some (unix_milli t)
by_date_time none rest = rest

abbrev pub parse_trimmed : Bytes → Option ℤ
unfolding parse_date parse_date_time unix_milli
parse_trimmed [] = some (pos 0)
parse_trimmed (c ∷ s) = by_date_time (parse_date_time (c ∷ s)) (by_date (parse_date (c ∷ s)))

-- parseExpireDate; `none` is errBadExpire.
unfoldable pub parse_expire_date : Bytes → Option ℤ
parse_expire_date raw = parse_trimmed (trim_space raw)
