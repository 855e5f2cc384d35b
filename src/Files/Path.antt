-- ===== src/Files/Path.antt =====
-- internal/files/path.go and parentFilePath of internal/files/lock.go.
pub mod Normal
pub mod Idempotent
use nextcloud_go.Prelude.{
  ℕ, zero, suc, ◌≤◌, Bool, true, false, ◌&&◌, ◌||◌, not, Option, none, some, List, [], ◌∷◌, ◌++◌,
  Bytes, text, ltb, leb, ◌==◌, ◌=?◌, bytes_equality, nat_equality, if◌then◌else◌, length, map, all,
  contains,
}
use nextcloud_go.Text.{has_prefix, trim_right, trim_suffix, split, join, before_last}

-- The bytes that may come next in a well-formed UTF-8 text.
pub data Utf8State : Type 0 where
  start : Utf8State
  more : ℕ → Utf8State
  after_e0 after_ed after_f0 after_f4 : Utf8State

abbrev between : ℕ → ℕ → ℕ → Bool
between lo hi c = leb lo c && leb c hi

lead : ℕ → Option Utf8State
lead c =
    if ltb c 128
    then some start
    else if between 0xc2 0xdf c
    then some (more 1)
    else if c == 0xe0
    then some after_e0
    else if c == 0xed
    then some after_ed
    else if between 0xe1 0xef c
    then some (more 2)
    else if c == 0xf0
    then some after_f0
    else if between 0xf1 0xf3 c
    then some (more 3)
    else if c == 0xf4
    then some after_f4
    else none

abbrev remaining : ℕ → Utf8State
remaining zero = start
remaining (suc n) = more (suc n)

utf8_step : Utf8State → ℕ → Option Utf8State
unfolding lead
utf8_step start c = lead c
utf8_step (more zero) c = none
utf8_step (more (suc n)) c = if between 0x80 0xbf c then some (remaining n) else none
utf8_step after_e0 c = if between 0xa0 0xbf c then some (more 1) else none
utf8_step after_ed c = if between 0x80 0x9f c then some (more 1) else none
utf8_step after_f0 c = if between 0x90 0xbf c then some (more 2) else none
utf8_step after_f4 c = if between 0x80 0x8f c then some (more 2) else none

abbrev is_start : Utf8State → Bool
is_start start = true
is_start _ = false

utf8_from : Utf8State → Bytes → Bool
unfolding utf8_step
utf8_from st [] = is_start st
utf8_from st (c ∷ s) = elim (utf8_step st c) [ none ↦ false | some st' ↦ utf8_from st' s ]

-- utf8.ValidString
unfoldable pub valid_utf8 : Bytes → Bool
unfolding utf8_from
valid_utf8 = utf8_from start

abbrev pub is_slash : ℕ → Bool
is_slash c = c == b'/'

-- strings.ReplaceAll(p, "\\", "/")
unfoldable pub slashes : Bytes → Bytes
slashes = map (λ c. if c == 92 then b'/' else c)

abbrev pub or_root : Bytes → Bytes
or_root [] = b'/' ∷ []
or_root (c ∷ p) = c ∷ p

unfoldable pub rooted : Bytes → Bytes
unfolding has_prefix
rooted p = if has_prefix (b'/' ∷ []) p then p else b'/' ∷ p

unfoldable pub untrailed : Bytes → Bytes
unfolding trim_right
untrailed p = if ltb 1 (length p) then or_root (trim_right is_slash p) else p

-- A segment that NormalizePath lets through.
unfoldable pub good_segment : Bytes → Bool
good_segment seg = not (seg =? [] || (seg =? text "." || seg =? text ".."))

abbrev pub tail_of : List Bytes → List Bytes
tail_of [] = []
tail_of (p ∷ ps) = ps

-- The segments behind the first, put together again; `none` is ErrInvalidPath.
unfoldable pub rejoin : List Bytes → Option Bytes
unfolding all good_segment
rejoin [] = some (b'/' ∷ [])
rejoin (seg ∷ segs) =
    if all good_segment (seg ∷ segs) then some (b'/' ∷ join b'/' (seg ∷ segs)) else none

unfoldable pub by_segments : Bytes → Option Bytes
by_segments p = if p =? (b'/' ∷ []) then some (b'/' ∷ []) else rejoin (tail_of (split b'/' p))

-- NormalizePath; `none` is ErrInvalidPath, its only error.
unfoldable pub normalize_path : Bytes → Option Bytes
normalize_path p =
    if contains p 0 || not (valid_utf8 p)
    then none
    else by_segments (untrailed (rooted (or_root (slashes p))))

abbrev or_slash : Option Bytes → Bytes
or_slash none = b'/' ∷ []
or_slash (some p) = or_root p

parent_of_trimmed : Bytes → Bytes
parent_of_trimmed p =
    if p =? [] || p =? (b'/' ∷ []) then b'/' ∷ [] else or_slash (before_last b'/' p)

-- parentFilePath of lock.go: the part before the last slash, "/" at the top.
unfoldable pub parent_file_path : Bytes → Bytes
unfolding parent_of_trimmed trim_suffix before_last
parent_file_path p = parent_of_trimmed (trim_suffix b'/' p)

abbrev transfer_char : ℕ → Bool
transfer_char c =
    between b'a' b'z' c
    || (between b'A' b'Z' c || (between b'0' b'9' c || (c == b'_' || c == b'-')))

-- ValidTransferID
unfoldable pub valid_transfer_id : Bytes → Bool
unfolding all
valid_transfer_id tid = not (tid =? [] || ltb 64 (length tid)) && all transfer_char tid
