-- ===== src/Webdav/Cond.antt =====
-- internal/webdav/cond.go: the conditional headers of a write and their evaluation.
pub mod Evaluate
pub mod RoundTrip
use nextcloud_go.Prelude.{
  ℕ, zero, suc, ◌+◌, Bool, true, false, not, ◌&&◌, ◌||◌, Option, none, some, List, [], ◌∷◌, ◌++◌,
  Bytes, text, ltb, ◌==◌, ◌=?◌, bytes_equality, if◌then◌else◌, length, take, drop, contains,
}
use nextcloud_go.Text.{trim_space, trim_prefix, trim_left, trim_right, cut, split, to_lower}

pub record WriteCond : Type 0 where
  pub if_etags : List Bytes
  pub if_match : List Bytes
  pub if_none_match : List Bytes

abbrev pub some_of : List Bytes → Bool
some_of [] = false
some_of (x ∷ xs) = true

abbrev pub star : Bytes
star = b'*' ∷ []

-- Evaluate on a condition that is not nil: whether the write may go on. `false` is
-- ErrPrecondition.
unfoldable pub evaluate : WriteCond → Bool → Bytes → Bool
evaluate c exists etag =
    if some_of c.if_etags && (not exists || not (contains c.if_etags etag))
    then false
    else if contains c.if_match star && not exists
    then false
    else if some_of c.if_match
        && not (contains c.if_match star)
        && (not exists || not (contains c.if_match etag))
    then false
    else if contains c.if_none_match star && exists
    then false
    else if some_of c.if_none_match && exists && contains c.if_none_match etag
    then false
    else true

-- The receiver may be nil.
unfoldable pub evaluate_cond : Option WriteCond → Bool → Bytes → Bool
unfolding evaluate
evaluate_cond none exists etag = true
evaluate_cond (some c) exists etag = evaluate c exists etag

-- The rounds of quotedTokens behind an opening and behind a closing quote.
abbrev pub then_quote : (Bytes → List Bytes) → Option (Bytes × Bytes) → List Bytes
then_quote next none = []
then_quote next (some (tok, rest)) = tok ∷ next rest

abbrev pub open_quote : (Bytes → List Bytes) → Option (Bytes × Bytes) → List Bytes
open_quote next none = []
open_quote next (some (before, inside)) = then_quote next (cut b'"' inside)

-- quotedTokens over what is left of the text
unfoldable pub quoted_from : ℕ → Bytes → List Bytes
unfolding cut
quoted_from zero s = []
quoted_from (suc fuel) s = open_quote (λ r. quoted_from fuel r) (cut b'"' s)

unfoldable pub quoted_tokens : Bytes → List Bytes
unfolding quoted_from
quoted_tokens s = quoted_from (suc (length s)) s

-- A span that no closing byte ends runs to the end of the text.
abbrev pub span_of : Option (Bytes × Bytes) → Bytes → Bytes × Bytes
span_of none s = (s, [])
span_of (some (a, b)) s = (a, b)

-- bracketETags over what is left of the text
unfoldable pub bracket_from : ℕ → Bytes → List Bytes
unfolding cut quoted_tokens
bracket_from zero s = []
bracket_from (suc fuel) s = elim (cut b'[' s) [
  | none ↦ []
  | some (before, inside) ↦
      let (span, rest) = span_of (cut b']' inside) inside in
      quoted_tokens span ++ bracket_from fuel rest
]

unfoldable pub bracket_etags : Bytes → List Bytes
unfolding bracket_from
bracket_etags s = bracket_from (suc (length s)) s

abbrev pub ends_word : Bytes → Bool
ends_word [] = true
ends_word (c ∷ s) = c == b' ' || (c == 9 || (c == b'<' || (c == b'[' || (c == b'"' || c == b'('))))

-- listStartsWithNot
unfoldable pub list_starts_with_not : Bytes → Bool
unfolding trim_space to_lower
list_starts_with_not list =
    let t = trim_space list in
    if ltb (length t) 3 || not (to_lower (take 3 t) =? text "not")
    then false
    else ends_word (drop 3 t)

-- ParseIfETags over what is left of the header
unfoldable pub if_etags_from : ℕ → Bytes → List Bytes
unfolding cut bracket_etags list_starts_with_not
if_etags_from zero h = []
if_etags_from (suc fuel) h = elim (cut b'(' h) [
  | none ↦ []
  | some (before, inside) ↦
      let (list, rest) = span_of (cut b')' inside) inside in
      let out = if_etags_from fuel rest in
      if list_starts_with_not list then out else bracket_etags list ++ out
]

-- ParseIfETags
unfoldable pub parse_if_etags : Bytes → List Bytes
unfolding if_etags_from
parse_if_etags h = if_etags_from (suc (length h)) h

abbrev is_quote : ℕ → Bool
is_quote c = c == b'"'

unfoldable pub bare_tag : Bytes → Bytes
unfolding trim_space trim_prefix trim_left trim_right
bare_tag raw = trim_right is_quote (trim_left is_quote (trim_prefix (text "W/") (trim_space raw)))

unfoldable pub bare_tags : List Bytes → List Bytes
unfolding bare_tag
bare_tags [] = []
bare_tags (raw ∷ raws) =
    let rest = bare_tags raws in if bare_tag raw =? [] then rest else bare_tag raw ∷ rest

-- splitETagList
unfoldable pub split_etag_list : Bytes → List Bytes
unfolding trim_space split bare_tags
split_etag_list h = if trim_space h =? [] then [] else bare_tags (split b',' h)
