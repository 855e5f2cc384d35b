-- ===== src/Webdav/Cond/RoundTrip.antt =====
-- The entity-tags of an If header, printed and parsed.
use nextcloud_go.Prelude.{
  ℕ, zero, suc, ◌<◌, false, not, ◌||◌, some, List, [], ◌∷◌, ◌++◌, Bytes, text, ◌≡◌, refl, sym, ap,
  ◌∙◌, arith, ◌==◌, ◌=?◌, bytes_eq, bytes_equality, ltb, length, take, drop, All, All-append,
  length-append, if◌then◌else◌,
}
use mathlib.Core.List.{append_assoc}
use nextcloud_go.Text.{
  Lacks, cut, trim_space, trim_left, trim_right, is_space, cons_unless, to_lower,
}
use nextcloud_go.Text.Laws.{cut-append}
use nextcloud_go.Webdav.Cond.{
  then_quote, ends_word, quoted_tokens, quoted_from, bracket_etags, bracket_from,
  list_starts_with_not, if_etags_from, parse_if_etags,
}

-- A tag that a state list can carry between its quotes.
abbrev pub IsTag : Bytes → Type 0
IsTag e = Lacks b'"' e × (Lacks b']' e × Lacks b')' e)

-- (["e1"])(["e2"])…
unfoldable pub print_if : List Bytes → Bytes
print_if [] = []
print_if (e ∷ es) = b'(' ∷ b'[' ∷ b'"' ∷ (e ++ (b'"' ∷ b']' ∷ b')' ∷ print_if es))

quoted : Bytes → Bytes
quoted e = b'"' ∷ (e ++ (b'"' ∷ []))

bracketed : Bytes → Bytes
bracketed e = b'[' ∷ b'"' ∷ (e ++ (b'"' ∷ b']' ∷ []))

quoted_tokens-quoted : (e : Bytes) → IsTag e → quoted_tokens (quoted e) ≡ e ∷ []
unfolding quoted_tokens quoted_from quoted cut
quoted_tokens-quoted e h =
    ap (then_quote (λ r. quoted_from (length (quoted e)) r)) (cut-append b'"' e [] h.0)

cut-quoted :
    (e : Bytes) → IsTag e → cut b']' (b'"' ∷ (e ++ (b'"' ∷ b']' ∷ []))) ≡ some (quoted e, [])
unfolding quoted
cut-quoted e h =
    ap (λ s. cut b']' (b'"' ∷ s)) (sym (append_assoc e (b'"' ∷ []) (b']' ∷ [])))
    ∙ cut-append b']' (b'"' ∷ (e ++ (b'"' ∷ []))) []
        (refl, All-append (λ x. (x == b']') ≡ false) e (b'"' ∷ []) h.1.0 (refl, tt))

bracket_etags-bracketed : (e : Bytes) → IsTag e → bracket_etags (bracketed e) ≡ e ∷ []
unfolding bracket_etags bracket_from bracketed
bracket_etags-bracketed e h = rw (cut-quoted e h) (rw (quoted_tokens-quoted e h) refl)

trim_right-bracket : (s : Bytes) → (s' : Bytes) × (trim_right is_space (b'[' ∷ s) ≡ b'[' ∷ s')
unfolding trim_right
trim_right-bracket s = go (trim_right is_space s)
  where
    go : (r : Bytes) → (s' : Bytes) × (cons_unless is_space b'[' r ≡ b'[' ∷ s')
    go [] = ([], refl)
    go (x ∷ r) = (x ∷ r, refl)

no_not :
    (s : Bytes)
    → (if ltb (length (b'[' ∷ s)) 3 || not (to_lower (take 3 (b'[' ∷ s)) =? text "not")
        then false
        else ends_word (drop 3 (b'[' ∷ s)))
      ≡ false
unfolding to_lower bytes_eq
no_not [] = refl
no_not (x ∷ []) = refl
no_not (x ∷ y ∷ s) = ground arith

list_starts_with_not-bracketed : (e : Bytes) → list_starts_with_not (bracketed e) ≡ false
unfolding list_starts_with_not bracketed trim_space trim_left
list_starts_with_not-bracketed e =
    let (s, same) = trim_right-bracket (b'"' ∷ (e ++ (b'"' ∷ b']' ∷ []))) in rw same (no_not s)

cut-bracketed :
    (e : Bytes) (rest : Bytes)
    → IsTag e
    → cut b')' (b'[' ∷ b'"' ∷ (e ++ (b'"' ∷ b']' ∷ b')' ∷ rest))) ≡ some (bracketed e, rest)
unfolding bracketed
cut-bracketed e rest h =
    ap (λ s. cut b')' (b'[' ∷ b'"' ∷ s)) (sym (append_assoc e (b'"' ∷ b']' ∷ []) (b')' ∷ rest)))
    ∙ cut-append b')' (b'[' ∷ b'"' ∷ (e ++ (b'"' ∷ b']' ∷ []))) rest (
      refl,
      (refl, All-append (λ x. (x == b')') ≡ false) e (b'"' ∷ b']' ∷ []) (h.1.1) (refl, (refl, tt))),
    )

if_etags_from-print_if :
    (fuel : ℕ) (es : List Bytes)
    → length es < fuel
    → All IsTag es
    → if_etags_from fuel (print_if es) ≡ es
unfolding if_etags_from print_if
if_etags_from-print_if zero es l h = absurd (omega (arith, l))
if_etags_from-print_if (suc fuel) [] l h = refl
if_etags_from-print_if (suc fuel) (e ∷ es) l h = rw (cut-bracketed e (print_if es) h.0) (
    rw (list_starts_with_not-bracketed e, bracket_etags-bracketed e h.0)
      (ap (λ r. e ∷ r) (if_etags_from-print_if fuel es (omega (arith, l)) h.1)))

length-print_if : (es : List Bytes) → length es < suc (length (print_if es))
unfolding print_if
length-print_if [] = omega arith
length-print_if (e ∷ es) =
    omega (arith, length-print_if es, length-append e (b'"' ∷ b']' ∷ b')' ∷ print_if es))

-- ParseIfETags reads back the tags of a header that lists each in a state list of its own, where no
-- tag has a quote, a closing bracket or a closing parenthesis.
pub parse_if_etags-print_if : (es : List Bytes) → All IsTag es → parse_if_etags (print_if es) ≡ es
unfolding parse_if_etags
parse_if_etags-print_if es h =
    if_etags_from-print_if (suc (length (print_if es))) es (length-print_if es) h
