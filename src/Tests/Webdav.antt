-- ===== src/Tests/Webdav.antt =====
-- Headers of the WebDAV handler, and what the code makes of them.
use nextcloud_go.Prelude.{
  List, Bytes, text, refl, true, false, [], ◌∷◌, ◌≡◌, arith, pos, ◌↔◌, bytes_equality,
}
use nextcloud_go.Webdav.Timeout.{capped_seconds}
use nextcloud_go.Webdav.Timeout.Range.{capped_seconds_wraps}
use nextcloud_go.Webdav.Cond.{parse_if_etags, WriteCond, evaluate, star}
use nextcloud_go.Webdav.Cond.RoundTrip.{print_if, parse_if_etags-print_if}
use nextcloud_go.Webdav.Cond.Evaluate.{IsAllowed, evaluate-IsAllowed}

-- Eighteen thousand million seconds give less than a third of one.
capped_seconds_wraps_example : capped_seconds 18446744074 ≡ pos 290448384
capped_seconds_wraps_example =
    capped_seconds_wraps 18446744074 1 290448384 (omega arith) (omega arith)

abbrev create_only : WriteCond
create_only = record { if_etags = []; if_match = []; if_none_match = star ∷ [] }

evaluate-IsAllowed_example : (evaluate create_only false [] ≡ true) ↔ IsAllowed create_only false []
evaluate-IsAllowed_example = evaluate-IsAllowed create_only false []

abbrev two_tags : List Bytes
two_tags = text "a1" ∷ text "b2" ∷ []

parse_if_etags-print_if_example : parse_if_etags (print_if two_tags) ≡ two_tags
parse_if_etags-print_if_example = parse_if_etags-print_if two_tags (
  ((refl, (refl, tt)), ((refl, (refl, tt)), (refl, (refl, tt)))),
  (((refl, (refl, tt)), ((refl, (refl, tt)), (refl, (refl, tt)))), tt),
)
