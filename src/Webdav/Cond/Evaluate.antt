-- ===== src/Webdav/Cond/Evaluate.antt =====
-- Evaluate against the rules of the conditional headers, each stated by itself.
use nextcloud_go.Prelude.{
  List, [], ◌∷◌, refl, Bool, true, false, ◌↔◌, Bytes, ◌≡◌, arith, bytes_equality, contains,
}
use nextcloud_go.Webdav.Cond.{WriteCond, some_of, star, evaluate}

-- A write may go on if every header that is there allows it.
pub record IsAllowed (c : WriteCond) (exists : Bool) (etag : Bytes) : Type 0 where
  pub lists : some_of c.if_etags ≡ true → (exists ≡ true) × (contains c.if_etags etag ≡ true)
  pub match_any : contains c.if_match star ≡ true → exists ≡ true
  pub match_tag :
      some_of c.if_match ≡ true
      → contains c.if_match star ≡ false
      → (exists ≡ true) × (contains c.if_match etag ≡ true)
  pub none_match_any : contains c.if_none_match star ≡ true → exists ≡ false
  pub none_match_tag : exists ≡ true → contains c.if_none_match etag ≡ false

nothing_contained : (xs : List Bytes) (a : Bytes) → some_of xs ≡ false → contains xs a ≡ false
unfolding contains
nothing_contained [] a h = refl
nothing_contained (x ∷ xs) a h = absurd (cc)

-- Evaluate passes exactly the writes that every conditional header allows.
pub evaluate-IsAllowed :
    (c : WriteCond) (exists : Bool) (etag : Bytes)
    → (evaluate c exists etag ≡ true) ↔ IsAllowed c exists etag
unfolding evaluate
evaluate-IsAllowed c exists etag = (
  λ h. record {
    lists = ground (arith, h);
    match_any = ground (arith, h);
    match_tag = ground (arith, h);
    none_match_any = ground (arith, h);
    none_match_tag = ground (arith, h, nothing_contained c.if_none_match etag);
  },
  λ h. ground (arith, h.lists, h.match_any, h.match_tag, h.none_match_any, h.none_match_tag),
)
