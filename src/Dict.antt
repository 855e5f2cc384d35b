-- ===== src/Dict.antt =====
-- Go's maps as association lists over a key type with equality. The order of entries is the
-- model's own: the code reads a map's order nowhere that a theorem speaks of.
use nextcloud_go.Prelude.{
  Eq, ◌=?◌, ◌≡◌, Bool, Option, none, some, List, [], ◌∷◌, arith, if◌then◌else◌,
}

abbrev pub Dict {ℓ} : Type ℓ → Type ℓ → Type ℓ
Dict K V = List (K × V)

module _ {ℓ} {K V : Type ℓ} ⦃e : Eq K⦄ where
  -- m[k]
  unfoldable pub get : Dict K V → K → Option V
  get [] k = none
  get ((j, v) ∷ m) k = let rest = get m k in if j =? k then some v else rest

  -- delete(m, k)
  unfoldable pub remove : Dict K V → K → Dict K V
  remove [] k = []
  remove ((j, v) ∷ m) k = let rest = remove m k in if j =? k then rest else (j, v) ∷ rest

  -- m[k] = v
  unfoldable pub put : Dict K V → K → V → Dict K V
  unfolding remove
  put m k v = (k, v) ∷ remove m k

  -- for k := range m { if drop(k) { delete(m, k) } }
  unfoldable pub remove_if : (K → Bool) → Dict K V → Dict K V
  remove_if drop [] = []
  remove_if drop ((j, v) ∷ m) =
      let rest = remove_if drop m in if drop j then rest else (j, v) ∷ rest

  unfoldable pub keys : Dict K V → List K
  keys [] = []
  keys ((j, v) ∷ m) = j ∷ keys m

  pub get-remove :
      (m : Dict K V) (k j : K) → get (remove m k) j ≡ (if k =? j then none else get m j)
  unfolding get remove
  get-remove [] k j = ground arith
  get-remove ((i, v) ∷ m) k j =
      ground (arith, get-remove m k j, e.beq_iff i k, e.beq_iff i j, e.beq_iff k j)

  pub get-put :
      (m : Dict K V) (k j : K) (v : V) → get (put m k v) j ≡ (if k =? j then some v else get m j)
  unfolding get put
  get-put m k j v = ground (arith, get-remove m k j)

  pub get-remove_if :
      (drop : K → Bool) (m : Dict K V) (j : K)
      → get (remove_if drop m) j ≡ (if drop j then none else get m j)
  unfolding get remove_if
  get-remove_if drop [] j = ground arith
  get-remove_if drop ((i, v) ∷ m) j = ground (arith, get-remove_if drop m j, e.beq_iff i j)

pub ruleset dict_laws = (get-remove, get-put, get-remove_if)
