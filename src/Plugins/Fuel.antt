-- ===== src/Plugins/Fuel.antt =====
-- callMeter of internal/plugins/fuel.go. A call enters functions one by one; `true` lets the entry
-- run and `false` is the panic with ErrFuelExhausted. The counter is a uint64.
use nextcloud_go.Prelude.{
  ℕ, zero, suc, ◌-◌, ◌%◌, ◌^◌, ◌<◌, ◌≤◌, Bool, true, false, ◌≡◌, refl, ◌∙◌, ap, ltb, if◌then◌else◌,
  arith, Bool-cases, inl, inr,
}

pub record CallMeter : Type 0 where
  pub budget : ℕ
  pub count : ℕ
  pub tripped : Bool

-- reset
unfoldable pub reset : CallMeter → CallMeter
reset m = record m { count = 0; tripped = false }

-- exceeded
unfoldable pub exceeded : CallMeter → Bool
exceeded m = m.tripped

-- enter
unfoldable pub enter : CallMeter → CallMeter × Bool
enter m =
    if m.tripped
    then (m, false)
    else (let n = suc m.count % 2 ^ 64 in
        if ltb m.budget n
        then (record m { count = n; tripped = true }, false)
        else (record m { count = n }, true))

-- The meter after `n` entries, and whether the last of them ran.
unfoldable pub entries : ℕ → CallMeter → CallMeter
entries zero m = m
entries (suc n) m = (enter (entries n m)).0

entries-within :
    (n : ℕ) (m : CallMeter)
    → n ≤ m.budget
    → m.budget < 2 ^ 64 - 1
    → entries n (reset m) ≡ record m { count = n; tripped = false }
unfolding entries enter reset
entries-within zero m h w = refl
entries-within (suc n) m h w =
    ap (λ x. (enter x).0) (entries-within n m (omega (arith, h)) w) ∙ ground (arith, h, w)

entries-past :
    (n : ℕ) (m : CallMeter)
    → m.budget < n
    → m.budget < 2 ^ 64 - 1
    → entries n (reset m) ≡ record m { count = suc m.budget; tripped = true }
unfolding entries enter
entries-past zero m h w = absurd (omega (arith, h))
entries-past (suc n) m h w = elim (Bool-cases (ltb m.budget n)) [
  | inl e ↦ ap (λ x. (enter x).0) (entries-past n m (ground (arith, e)) w)
  | inr e ↦
      let last : n ≡ m.budget = ground (arith, e, h) in
      ap (λ x. (enter x).0) (entries-within n m (omega (arith, last)) w) ∙ ground (arith, last, w)
]

-- Where the budget is below the counter's last value: after a reset and `n` entries, the next
-- entry runs exactly if `n` is below the budget, and the meter has tripped exactly if `n` is past
-- it.
pub enter-entries :
    (n : ℕ) (m : CallMeter)
    → m.budget < 2 ^ 64 - 1
    → ((enter (entries n (reset m))).1 ≡ ltb n m.budget)
      × (exceeded (entries n (reset m)) ≡ ltb m.budget n)
unfolding enter exceeded
enter-entries n m w = elim (Bool-cases (ltb m.budget n)) [
  | inl e ↦ rw (entries-past n m (ground (arith, e)) w) (ground (arith, e, w))
  | inr e ↦ rw (entries-within n m (ground (arith, e)) w) (ground (arith, e, w))
]
