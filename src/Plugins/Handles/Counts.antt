-- ===== src/Plugins/Handles/Counts.antt =====
-- The counts of the aggregate as a function, and what acquire and release do to it.
use nextcloud_go.Prelude.{
  ℕ, suc, ◌-◌, true, ◌&&◌, Option, none, some, [], ◌∷◌, Bytes, ◌≡◌, refl, ap, ltb, leb, ◌==◌, ◌=?◌,
  bytes_equality, nat_equality, if◌then◌else◌, arith, Bool-cases, inl, inr, bytes_eq_iff, ==_iff,
}
use nextcloud_go.Dict.{get, put, get-put, get-remove}
use nextcloud_go.Plugins.Handles.{
  count_of, handle_limit, Kinds, Aggregate, or_no_kinds, acquire, put_kinds, less_one, release_from,
  release,
}

-- The open handles of a plugin and a kind.
unfoldable pub held : Aggregate → Bytes → ℕ → ℕ
held a plugin kind = count_of (or_no_kinds (get a plugin)) kind

held-put :
    (a : Aggregate) (plugin : Bytes) (kinds : Kinds) (p : Bytes) (k : ℕ)
    → held (put a plugin kinds) p k ≡ (if plugin =? p then count_of kinds k else held a p k)
unfolding held
held-put a plugin kinds p k = elim (Bool-cases (plugin =? p)) [
  | inl e ↦ rw (get-put, e) refl
  | inr e ↦ rw (get-put, e) refl
]

held-put_kinds :
    (a : Aggregate) (plugin : Bytes) (kinds : Kinds) (p : Bytes) (k : ℕ)
    → held (put_kinds a plugin kinds) p k ≡ (if plugin =? p then count_of kinds k else held a p k)
unfolding held get
held-put_kinds a plugin [] p k = elim (Bool-cases (plugin =? p)) [
  | inl e ↦ rw (get-remove, e) refl
  | inr e ↦ rw (get-remove, e) refl
]
held-put_kinds a plugin (x ∷ kinds) p k = held-put a plugin (x ∷ kinds) p k

pub count_of-put :
    (kinds : Kinds) (kind n k : ℕ)
    → count_of (put kinds kind n) k ≡ (if kind == k then n else count_of kinds k)
count_of-put kinds kind n k = elim (Bool-cases (kind == k)) [
  | inl e ↦ rw (get-put, e) refl
  | inr e ↦ rw (get-put, e) refl
]

count_of-less_one :
    (kinds : Kinds) (kind k : ℕ)
    → count_of (less_one kinds kind) k
      ≡ (if kind == k then count_of kinds kind - 1 else count_of kinds k)
count_of-less_one kinds kind k = elim (Bool-cases (ltb 1 (count_of kinds kind))) [
  | inl e ↦ rw e (count_of-put kinds kind (count_of kinds kind - 1) k)
  | inr e ↦
      rw (e, get-remove)
        (elim (Bool-cases (kind == k)) [
          | inl same ↦ rw same (ground (arith, e))
          | inr other ↦ rw other refl
        ])
]

same_plugin :
    (a : Aggregate) (plugin p : Bytes) (k : ℕ) → (plugin =? p) ≡ true → held a plugin k ≡ held a p k
same_plugin a plugin p k e = ap (λ x. held a x k) ((bytes_eq_iff plugin p).0 e)

held-kinds :
    (a : Aggregate) (plugin : Bytes) (o : Option Kinds) (k : ℕ)
    → get a plugin ≡ o
    → held a plugin k ≡ count_of (or_no_kinds o) k
unfolding held
held-kinds a plugin o k e = ap (λ x. count_of (or_no_kinds x) k) e

no_kinds : (k : ℕ) → count_of {K = ℕ} [] k ≡ 0
unfolding get
no_kinds k = refl

same_kind :
    (a : Aggregate) (p : Bytes) (kind k : ℕ) → (kind == k) ≡ true → held a p kind ≡ held a p k
same_kind a p kind k e = ap (λ x. held a p x) ((==_iff kind k).0 e)

held_count :
    (a : Aggregate) (plugin : Bytes) (k : ℕ)
    → count_of (or_no_kinds (get a plugin)) k ≡ held a plugin k
unfolding held
held_count a plugin k = refl

-- acquire takes one handle of the plugin and kind if the count is below the limit, and no count
-- changes otherwise.
pub held-acquire :
    (a : Aggregate) (plugin : Bytes) (kind : ℕ) (p : Bytes) (k : ℕ)
    → ((acquire a plugin kind).1 ≡ ltb (held a plugin kind) (handle_limit kind))
      × (held (acquire a plugin kind).0 p k ≡ (
          if (plugin =? p && kind == k) && ltb (held a plugin kind) (handle_limit kind)
          then suc (held a p k)
          else held a p k))
unfolding acquire
held-acquire a plugin kind p k = elim (Bool-cases (leb (handle_limit kind) (held a plugin kind))) [
  | inl full ↦ (
    ground (arith, full, held_count a plugin kind),
    ground (
      arith,
      full,
      held_count a plugin kind,
      held_count a plugin k,
      held-put a plugin (or_no_kinds (get a plugin)) p k,
      same_plugin a plugin p k,
    ),
  )
  | inr free ↦ (
    ground (arith, free, held_count a plugin kind),
    ground (
      arith,
      free,
      held_count a plugin kind,
      held_count a plugin k,
      held-put a plugin (put (or_no_kinds (get a plugin)) kind (suc (held a plugin kind))) p k,
      count_of-put (or_no_kinds (get a plugin)) kind (suc (held a plugin kind)) k,
      same_plugin a plugin p k,
      same_kind a p kind k,
    ),
  )
]

-- release returns one handle of the plugin and kind, if there is one, and changes no other count.
pub held-release :
    (a : Aggregate) (plugin : Bytes) (kind : ℕ) (p : Bytes) (k : ℕ)
    → held (release a plugin kind) p k
      ≡ (if plugin =? p && kind == k then held a p k - 1 else held a p k)
unfolding release
held-release a plugin kind p k = go (get a plugin) refl
  where
    go :
        (o : Option Kinds)
        → get a plugin ≡ o
        → held (release_from a plugin kind o) p k
          ≡ (if plugin =? p && kind == k then held a p k - 1 else held a p k)
    go none e = ground (arith, held-kinds a plugin none k e, no_kinds k, same_plugin a plugin p k)
    go (some kinds) e = ground (
      arith,
      held-put_kinds a plugin (less_one kinds kind) p k,
      count_of-less_one kinds kind k,
      held-kinds a plugin (some kinds) kind e,
      held-kinds a plugin (some kinds) k e,
      same_plugin a plugin p k,
      same_kind a p kind k,
    )
