-- ===== src/Plugins/Handles/Budget.antt =====
-- What the removal of a handle and the closing of a table give back to the counts.
use nextcloud_go.Prelude.{
  ℕ, suc, ◌-◌, Bool, true, false, Option, none, some, [], ◌∷◌, ◌=?◌, if◌then◌else◌, Bytes, ◌≡◌,
  refl, sym, subst, ap, ==_iff, ◌%◌, ◌^◌, ◌∙◌, leb, ◌==◌, bytes_equality, nat_equality, arith,
  Bool-cases, inl, inr, beq_refl,
}
use nextcloud_go.Dict.{Dict, get, put, get-put, get-remove}
use nextcloud_go.Plugins.Handles.{
  release, release_all, close_all, count_of, handle_limit, Aggregate, acquire, HandleEntry,
  HandleTable, acquired, released, entered, add, get_handle, removed, remove_handle,
}
use nextcloud_go.Plugins.Handles.Counts.{held, held-acquire, held-release, count_of-put}

-- What add took, released gives back.
held-released :
    (a : Aggregate) (plugin : Option Bytes) (kind : ℕ) (p : Bytes) (k : ℕ)
    → (acquired a plugin kind).1 ≡ true
    → held (released (acquired a plugin kind).0 plugin kind) p k ≡ held a p k
held-released a none kind p k h = refl
held-released a (some plugin) kind p k h =
    let (went, after) = held-acquire a plugin kind p k in
    ground (arith, h, went, after, held-release (acquire a plugin kind).0 plugin kind p k)

same_count : (m : Dict ℕ ℕ) (kind k : ℕ) → (kind == k) ≡ true → count_of m kind ≡ count_of m k
same_count m kind k e = ap (λ x. count_of m x) ((==_iff kind k).0 e)

module _ {V : Type 0} (t : HandleTable V) (a : Aggregate) (kind : ℕ) (val : V) where
  -- What the removal of the handle that `add` made leaves.
  pub record Restored (r : HandleTable V × Aggregate × Option V) : Type 0 where
    pub answer : r.2 ≡ some val
    pub per_table : (k : ℕ) → count_of r.0.counts k ≡ count_of t.counts k
    pub per_plugin : (p : Bytes) (k : ℕ) → held r.1 p k ≡ held a p k
    pub others : (j k : ℕ) → (t.next == j) ≡ false → get_handle r.0 j k ≡ get_handle t j k

  abbrev entry : HandleEntry V
  entry = record { kind = kind; val = val }

  -- The table with the handle in it.
  abbrev filled : HandleTable V
  filled = record t {
    next = suc t.next % 2 ^ 32;
    counts = put t.counts kind (suc (count_of t.counts kind));
    items = put t.items t.next entry;
  }

  get_handle-filled : get_handle filled t.next kind ≡ some val
  unfolding get_handle
  get_handle-filled = rw (get-put, beq_refl t.next) (rw (beq_refl kind) refl)

  removed-Restored :
      (a1 : Aggregate)
      → acquired a t.plugin kind ≡ (a1, true)
      → Restored (removed filled a1 t.next kind (some val))
  unfolding get_handle
  removed-Restored a1 e = record {
    answer = refl;
    per_table = λ k. ground (
      arith,
      count_of-put t.counts kind (suc (count_of t.counts kind)) k,
      count_of-put t.counts kind (suc (count_of t.counts kind)) kind,
      count_of-put (put t.counts kind (suc (count_of t.counts kind))) kind
          (count_of (put t.counts kind (suc (count_of t.counts kind))) kind - 1) k,
      beq_refl kind,
      same_count t.counts kind k,
    );
    per_plugin = λ p k.
        ap (λ g. held (released g.0 t.plugin kind) p k) (sym e)
        ∙ held-released a t.plugin kind p k (ap (λ g. g.1) e);
    others = λ j k other. rw (get-remove, other, get-put, other) refl;
  }

  -- What is to hold of the answer of add.
  abbrev Undone : HandleTable V × Aggregate × Option ℕ → Type 0
  Undone (t', a', none) = Unit {0}
  Undone (t', a', some id) = Restored (remove_handle t' a' id kind)

  entered-Undone :
      (g : Aggregate × Bool) → acquired a t.plugin kind ≡ g → Undone (entered t kind val g)
  unfolding remove_handle
  entered-Undone (a1, false) e = tt
  entered-Undone (a1, true) e =
      subst (λ o. Restored (removed filled a1 t.next kind o)) (sym get_handle-filled)
        (removed-Restored a1 e)

  -- A handle that add gives out can be removed under its kind: the removal answers the value, and
  -- every count of the table and of the aggregate, and every other handle, is as it was before.
  pub remove_handle-add :
      (t' : HandleTable V) (a' : Aggregate) (id : ℕ)
      → add t a kind val ≡ (t', a', some id)
      → Restored (remove_handle t' a' id kind)
  unfolding add
  remove_handle-add t' a' id q =
      elim (Bool-cases (leb (handle_limit kind) (count_of t.counts kind))) [
        | inl full ↦ absurd (ground arith)
        | inr free ↦
            let same : entered t kind val (acquired a t.plugin kind) ≡ (t', a', some id) =
              ground arith in
            subst Undone same (entered-Undone (acquired a t.plugin kind) refl)
      ]

-- The open handles of a kind in a table.
abbrev pub open_of : {V : Type 0} → ℕ → Dict ℕ (HandleEntry V) → ℕ
open_of k [] = 0
open_of k ((id, e) ∷ items) = if e.kind == k then suc (open_of k items) else open_of k items

held-release_all :
    {V : Type 0} (plugin : Bytes) (items : Dict ℕ (HandleEntry V)) (a : Aggregate) (p : Bytes)
    (k : ℕ)
    → held (release_all (some plugin) items a) p k
      ≡ (if plugin =? p then held a p k - open_of k items else held a p k)
unfolding release_all
held-release_all plugin [] a p k = ground arith
held-release_all plugin ((id, e) ∷ items) a p k = ground (
  arith,
  held-release_all plugin items (release a plugin e.kind) p k,
  held-release a plugin e.kind p k,
)

-- closeAll of a table that shares a plugin's budget leaves it without handles and counts, and takes
-- from the plugin's aggregate counts exactly the table's open handles of each kind.
pub held-close_all :
    {V : Type 0} (t : HandleTable V) (a : Aggregate) (plugin p : Bytes) (k : ℕ)
    → t.plugin ≡ some plugin
    → (held (close_all t a).1 p k
        ≡ (if plugin =? p then held a p k - open_of k t.items else held a p k))
      × ((j : ℕ) → get_handle (close_all t a).0 j k ≡ none)
      × (count_of (close_all t a).0.counts k ≡ 0)
unfolding close_all get_handle get
held-close_all t a plugin p k h = (
  ap (λ o. held (release_all o t.items a) p k) h ∙ held-release_all plugin t.items a p k,
  (λ j. refl),
  refl,
)
