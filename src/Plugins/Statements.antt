-- ===== src/Plugins/Statements.antt =====
-- internal/plugins/dbquota.go: the statements that each plugin has in flight.
use nextcloud_go.Prelude.{
  ℕ, suc, ◌-◌, ◌≤◌, Bool, true, false, Bytes, ◌≡◌, refl, ap, ltb, leb, ◌=?◌, bytes_equality,
  bytes_eq_iff, beq_refl, if◌then◌else◌, arith, Bool-cases, inl, inr,
}
use nextcloud_go.Dict.{Dict, put, remove, get-put, get-remove}
use nextcloud_go.Plugins.Handles.{count_of}

-- acquireDBSlot under the limit `max`: the map and whether there was a slot
unfoldable pub acquire_db_slot : ℕ → Bytes → Dict Bytes ℕ → Dict Bytes ℕ × Bool
acquire_db_slot max plugin m =
    if leb max (count_of m plugin)
    then (m, false)
    else (put m plugin (suc (count_of m plugin)), true)

-- releaseDBSlot
unfoldable pub release_db_slot : Bytes → Dict Bytes ℕ → Dict Bytes ℕ
release_db_slot plugin m =
    if ltb 1 (count_of m plugin) then put m plugin (count_of m plugin - 1) else remove m plugin

put-count_of :
    (m : Dict Bytes ℕ) (plugin : Bytes) (n : ℕ) (p : Bytes)
    → count_of (put m plugin n) p ≡ (if plugin =? p then n else count_of m p)
put-count_of m plugin n p = elim (Bool-cases (plugin =? p)) [
  | inl e ↦ rw (get-put, e) refl
  | inr e ↦ rw (get-put, e) refl
]

remove-count_of :
    (m : Dict Bytes ℕ) (plugin p : Bytes)
    → count_of (remove m plugin) p ≡ (if plugin =? p then 0 else count_of m p)
remove-count_of m plugin p = elim (Bool-cases (plugin =? p)) [
  | inl e ↦ rw (get-remove, e) refl
  | inr e ↦ rw (get-remove, e) refl
]

same_count :
    (m : Dict Bytes ℕ) (plugin p : Bytes) → (plugin =? p) ≡ true → count_of m plugin ≡ count_of m p
same_count m plugin p e = ap (λ x. count_of m x) ((bytes_eq_iff plugin p).0 e)

-- When acquireDBSlot has a slot, the plugin's statements are within the limit behind it, and a
-- release brings every plugin's number back to what it was.
pub release-acquire_db_slot :
    (max : ℕ) (plugin p : Bytes) (m : Dict Bytes ℕ)
    → (acquire_db_slot max plugin m).1 ≡ true
    → (count_of (acquire_db_slot max plugin m).0 plugin ≤ max)
      × (count_of (release_db_slot plugin (acquire_db_slot max plugin m).0) p ≡ count_of m p)
unfolding acquire_db_slot release_db_slot
release-acquire_db_slot max plugin p m h = elim (Bool-cases (leb max (count_of m plugin))) [
  | inl full ↦ absurd (ground arith)
  | inr free ↦ (
    ground (arith, free, put-count_of m plugin (suc (count_of m plugin)) plugin, beq_refl plugin),
    ground (
      arith,
      free,
      beq_refl plugin,
      put-count_of m plugin (suc (count_of m plugin)) plugin,
      put-count_of m plugin (suc (count_of m plugin)) p,
      put-count_of (put m plugin (suc (count_of m plugin))) plugin (suc (count_of m plugin) - 1) p,
      remove-count_of (put m plugin (suc (count_of m plugin))) plugin p,
      same_count m plugin p,
    ),
  )
]
