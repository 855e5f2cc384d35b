-- ===== src/Plugins/Handles.antt =====
-- internal/plugins/handleagg.go and the handle table of internal/plugins/instance.go. Kinds are the
-- numbers of the source; a table's next id is an int32, kept as its bits. A value that a handle
-- stands for is of any type.
pub mod Counts
pub mod Budget
use nextcloud_go.Prelude.{
  Eq, ℕ, zero, suc, ◌+◌, ◌-◌, ◌%◌, ◌^◌, Bool, true, false, not, ◌&&◌, ◌||◌, Option, none, some,
  List, [], ◌∷◌, Bytes, ltb, leb, ◌==◌, ◌=?◌, bytes_equality, nat_equality, if◌then◌else◌,
}
use nextcloud_go.Dict.{Dict, get, put, remove}

abbrev pub or_zero : Option ℕ → ℕ
or_zero none = 0
or_zero (some n) = n

-- m[k] of a map of counts, where a missing key reads as zero
abbrev pub count_of : {K : Type 0} ⦃e : Eq K⦄ → Dict K ℕ → K → ℕ
count_of m k = or_zero (get m k)

-- handleLimits
unfoldable pub handle_limit : ℕ → ℕ
handle_limit kind = if kind == 0 then 64 else if kind == 1 || kind == 2 then 16 else 0

abbrev pub Kinds : Type 0
Kinds = Dict ℕ ℕ

-- handleAggregate
abbrev pub Aggregate : Type 0
Aggregate = Dict Bytes Kinds

abbrev pub or_no_kinds : Option Kinds → Kinds
or_no_kinds none = []
or_no_kinds (some kinds) = kinds

-- acquire: the entry for the plugin stays, whatever the answer
unfoldable pub acquire : Aggregate → Bytes → ℕ → Aggregate × Bool
acquire a plugin kind =
    let kinds = or_no_kinds (get a plugin) in
    if leb (handle_limit kind) (count_of kinds kind)
    then (put a plugin kinds, false)
    else (put a plugin (put kinds kind (suc (count_of kinds kind))), true)

abbrev pub put_kinds : Aggregate → Bytes → Kinds → Aggregate
put_kinds a plugin [] = remove a plugin
put_kinds a plugin (k ∷ kinds) = put a plugin (k ∷ kinds)

abbrev pub less_one : Kinds → ℕ → Kinds
less_one kinds kind =
    if ltb 1 (count_of kinds kind)
    then put kinds kind (count_of kinds kind - 1)
    else remove kinds kind

abbrev pub release_from : Aggregate → Bytes → ℕ → Option Kinds → Aggregate
release_from a plugin kind none = a
release_from a plugin kind (some kinds) = put_kinds a plugin (less_one kinds kind)

-- release
unfoldable pub release : Aggregate → Bytes → ℕ → Aggregate
release a plugin kind = release_from a plugin kind (get a plugin)

pub record HandleEntry (V : Type 0) : Type 0 where
  pub kind : ℕ
  pub val : V

-- handleTable, without its aggregate: `plugin` is `none` where agg is nil.
pub record HandleTable (V : Type 0) : Type 0 where
  pub next : ℕ
  pub counts : Kinds
  pub items : Dict ℕ (HandleEntry V)
  pub plugin : Option Bytes

abbrev pub acquired : Aggregate → Option Bytes → ℕ → Aggregate × Bool
acquired a none kind = (a, true)
acquired a (some plugin) kind = acquire a plugin kind

abbrev pub released : Aggregate → Option Bytes → ℕ → Aggregate
released a none kind = a
released a (some plugin) kind = release a plugin kind

module _ {V : Type 0} where
  abbrev pub entered :
      HandleTable V → ℕ → V → Aggregate × Bool → HandleTable V × Aggregate × Option ℕ
  entered t kind val (a, false) = (t, a, none)
  entered t kind val (a, true) = (
    record t {
      next = suc t.next % 2 ^ 32;
      counts = put t.counts kind (suc (count_of t.counts kind));
      items = put t.items t.next (record { kind = kind; val = val });
    },
    a,
    some t.next,
  )

  -- add; `none` is ErrHandleLimit
  unfoldable pub add : HandleTable V → Aggregate → ℕ → V → HandleTable V × Aggregate × Option ℕ
  add t a kind val =
      if leb (handle_limit kind) (count_of t.counts kind)
      then (t, a, none)
      else entered t kind val (acquired a t.plugin kind)

  abbrev pub of_kind : ℕ → Option (HandleEntry V) → Option V
  of_kind kind none = none
  of_kind kind (some e) = if e.kind == kind then some e.val else none

  -- get
  unfoldable pub get_handle : HandleTable V → ℕ → ℕ → Option V
  get_handle t id kind = of_kind kind (get t.items id)

  abbrev pub removed :
      HandleTable V → Aggregate → ℕ → ℕ → Option V → HandleTable V × Aggregate × Option V
  removed t a id kind none = (t, a, none)
  removed t a id kind (some v) = (
    record t { counts = put t.counts kind (count_of t.counts kind - 1); items = remove t.items id },
    released a t.plugin kind,
    some v,
  )

  -- remove
  unfoldable pub remove_handle :
      HandleTable V → Aggregate → ℕ → ℕ → HandleTable V × Aggregate × Option V
  remove_handle t a id kind = removed t a id kind (get_handle t id kind)

  unfoldable pub release_all : Option Bytes → Dict ℕ (HandleEntry V) → Aggregate → Aggregate
  release_all plugin [] a = a
  release_all plugin ((id, e) ∷ items) a = release_all plugin items (released a plugin e.kind)

  -- closeAll, without the Rollback or Close of the values
  unfoldable pub close_all : HandleTable V → Aggregate → HandleTable V × Aggregate
  close_all t a = (record t { counts = []; items = [] }, release_all t.plugin t.items a)
