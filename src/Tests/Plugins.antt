-- ===== src/Tests/Plugins.antt =====
-- A plugin with handles, statements and fuel.
use nextcloud_go.Prelude.{
  ℕ, true, some, [], ◌∷◌, Bytes, text, ◌≡◌, refl, bytes_eq, nat_equality, bytes_equality,
}
use nextcloud_go.Dict.{Dict, get, put, remove}
use nextcloud_go.Plugins.Handles.{Aggregate, HandleTable, handle_limit, acquire, add, remove_handle}
use nextcloud_go.Plugins.Handles.Budget.{Restored, remove_handle-add}
use nextcloud_go.Plugins.Fuel.{CallMeter}
use nextcloud_go.Plugins.Statements.{acquire_db_slot}

abbrev plugin : Bytes
plugin = text "notes"

abbrev one_open : Aggregate
one_open = (plugin, (1, 1) ∷ []) ∷ []

abbrev handles : HandleTable ℕ
handles = record { next = 1; counts = []; items = []; plugin = some plugin }

abbrev filled : HandleTable ℕ
filled = record {
  next = 2;
  counts = (2, 1) ∷ [];
  items = (1, record { kind = 2; val = 40 }) ∷ [];
  plugin = some plugin;
}

abbrev two_open : Aggregate
two_open = (plugin, (2, 1) ∷ (1, 1) ∷ []) ∷ []

added : add handles one_open 2 40 ≡ (filled, two_open, some 1)
unfolding add acquire handle_limit get put remove bytes_eq
added = refl

remove_handle-add_example : Restored handles one_open 2 40 (remove_handle filled two_open 1 2)
remove_handle-add_example = remove_handle-add handles one_open 2 40 filled two_open 1 added

abbrev meter : CallMeter
meter = record { budget = 2; count = 7; tripped = true }

abbrev busy : Dict Bytes ℕ
busy = (plugin, 3) ∷ []

slot_taken : (acquire_db_slot 4 plugin busy).1 ≡ true
unfolding acquire_db_slot get bytes_eq
slot_taken = refl
