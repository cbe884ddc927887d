-- ===== src/History/Manager.antt =====
-- The manager of the history items (desktop/history/history.go, `Manager`). Every method runs under
-- the manager's lock, so it is one step; items are cloned on the way in and out, so they are
-- values. A callback is known by a number, and a method returns the one that it calls at its end.
use clip_cascade_go_fork.Prelude.{
  ℕ, zero, suc, Bool, false, String, List, [], ◌∷◌, Option, none, some, str_eq, ltb, if◌then◌else◌,
  length, get_elem?, remove_at, insert_at, find,
}
use clip_cascade_go_fork.Prelude.Int.{ℤ, pos}
use clip_cascade_go_fork.History.State.{is_evictable_state}
use clip_cascade_go_fork.History.Item.{HistoryItem, Time, is_zero, after, is_valid_initial_item}

abbrev pub Callback : Type 0
Callback = ℕ

pub record Manager : Type 0 where
  pub items : List HistoryItem
  pub active_id : String
  pub max_items : ℕ
  pub on_changed : Option Callback

abbrev pub default_max_items : ℕ
default_max_items = 100

-- `NewManager`: a limit that is not positive is the default one.
unfoldable pub new_manager : ℤ → Manager
new_manager (pos (suc n)) = record {
  items = [];
  active_id = "";
  max_items = suc n;
  on_changed = none;
}
new_manager limit = record {
  items = [];
  active_id = "";
  max_items = default_max_items;
  on_changed = none;
}

abbrev pub has_id : String → HistoryItem → Bool
has_id id item = str_eq item.id id

unfoldable pub get_by_id_locked : List HistoryItem → String → Option HistoryItem
get_by_id_locked items id = find (has_id id) items

-- `findIndexByIDLocked`, with `none` for -1.
unfoldable pub find_index_by_id : List HistoryItem → String → Option ℕ
find_index_by_id [] id = none
find_index_by_id (item ∷ items) id =
    let rest = find_index_by_id items id in
    if has_id id item then some 0 else elim rest [ none ↦ none | some i ↦ some (suc i) ]

-- `insertIndexLocked`: the first item that is older than the new one, or the end.
unfoldable pub insert_index : List HistoryItem → Time → ℕ
insert_index [] created_at = 0
insert_index (item ∷ items) created_at =
    let rest = insert_index items created_at in
    if after created_at item.created_at then 0 else suc rest

abbrev pub is_evictable : HistoryItem → Bool
is_evictable item = is_evictable_state item.state

abbrev pub evictable_at : List HistoryItem → ℕ → Bool
evictable_at items i = elim (get_elem? items i) [ none ↦ false | some item ↦ is_evictable item ]

-- The inner loop of `evictOverflowLocked`: from index `n - 1` down to 0.
unfoldable pub evict_idx : List HistoryItem → ℕ → Option ℕ
evict_idx items zero = none
evict_idx items (suc idx) =
    let rest = evict_idx items idx in if evictable_at items idx then some idx else rest

-- The body of the outer loop, once an item to evict is found.
unfoldable pub evict_at : Manager → ℕ → Manager
evict_at m i = record m {
  items = remove_at m.items i;
  active_id = elim (get_elem? m.items i) [
    | none ↦ m.active_id
    | some evicted ↦ if str_eq m.active_id evicted.id then "" else m.active_id
  ];
}

-- The outer loop of `evictOverflowLocked`. Each round removes an item, so as many rounds as there
-- are items are enough. The result has the number of items that were evicted.
unfoldable pub evict_overflow_from : ℕ → Manager → ℕ → Manager × ℕ
evict_overflow_from zero m evicted = (m, evicted)
evict_overflow_from (suc fuel) m evicted =
    if ltb m.max_items (length m.items)
    then elim (evict_idx m.items (length m.items)) [
      | none ↦ (m, evicted)
      | some i ↦ evict_overflow_from fuel (evict_at m i) (suc evicted)
    ]
    else (m, evicted)

unfoldable pub evict_overflow : Manager → Manager × ℕ
evict_overflow m = evict_overflow_from (length m.items) m 0

-- The fields that `AddItem` fills in before it takes the lock.
unfoldable pub fill_defaults : HistoryItem → Time → String → HistoryItem
fill_defaults item now uuid =
    let created = if is_zero item.created_at then now else item.created_at in
    record item {
      id = if str_eq item.id "" then uuid else item.id;
      created_at = created;
      updated_at = if is_zero item.updated_at then created else item.updated_at;
    }

unfoldable pub drop_existing : List HistoryItem → String → List HistoryItem
drop_existing items id = elim (find_index_by_id items id) [
  | none ↦ items
  | some i ↦ remove_at items i
]

-- The critical section of `AddItem`, before the eviction.
unfoldable pub insert_item : Manager → HistoryItem → Manager
insert_item m item =
    let kept = drop_existing m.items item.id in
    record m {
      items = insert_at kept (insert_index kept item.created_at) item;
      active_id = item.id;
    }

-- `AddItem` at the time `now`, with the identifier that `newUUID` returns.
unfoldable pub add_item : Manager → Time → String → Option HistoryItem → Manager × Option Callback
add_item m now uuid none = (m, none)
add_item m now uuid (some item) =
    if is_valid_initial_item item
    then ((evict_overflow (insert_item m (fill_defaults item now uuid))).0, m.on_changed)
    else (m, none)
