-- ===== src/History/Updates.antt =====
-- The methods of the history manager that read an item or change it in place
-- (desktop/history/history.go, from `GetActive` to `List`).
use clip_cascade_go_fork.Prelude.{
  Bool, true, false, not, ◌&&◌, ◌||◌, String, List, [], ◌∷◌, Option, none, some, Result, ok, err,
  str_eq, is_some, if◌then◌else◌, find,
}
use clip_cascade_go_fork.History.State.{ItemState, same_state, is_valid_transition, is_known_state}
use clip_cascade_go_fork.History.Item.{HistoryItem, Time}
use clip_cascade_go_fork.History.Manager.{
  Manager, Callback, has_id, get_by_id_locked, find_index_by_id,
}

unfoldable pub active_or_first : Manager → List HistoryItem → Option HistoryItem
active_or_first m [] = none
active_or_first m (first ∷ rest) =
    if str_eq m.active_id ""
    then some first
    else elim (get_by_id_locked m.items m.active_id) [ none ↦ some first | some item ↦ some item ]

unfoldable pub get_active : Manager → Option HistoryItem
unfolding active_or_first
get_active m = active_or_first m m.items

unfoldable pub set_active : Manager → String → Manager × Bool × Option Callback
set_active m id =
    if str_eq id ""
    then (m, false, none)
    else if not (is_some (find_index_by_id m.items id))
    then (m, false, none)
    else if str_eq m.active_id id
    then (m, true, none)
    else (record m { active_id = id }, true, m.on_changed)

unfoldable pub get_by_id : Manager → String → Option HistoryItem
get_by_id m id = if str_eq id "" then none else get_by_id_locked m.items id

abbrev pub has_transfer_id : String → HistoryItem → Bool
has_transfer_id transfer_id item = str_eq item.transfer_id transfer_id

unfoldable pub get_by_transfer_id : Manager → String → Option HistoryItem
get_by_transfer_id m transfer_id =
    if str_eq transfer_id "" then none else find (has_transfer_id transfer_id) m.items

-- The first item with the identifier replaced: what an assignment through its pointer does.
unfoldable pub replace_first : String → HistoryItem → List HistoryItem → List HistoryItem
replace_first id next [] = []
replace_first id next (item ∷ items) =
    let rest = replace_first id next items in if has_id id item then next ∷ items else item ∷ rest

-- `UpdateState`, at the time `now`.
unfoldable pub update_state : Manager → Time → String → ItemState → Manager × Bool × Option Callback
update_state m now id new_state =
    if str_eq id "" || not (is_known_state new_state)
    then (m, false, none)
    else elim (get_by_id_locked m.items id) [
      | none ↦ (m, false, none)
      | some item ↦ if not (is_valid_transition item.state new_state) then (m, false, none) else (
        record m {
          items = replace_first id (record item { state = new_state; updated_at = now }) m.items;
        },
        true,
        m.on_changed,
      )
    ]

-- The errors of `Mutate`; the mutating function's own error is a text.
pub data MutateError : Type 0 where
  invalid_request not_found : MutateError
  refused : String → MutateError
  invalid_transition : ItemState → ItemState → MutateError

abbrev pub Mutation : Type 0
Mutation = HistoryItem → Result String HistoryItem

-- The test on a state that the function has changed.
unfoldable pub transition_refused : ItemState → ItemState → Bool
transition_refused before next =
    not (same_state next before)
    && (not (is_known_state next) || not (is_valid_transition before next))

-- `Mutate` from where the function has returned.
unfoldable pub commit :
    Manager
    → Time
    → String
    → HistoryItem
    → Result String HistoryItem
    → Manager × Result MutateError HistoryItem × Option Callback
unfolding transition_refused
commit m now id before (err message) = (m, err (refused message), none)
commit m now id before (ok next) =
    if transition_refused before.state next.state
    then (m, err (invalid_transition before.state next.state), none)
    else (let updated = record next { updated_at = now } in
        (record m { items = replace_first id updated m.items }, ok updated, m.on_changed))

unfoldable pub mutate :
    Manager
    → Time
    → String
    → Option Mutation
    → Manager × Result MutateError HistoryItem × Option Callback
unfolding commit
mutate m now id none = (m, err invalid_request, none)
mutate m now id (some fn) =
    if str_eq id "" then (m, err invalid_request, none) else elim (get_by_id_locked m.items id) [
      | none ↦ (m, err not_found, none)
      | some item ↦ commit m now id item (fn item)
    ]

-- The first loop of `MutateByTransferID`: the identifier of the item, or the empty one.
unfoldable pub transfer_item_id : Manager → String → String
transfer_item_id m transfer_id = elim (find (has_transfer_id transfer_id) m.items) [
  | none ↦ ""
  | some item ↦ item.id
]

-- `MutateByTransferID`. The lock is released between the search, in `seen`, and the mutation, in
-- `m`: other operations may have run in between.
unfoldable pub mutate_by_transfer_id :
    Manager
    → Manager
    → Time
    → String
    → Option Mutation
    → Manager × Result MutateError HistoryItem × Option Callback
mutate_by_transfer_id seen m now transfer_id none = (m, err invalid_request, none)
mutate_by_transfer_id seen m now transfer_id (some fn) =
    if str_eq transfer_id ""
    then (m, err invalid_request, none)
    else if str_eq (transfer_item_id seen transfer_id) ""
    then (m, err not_found, none)
    else mutate m now (transfer_item_id seen transfer_id) (some fn)

unfoldable pub list : Manager → List HistoryItem
list m = m.items

-- `OnChanged`.
unfoldable pub set_on_changed : Manager → Option Callback → Manager
set_on_changed m fn = record m { on_changed = fn }
