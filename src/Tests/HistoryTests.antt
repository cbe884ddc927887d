-- ===== src/Tests/HistoryTests.antt =====
-- The history manager on small histories (desktop/history/history_test.go has the like).
use clip_cascade_go_fork.Prelude.{
  ◌↔◌, ◌≡◌, ◌≢◌, refl, true, false, String, List, [], ◌∷◌, some, ok, err, arith, eq_iff,
}
use clip_cascade_go_fork.Prelude.Int.{pos}
use clip_cascade_go_fork.History.State.{
  ItemState, is_evictable_state, is_known_state, same_state, ready, offered, downloading,
  ready_to_paste, failed, consumed, is_valid_transition,
}
use clip_cascade_go_fork.History.Item.{HistoryItem, is_valid_initial_item}
use clip_cascade_go_fork.History.Manager.{
  Manager, new_manager, add_item, fill_defaults, insert_item, evict_overflow, evict_overflow_from,
  evict_at, evict_idx, insert_index, find_index_by_id, drop_existing, get_by_id_locked,
}
use clip_cascade_go_fork.History.Updates.{
  active_or_first, replace_first, commit, get_by_id, get_active, update_state, Mutation, mutate,
}
use clip_cascade_go_fork.History.Eviction.{Evicted}
use clip_cascade_go_fork.History.Valid.{IsValid}
use clip_cascade_go_fork.History.Valid.Steps.{Reach, next, add, Reach-IsValid}
use clip_cascade_go_fork.History.Adds.{add_item-eviction, add_item-get_active}
use clip_cascade_go_fork.History.Changes.{update_state_iff, Mutated, mutate-Mutated}

-- Opens the code of the manager, to run it.
history_code : Unit {0}
unfolding is_known_state is_evictable_state is_valid_transition same_state is_valid_initial_item
    new_manager fill_defaults insert_item drop_existing find_index_by_id insert_index evict_idx
    evict_at evict_overflow_from evict_overflow add_item get_by_id get_by_id_locked get_active
    active_or_first update_state replace_first mutate commit
history_code = tt

abbrev blank : HistoryItem
blank = record {
  id = "";
  type = "text";
  state = ready;
  kind = "";
  display_name = "";
  payload = "hello";
  payload_type = "text";
  file_name = "";
  source_session_id = "";
  source_device = "local";
  created_at = 0;
  updated_at = 0;
  transfer_id = "";
  local_paths = [];
  reserved_paths = [];
  pending_replay_mode = "";
  last_chunk_idx = pos 0;
  error_message = "";
}

abbrev file : HistoryItem
file = record blank {
  id = "f";
  type = "file_stub";
  state = offered;
  transfer_id = "t1";
  created_at = 5;
}

abbrev broken : HistoryItem
broken = record blank { id = "b"; type = "file_stub"; state = failed; created_at = 3 }

-- A history of at most two items that holds one text.
abbrev small : Manager
small = (add_item (new_manager (pos 2)) 10 "u1" (some blank)).0

small_one : Reach (new_manager (pos 2)) small
small_one = next Reach.here (add 10 "u1" (some blank) (λ e. ground (arith, eq_iff "u1" "")) refl)

u2_named : ◌≢◌ {A = String} "u2" ""
u2_named e = ground (arith, eq_iff "u2" "")

Reach-IsValid_example : IsValid small
Reach-IsValid_example = Reach-IsValid (pos 2) small_one

small-IsValid : IsValid small
small-IsValid = Reach-IsValid (pos 2) small_one

file_accepted : is_valid_initial_item file ≡ true
unfolding is_valid_initial_item
file_accepted = refl

add_item-eviction_example :
    Evicted
      (insert_item small (fill_defaults file 20 "u2"))
      (add_item small 20 "u2" (some file)).0
      (evict_overflow (insert_item small (fill_defaults file 20 "u2"))).1
add_item-eviction_example = add_item-eviction small 20 "u2" file file_accepted

add_item-get_active_example :
    (get_by_id (add_item small 20 "u2" (some file)).0 (fill_defaults file 20 "u2").id
      ≡ some (fill_defaults file 20 "u2"))
    × (get_active (add_item small 20 "u2" (some file)).0 ≡ some (fill_defaults file 20 "u2"))
add_item-get_active_example =
    add_item-get_active small 20 "u2" file file_accepted u2_named small-IsValid
      (unfold is_evictable_state in refl)

-- A history that is full: a failed file is evicted as soon as it is added, and no item is active.
full_history :
    (add_item (add_item small 20 "u2" (some file)).0 30 "u3" (some broken)).0.active_id ≡ ""
unfolding history_code
full_history = refl

-- A file goes from the offer to the paste.
abbrev pasting : List ItemState
pasting = downloading ∷ ready_to_paste ∷ consumed ∷ []

update_state_iff_example : ((update_state small 40 "u1" consumed).1 ≡ true) ↔ (
    (item : HistoryItem) × (get_by_id small "u1" ≡ some item)
    × (is_valid_transition item.state consumed ≡ true))
update_state_iff_example = update_state_iff small 40 "u1" consumed

-- The text is consumed, and a text that is ready is not offered.
consumes :
    ((update_state small 40 "u1" consumed).1 ≡ true)
    × ((update_state small 40 "u1" offered).1 ≡ false)
unfolding history_code
consumes = (refl, refl)

abbrev refuses : Mutation
refuses item = err "no"

abbrev consume : Mutation
consume item = ok (record item { state = consumed })

mutate-Mutated_example :
    Mutated small 40 "u1" consume
      (record blank { id = "u1"; created_at = 10; updated_at = 40; state = consumed })
unfolding history_code
mutate-Mutated_example =
    mutate-Mutated small 40 "u1" consume
      (record blank { id = "u1"; created_at = 10; updated_at = 40; state = consumed }) refl
