-- ===== src/History/Valid/Steps.antt =====
-- The invariant of the history manager under every operation, in any order.
use clip_cascade_go_fork.Prelude.{
  ◌≡◌, ◌≢◌, refl, sym, ◌∙◌, if_cases, match_cases, not, Bool, true, false, String, Option, none,
  some, Result, ok, err, arith, str_eq, eq_iff, is_some, Bool-cases, All-find, ◌||◌, find-pass, inl,
  inr,
}
use clip_cascade_go_fork.Prelude.Int.{ℤ}
use clip_cascade_go_fork.History.State.{
  ItemState, is_known_state, is_valid_transition, same_state, same_state-eq,
}
use clip_cascade_go_fork.History.Item.{HistoryItem, Time}
use clip_cascade_go_fork.History.Manager.{
  Manager, Callback, has_id, get_by_id_locked, find_index_by_id, new_manager, add_item,
}
use clip_cascade_go_fork.History.Updates.{
  replace_first, set_active, update_state, Mutation, commit, mutate, transition_refused,
  set_on_changed, MutateError, transfer_item_id, mutate_by_transfer_id,
}
use clip_cascade_go_fork.History.Ids.{
  All-replace_first, DistinctIds-replace_first, get_by_id-replace_first, find_index-is_some,
}
use clip_cascade_go_fork.History.Order.{NewestFirst-replace_first}
use clip_cascade_go_fork.History.Valid.{
  IsNamed, IsKnown, IsValid, new_manager-IsValid, add_item-IsValid,
}

-- What the operations that change an item in place have in common.
replace_first-IsValid :
    (m : Manager) (id : String) (item next : HistoryItem)
    → get_by_id_locked m.items id ≡ some item
    → next.id ≡ item.id
    → next.created_at ≡ item.created_at
    → is_known_state next.state ≡ true
    → id ≢ ""
    → IsValid m
    → IsValid (record m { items = replace_first id next m.items })
replace_first-IsValid m id item next found same_id same_time known named h =
    let own : next.id ≡ id =
      same_id
      ∙ (eq_iff item.id id).0
          (unfold get_by_id_locked in find-pass (has_id id) m.items item found) in
    record {
      distinct = DistinctIds-replace_first id next own m.items h.distinct;
      newest = NewestFirst-replace_first id next m.items (λ item' q. cc) h.newest;
      named = All-replace_first id next IsNamed m.items (λ e. named (sym own ∙ e)) h.named;
      known = All-replace_first id next IsKnown m.items known h.known;
      positive = h.positive;
      active = λ n.
          rw (get_by_id-replace_first id next own m.items m.active_id)
            (ground (arith, h.active, n));
    }

pub set_active-IsValid : (m : Manager) (id : String) → IsValid m → IsValid (set_active m id).0
unfolding set_active
set_active-IsValid m id h =
    let P = λ (r : Manager × Bool × Option Callback). IsValid r.0 in
    if_cases P (str_eq id "") (λ e. h)
      (λ e.
        if_cases P (not (is_some (find_index_by_id m.items id))) (λ e'. h)
          (λ e'.
            if_cases P (str_eq m.active_id id) (λ q. h)
              (λ q. record {
                distinct = h.distinct;
                newest = h.newest;
                named = h.named;
                known = h.known;
                positive = h.positive;
                active = λ n. ground (arith, find_index-is_some m.items id, e');
              })))

update_state-IsValid :
    (m : Manager) (now : Time) (id : String) (state : ItemState)
    → IsValid m
    → IsValid (update_state m now id state).0
unfolding update_state
update_state-IsValid m now id state h =
    let P = λ (r : Manager × Bool × Option Callback). IsValid r.0 in
    if_cases P (str_eq id "" || not (is_known_state state)) (λ e. h)
      (λ e.
        match_cases P (get_by_id_locked m.items id) (λ q. h)
          (λ item q.
            if_cases P (not (is_valid_transition item.state state)) (λ t. h)
              (λ t.
                replace_first-IsValid m id item _ q refl refl (ground arith)
                  (ground (arith, eq_iff id "")) h)))

-- A mutation that leaves an item's identifier and its creation time alone.
abbrev pub KeepsIdentity : Option Mutation → Type 0
KeepsIdentity none = Unit
KeepsIdentity (some fn) =
    (item next : HistoryItem)
    → fn item ≡ ok next
    → (next.id ≡ item.id) × (next.created_at ≡ item.created_at)

-- What `commit` lets through keeps the item's state known.
transition-known :
    (before next : ItemState)
    → transition_refused before next ≡ false
    → is_known_state before ≡ true
    → is_known_state next ≡ true
unfolding transition_refused
transition-known before next t k = elim (Bool-cases (same_state next before)) [
  | inl e ↦ rw (same_state-eq next before e) k
  | inr e ↦ ground arith
]

commit-IsValid :
    (m : Manager) (now : Time) (id : String) (item : HistoryItem) (r : Result String HistoryItem)
    → get_by_id_locked m.items id ≡ some item
    → id ≢ ""
    → ((next : HistoryItem)
        → r ≡ ok next
        → (next.id ≡ item.id) × (next.created_at ≡ item.created_at))
    → IsValid m
    → IsValid (commit m now id item r).0
unfolding commit
commit-IsValid m now id item (err e) found named k h = h
commit-IsValid m now id item (ok next) found named k h =
    if_cases (λ (r : Manager × Result MutateError HistoryItem × Option Callback). IsValid r.0)
      (transition_refused item.state next.state) (λ t. h)
      (λ t.
        replace_first-IsValid m id item _ found (k next refl).0 (k next refl).1
          (transition-known item.state next.state t
            (unfold get_by_id_locked in All-find IsKnown (has_id id) m.items item h.known found))
          named h)

mutate-IsValid :
    (m : Manager) (now : Time) (id : String) (fn : Option Mutation)
    → KeepsIdentity fn
    → IsValid m
    → IsValid (mutate m now id fn).0
unfolding mutate
mutate-IsValid m now id none k h = h
mutate-IsValid m now id (some fn) k h =
    let P = λ (r : Manager × Result MutateError HistoryItem × Option Callback). IsValid r.0 in
    if_cases P (str_eq id "") (λ e. h)
      (λ e.
        match_cases P (get_by_id_locked m.items id) (λ q. h)
          (λ item q.
            commit-IsValid m now id item (fn item) q (ground (arith, eq_iff id "")) (k item) h))

-- One operation of the manager.
pub data Step (m u : Manager) : Type 0 where
  add :
      (now : Time) (uuid : String) (item : Option HistoryItem)
      → uuid ≢ ""
      → u ≡ (add_item m now uuid item).0
      → Step m u
  activate : (id : String) → u ≡ (set_active m id).0 → Step m u
  update :
      (now : Time) (id : String) (state : ItemState)
      → u ≡ (update_state m now id state).0
      → Step m u
  change :
      (now : Time) (id : String) (fn : Option Mutation)
      → KeepsIdentity fn
      → u ≡ (mutate m now id fn).0
      → Step m u
  change_by_transfer :
      (seen : Manager) (now : Time) (transfer_id : String) (fn : Option Mutation)
      → KeepsIdentity fn
      → u ≡ (mutate_by_transfer_id seen m now transfer_id fn).0
      → Step m u
  listen : (fn : Option Callback) → u ≡ set_on_changed m fn → Step m u

pub data Reach (m : Manager) : Manager → Type 0 where
  here : Reach m m
  next : {u v : Manager} → Reach m u → Step u v → Reach m v

mutate_by_transfer_id-IsValid :
    (seen m : Manager) (now : Time) (transfer_id : String) (fn : Option Mutation)
    → KeepsIdentity fn
    → IsValid m
    → IsValid (mutate_by_transfer_id seen m now transfer_id fn).0
unfolding mutate_by_transfer_id
mutate_by_transfer_id-IsValid seen m now t none k h = h
mutate_by_transfer_id-IsValid seen m now t (some fn) k h =
    let P = λ (r : Manager × Result MutateError HistoryItem × Option Callback). IsValid r.0 in
    if_cases P (str_eq t "") (λ e. h)
      (λ e.
        if_cases P (str_eq (transfer_item_id seen t) "") (λ q. h)
          (λ q. mutate-IsValid m now (transfer_item_id seen t) (some fn) k h))

Step-IsValid : {m u : Manager} → Step m u → IsValid m → IsValid u
Step-IsValid {m} (add now uuid item n e) h = rw e (add_item-IsValid m now uuid item n h)
Step-IsValid {m} (activate id e) h = rw e (set_active-IsValid m id h)
Step-IsValid {m} (update now id state e) h = rw e (update_state-IsValid m now id state h)
Step-IsValid {m} (change now id fn k e) h = rw e (mutate-IsValid m now id fn k h)
Step-IsValid {m} (change_by_transfer seen now t fn k e) h =
    rw e (mutate_by_transfer_id-IsValid seen m now t fn k h)
Step-IsValid {m} (listen fn e) h = rw e (
    unfold set_on_changed in
    record {
      distinct = h.distinct;
      newest = h.newest;
      named = h.named;
      known = h.known;
      positive = h.positive;
      active = h.active;
    })

-- A manager that `NewManager` returned stays valid under any sequence of operations, each with the
-- identifiers that `newUUID` gives not empty and mutations that leave an item's identifier and its
-- creation time alone: no identifier is held twice or empty, the limit is positive, the items stand newest first, every
-- state is a known one, and an active identifier that is not empty is that of an item.
pub Reach-IsValid : (limit : ℤ) {m : Manager} → Reach (new_manager limit) m → IsValid m
Reach-IsValid limit here = new_manager-IsValid limit
Reach-IsValid limit (next r s) = Step-IsValid s (Reach-IsValid limit r)
