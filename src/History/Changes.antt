-- ===== src/History/Changes.antt =====
-- What the methods that change an item in place do, on every path.
use clip_cascade_go_fork.Prelude.{
  ◌≡◌, ◌⊎◌, ◌↔◌, refl, ap, true, false, String, Option, none, some, ok, err, arith, if◌then◌else◌,
  str_eq, eq_iff, find-pass, Result-cases, Bool-cases, Option-cases, inl, inr,
}
use clip_cascade_go_fork.History.State.{
  ItemState, is_known_state, is_valid_transition, same_state, same_state-eq,
}
use clip_cascade_go_fork.History.Item.{HistoryItem, Time}
use clip_cascade_go_fork.History.Manager.{Manager, has_id, get_by_id_locked}
use clip_cascade_go_fork.History.Updates.{
  get_by_id, update_state, replace_first, Mutation, MutateError, commit, mutate, transition_refused,
}
use clip_cascade_go_fork.History.Ids.{get_by_id-replace_first}

-- A state that some transition leads to is a known one.
transition-known :
    (from to : ItemState) → is_valid_transition from to ≡ true → is_known_state to ≡ true
unfolding is_valid_transition is_known_state
transition-known from to h = ground arith

-- `UpdateState` returns true exactly if the identifier is that of an item whose state has a
-- transition to the new one.
pub update_state_iff :
    (m : Manager) (now : Time) (id : String) (state : ItemState)
    → ((update_state m now id state).1 ≡ true) ↔ (
        (item : HistoryItem) × (get_by_id m id ≡ some item)
        × (is_valid_transition item.state state ≡ true))
unfolding update_state get_by_id
update_state_iff m now id state = (
  λ h. elim (Option-cases (get_by_id_locked m.items id)) [
    | inl q ↦ absurd (ground arith)
    | inr (item, q) ↦ (item, ground arith, ground arith)
  ],
  λ (item, e, t). ground (arith, eq_iff id "", transition-known item.state state t),
)

-- Lookups after an item is replaced by one with its identifier.
get_by_id-replaced :
    (m m' : Manager) (id : String) (item next : HistoryItem) (j : String)
    → m'.items ≡ replace_first id next m.items
    → next.id ≡ id
    → get_by_id m id ≡ some item
    → get_by_id m' j ≡ (if str_eq id j then some next else get_by_id m j)
unfolding get_by_id
get_by_id-replaced m m' id item next j e own found = rw e (
    ground (
      arith,
      eq_iff id j,
      eq_iff id "",
      eq_iff j "",
      get_by_id-replace_first id next own m.items j,
    ))

get_by_id-id :
    (m : Manager) (id : String) (item : HistoryItem) → get_by_id m id ≡ some item → item.id ≡ id
unfolding get_by_id get_by_id_locked
get_by_id-id m id item e = (eq_iff item.id id).0 (find-pass (has_id id) m.items item (ground arith))

update_state_refused :
    (m : Manager) (now : Time) (id : String) (state : ItemState)
    → (update_state m now id state).1 ≡ false
    → update_state m now id state ≡ (m, false, none)
unfolding update_state
update_state_refused m now id state h = ground arith

update_state_done :
    (m : Manager) (now : Time) (id : String) (state : ItemState) (item : HistoryItem)
    → (update_state m now id state).1 ≡ true
    → get_by_id m id ≡ some item
    → (update_state m now id state).0.items
      ≡ replace_first id (record item { state = state; updated_at = now }) m.items
unfolding update_state get_by_id
update_state_done m now id state item h e = ground arith

-- A refused `UpdateState` leaves the manager as it was and calls nobody. One that is done changes
-- the state and the time of that item, as every lookup sees, and nothing else.
pub get_by_id-update_state :
    (m : Manager) (now : Time) (id : String) (state : ItemState) (j : String)
    → ((update_state m now id state).1 ≡ false → update_state m now id state ≡ (m, false, none))
      × ((item : HistoryItem)
          → (update_state m now id state).1 ≡ true
          → get_by_id m id ≡ some item
          → get_by_id (update_state m now id state).0 j ≡ (
              if str_eq id j
              then some (record item { state = state; updated_at = now })
              else get_by_id m j))
get_by_id-update_state m now id state j = (
  update_state_refused m now id state,
  λ item h e.
      get_by_id-replaced m _ id item (record item { state = state; updated_at = now }) j
        (update_state_done m now id state item h e) (get_by_id-id m id item e) e,
)

-- A `Mutate` that returns an error leaves the manager as it was and calls nobody.
pub mutate_atomic :
    (m : Manager) (now : Time) (id : String) (fn : Option Mutation) (e : MutateError)
    → (mutate m now id fn).1 ≡ err e
    → mutate m now id fn ≡ (m, err e, none)
unfolding mutate commit
mutate_atomic m now id fn e h = ground arith

mutate_done :
    (m : Manager) (now : Time) (id : String) (fn : Mutation) (item next : HistoryItem)
    → get_by_id m id ≡ some item
    → fn item ≡ ok next
    → transition_refused item.state next.state ≡ false
    → mutate m now id (some fn) ≡ (
      record m { items = replace_first id (record next { updated_at = now }) m.items },
      ok (record next { updated_at = now }),
      m.on_changed,
    )
unfolding mutate commit get_by_id
mutate_done m now id fn item next found e t = ground arith

transition_refused-moved :
    (before next : ItemState)
    → transition_refused before next ≡ false
    → (next ≡ before) ⊎ (is_valid_transition before next ≡ true)
unfolding transition_refused
transition_refused-moved before next t = elim (Bool-cases (same_state next before)) [
  | inl e ↦ inl (same_state-eq next before e)
  | inr e ↦ inr (ground arith)
]

-- What a `Mutate` that returns `result` has done.
pub record Mutated (m : Manager) (now : Time) (id : String) (fn : Mutation) (result : HistoryItem)
    : Type 0 where
  pub item : HistoryItem
  pub next : HistoryItem
  pub found : get_by_id m id ≡ some item
  pub applied : fn item ≡ ok next
  pub stamped : result ≡ record next { updated_at = now }
  pub moved : (next.state ≡ item.state) ⊎ (is_valid_transition item.state next.state ≡ true)
  pub called : (mutate m now id (some fn)).2 ≡ m.on_changed
  pub lookups :
      next.id ≡ id
      → (j : String)
      → get_by_id (mutate m now id (some fn)).0 j
        ≡ (if str_eq id j then some result else get_by_id m j)

mutate_inversion :
    (m : Manager) (now : Time) (id : String) (fn : Mutation) (result : HistoryItem)
    → (mutate m now id (some fn)).1 ≡ ok result
    → (item : HistoryItem) × (next : HistoryItem) × (get_by_id m id ≡ some item)
      × (fn item ≡ ok next)
      × (transition_refused item.state next.state ≡ false)
unfolding mutate commit get_by_id
mutate_inversion m now id fn result h = elim (Option-cases (get_by_id_locked m.items id)) [
  | inl q ↦ absurd (ground arith)
  | inr (item, q) ↦ elim (Result-cases (fn item)) [
    | inl (e, r) ↦ absurd (ground arith)
    | inr (next, r) ↦ (item, next, ground arith, r, ground arith)
  ]
]

-- A `Mutate` that returns an item has found the one with the identifier and applied the function
-- to it; the state is kept or has a transition to the new one, and the callback is called. If the
-- function kept the identifier, the item returned is the one that lookups find under it, and every
-- other lookup finds what it found.
pub mutate-Mutated :
    (m : Manager) (now : Time) (id : String) (fn : Mutation) (result : HistoryItem)
    → (mutate m now id (some fn)).1 ≡ ok result
    → Mutated m now id fn result
mutate-Mutated m now id fn result h =
    let (item, next, found, applied, t) = mutate_inversion m now id fn result h in
    let done = mutate_done m now id fn item next found applied t in
    let stamped : result ≡ record next { updated_at = now } = ground arith in
    record {
      item = item;
      next = next;
      found = found;
      applied = applied;
      stamped = stamped;
      moved = transition_refused-moved item.state next.state t;
      called = ap (λ r. r.2) done;
      lookups = λ own j.
          rw (done, stamped)
            (get_by_id-replaced m _ id item (record next { updated_at = now }) j refl own found);
    }
