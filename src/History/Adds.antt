-- ===== src/History/Adds.antt =====
-- What `AddItem` does to the history: what it keeps, what it evicts, and the active item.
use clip_cascade_go_fork.Prelude.{
  ℕ, zero, suc, ◌≡◌, ◌≢◌, refl, sym, ap, ◌∙◌, Bool, true, false, String, List, [], ◌∷◌, none, some,
  arith, if◌then◌else◌, str_eq, eq_iff, get_elem?, All-get_elem?,
}
use clip_cascade_go_fork.History.Item.{HistoryItem, Time, is_valid_initial_item}
use clip_cascade_go_fork.History.Manager.{
  Manager, is_evictable, get_by_id_locked, find_index_by_id, insert_index, drop_existing, evict_at,
  evict_overflow, fill_defaults, insert_item, add_item,
}
use clip_cascade_go_fork.History.Updates.{active_or_first, get_active, get_by_id}
use clip_cascade_go_fork.History.Ids.{
  DistinctIds, Lacks-drop_existing, get_by_id-insert_at, get_by_id-remove_at, drop_existing-cons,
}
use clip_cascade_go_fork.History.Eviction.{evict_overflow-keeps, evict_overflow-Evicted, Evicted}
use clip_cascade_go_fork.History.Valid.{
  IsValid, evict_at-IsValid, insert_item-IsValid, valid_initial-known, fill_defaults-id,
  fill_defaults-state,
}

-- With distinct identifiers every item is found under its own.
get_by_id-get_elem? :
    (items : List HistoryItem) (i : ℕ) (v : HistoryItem)
    → DistinctIds items
    → get_elem? items i ≡ some v
    → get_by_id_locked items v.id ≡ some v
unfolding get_by_id_locked
get_by_id-get_elem? [] i v d e = ground arith
get_by_id-get_elem? (x ∷ xs) zero v d e = ground (arith, eq_iff x.id v.id)
get_by_id-get_elem? (x ∷ xs) (suc i) v d e = ground (
  arith,
  eq_iff x.id v.id,
  All-get_elem? (λ y. x.id ≢ y.id) xs i d.0 e,
  get_by_id-get_elem? xs i v d.1 e,
)

get_by_id-drop_existing :
    (items : List HistoryItem) (id j : String)
    → id ≢ j
    → get_by_id_locked (drop_existing items id) j ≡ get_by_id_locked items j
unfolding get_by_id_locked
get_by_id-drop_existing [] id j n = unfold drop_existing find_index_by_id in refl
get_by_id-drop_existing (x ∷ xs) id j n =
    rw (drop_existing-cons x xs id)
      (ground (arith, n, eq_iff x.id id, eq_iff x.id j, get_by_id-drop_existing xs id j n))

-- An item that is found and may not be evicted is no item that is being evicted.
other_id :
    (m : Manager) (i : ℕ) (v : HistoryItem) (j : String) (y : HistoryItem)
    → get_elem? m.items i ≡ some v
    → is_evictable v ≡ true
    → is_evictable y ≡ false
    → DistinctIds m.items
    → get_by_id_locked m.items j ≡ some y
    → v.id ≢ j
other_id m i v j y at ev k d e same =
    let same_item : some v ≡ some y =
      sym (get_by_id-get_elem? m.items i v d at) ∙ ap (get_by_id_locked m.items) same ∙ e in
    ground arith

module _ (j : String) (y : HistoryItem) (k : is_evictable y ≡ false) where
  -- The item is found in a valid manager, and is the active one if it is said to be.
  record Holds (active : Bool) (m : Manager) : Type 0 where
    valid : IsValid m
    found : get_by_id_locked m.items j ≡ some y
    is_active : active ≡ true → m.active_id ≡ j

  Holds-round :
      (active : Bool) (m : Manager) (i : ℕ) (v : HistoryItem)
      → get_elem? m.items i ≡ some v
      → is_evictable v ≡ true
      → Holds active m
      → Holds active (evict_at m i)
  Holds-round active m i v at ev h =
      let n = other_id m i v j y at ev k h.valid.distinct h.found in
      record {
        valid = evict_at-IsValid m i v at ev h.valid;
        found = unfold evict_at in (get_by_id-remove_at m.items i v j at n ∙ h.found);
        is_active =
            λ a. unfold evict_at in ground (arith, h.is_active a, eq_iff m.active_id v.id, n);
      }

  evict_overflow-Holds :
      (active : Bool) (m : Manager) → Holds active m → Holds active (evict_overflow m).0
  evict_overflow-Holds active = evict_overflow-keeps (Holds active) (Holds-round active)

pub get_by_id-named :
    (m : Manager) (id : String) → id ≢ "" → get_by_id m id ≡ get_by_id_locked m.items id
unfolding get_by_id
get_by_id-named m id n = ground (arith, n, eq_iff id "")

pub get_by_id-locked :
    (m : Manager) (id : String) (y : HistoryItem)
    → get_by_id m id ≡ some y
    → (id ≢ "") × (get_by_id_locked m.items id ≡ some y)
unfolding get_by_id
get_by_id-locked m id y e = ground (arith, eq_iff id "")

-- The active item, if its identifier is one that is found.
pub get_active_found :
    (m : Manager) (y : HistoryItem)
    → m.active_id ≢ ""
    → get_by_id_locked m.items m.active_id ≡ some y
    → get_active m ≡ some y
unfolding get_active get_by_id_locked
get_active_found m y n e = by_items m.items refl
  where
    by_items : (items : List HistoryItem) → m.items ≡ items → active_or_first m items ≡ some y
    by_items [] q = (let bad : none ≡ some y = (rw q at e) in cc)
    by_items (x ∷ xs) q = ground (arith, n, e, eq_iff m.active_id "")

module _ (m : Manager) (now : Time) (uuid : String) (item : HistoryItem)
    (accepted : is_valid_initial_item item ≡ true) where
  abbrev added : HistoryItem
  added = fill_defaults item now uuid

  add_item-evict_overflow :
      (add_item m now uuid (some item)).0 ≡ (evict_overflow (insert_item m added)).0
  unfolding add_item
  add_item-evict_overflow = rw accepted refl

  -- An accepted item is put in the list, and then as many items are evicted as the limit asks for
  -- and as may be: the last of the failed and consumed ones, in order, and no other.
  pub add_item-eviction :
      Evicted
        (insert_item m added)
        (add_item m now uuid (some item)).0
        (evict_overflow (insert_item m added)).1
  add_item-eviction = rw add_item-evict_overflow (evict_overflow-Evicted (insert_item m added))

  module _ (named : uuid ≢ "") (valid : IsValid m) where
    inserted-IsValid : IsValid (insert_item m added)
    inserted-IsValid =
        insert_item-IsValid m added (fill_defaults-id item now uuid named)
          (rw (fill_defaults-state item now uuid) (valid_initial-known item accepted)) valid

    get_by_id-inserted :
        (j : String)
        → get_by_id_locked (insert_item m added).items j ≡ (
            if str_eq added.id j
            then some added
            else get_by_id_locked (drop_existing m.items added.id) j)
    unfolding insert_item
    get_by_id-inserted j =
        get_by_id-insert_at (drop_existing m.items added.id)
          (insert_index (drop_existing m.items added.id) added.created_at) added j
          (Lacks-drop_existing m.items added.id valid.distinct)

    -- In a valid manager an accepted item that may not be evicted is found afterwards under its
    -- identifier, with its missing fields filled in, and is the active item.
    pub add_item-get_active :
        is_evictable item ≡ false
        → (get_by_id (add_item m now uuid (some item)).0 added.id ≡ some added)
          × (get_active (add_item m now uuid (some item)).0 ≡ some added)
    add_item-get_active k =
        let new_id = fill_defaults-id item now uuid named in
        let h : Holds added.id added (rw (fill_defaults-state item now uuid) k) true
            (add_item m now uuid (some item)).0 =
          rw add_item-evict_overflow (
            evict_overflow-Holds added.id added (rw (fill_defaults-state item now uuid) k) true
              (insert_item m added)
              (record {
                valid = inserted-IsValid;
                found = get_by_id-inserted added.id ∙ ground (arith, eq_iff added.id added.id);
                is_active = λ _. unfold insert_item in refl;
              })) in
        let same = h.is_active refl in
        (
          get_by_id-named _ added.id new_id ∙ h.found,
          get_active_found _ added (λ q. new_id (sym same ∙ q)) (rw same h.found),
        )

    -- In a valid manager any other item that may not be evicted is found, after an accepted item is
    -- added, as it was found before.
    pub add_item-get_by_id :
        (j : String) (y : HistoryItem)
        → is_evictable y ≡ false
        → j ≢ added.id
        → get_by_id m j ≡ some y
        → get_by_id (add_item m now uuid (some item)).0 j ≡ some y
    add_item-get_by_id j y k n e =
        let (n', e') = get_by_id-locked m j y e in
        let other = (λ (q : added.id ≡ j). n (sym q)) in
        let h : Holds j y k false (add_item m now uuid (some item)).0 = rw add_item-evict_overflow (
          evict_overflow-Holds j y k false (insert_item m added) (record {
            valid = inserted-IsValid;
            found =
                get_by_id-inserted j
                ∙ ground (
                  arith,
                  eq_iff added.id j,
                  other,
                  get_by_id-drop_existing m.items added.id j other,
                  e',
                );
            is_active = λ q. cc;
          })) in
        get_by_id-named _ j n' ∙ h.found
