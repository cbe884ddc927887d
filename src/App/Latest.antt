-- ===== src/App/Latest.antt =====
-- desktop/app: the active item and the one that a replay takes, after a reception.
use clip_cascade_go_fork.Prelude.{
  ◌≡◌, ◌≢◌, refl, sym, ap, ◌∙◌, true, false, Option, none, some, String, ◌⊎◌, str_eq, eq_iff, arith,
  if_cases, inl, inr,
}
use clip_cascade_go_fork.History.State.{same_state, is_evictable_state}
use clip_cascade_go_fork.History.Item.{HistoryItem, Time, is_valid_initial_item}
use clip_cascade_go_fork.History.Manager.{Manager, add_item, fill_defaults}
use clip_cascade_go_fork.History.Updates.{get_active, set_active, get_by_id, get_by_transfer_id}
use clip_cascade_go_fork.History.Valid.{IsValid}
use clip_cascade_go_fork.History.Adds.{get_by_id-locked, get_active_found, add_item-get_active}
use clip_cascade_go_fork.App.Shared.{
  App, set_shared, set_last_file_stub, shared_item, can_replay, resolve_replay_item,
}
use clip_cascade_go_fork.App.Receive.{
  ClipboardData, Manifest, admit_history, received_item, reuse_local_echo, point_to, store_received,
  admit_item, admit,
}
use clip_cascade_go_fork.History.Ids.{find_index-is_some}
use clip_cascade_go_fork.App.Received.{plain_item, admit_plain, set_active-items}

set_active-active_id :
    (m : Manager) (id : String) (y : HistoryItem)
    → get_by_id m id ≡ some y
    → (set_active m id).0.active_id ≡ id
unfolding set_active
set_active-active_id m id y e =
    let (n, e') = get_by_id-locked m id y e in
    ground (arith, eq_iff id "", find_index-is_some m.items id, eq_iff m.active_id id, e', n)

-- The application that points to an item that its history has.
record Points (a : App) (y : HistoryItem) : Type 0 where
  here : get_by_id a.history y.id ≡ some y
  shared : a.shared_id ≡ y.id
  active : a.history.active_id ≡ y.id

set_shared-Points :
    (a : App) (y : HistoryItem) → get_by_id a.history y.id ≡ some y → Points (set_shared a y.id) y
unfolding set_shared get_by_id
set_shared-Points a y e =
    let (n, e') = get_by_id-locked a.history y.id y e in
    if_cases (λ (b : App). Points b y) (str_eq y.id "") (λ q. elim (n ((eq_iff y.id "").0 q)) [ ])
      (λ q. record {
        here = rw (q, set_active-items a.history y.id) e';
        shared = refl;
        active = set_active-active_id a.history y.id y e;
      })

set_last_file_stub-Points :
    (a : App) (id : String) (y : HistoryItem) → Points a y → Points (set_last_file_stub a id) y
unfolding set_last_file_stub
set_last_file_stub-Points a id y k =
    if_cases (λ (b : App). Points b y) (str_eq id "") (λ _. k)
      (λ _. record { here = k.here; shared = k.shared; active = k.active })

point_to-Points :
    (a : App) (y : HistoryItem) → get_by_id a.history y.id ≡ some y → Points (point_to a y) y
unfolding point_to
point_to-Points a y e =
    let k = set_shared-Points a y e in
    if_cases (λ (b : App). Points b y) _
      (λ _. set_last_file_stub-Points (set_shared a y.id) y.id y k) (λ _. k)

Points-get_active : (a : App) (y : HistoryItem) → Points a y → get_active a.history ≡ some y
Points-get_active a y k =
    let (n, e) = get_by_id-locked a.history y.id y k.here in
    get_active_found a.history y (λ z. n (sym k.active ∙ z)) (rw k.active e)

Points-resolve_replay_item :
    (a : App) (y : HistoryItem) → can_replay y ≡ true → Points a y → resolve_replay_item a ≡ some y
unfolding resolve_replay_item shared_item
Points-resolve_replay_item a y r k =
    let (n, e) = get_by_id-locked a.history y.id y k.here in
    let named : str_eq y.id "" ≡ false = ground (arith, eq_iff y.id "", n) in
    rw (k.shared, named, k.here, r) refl

module _ (decode_manifest : String → Option Manifest) (a : App) (now : Time) (uuid : String)
    (clip : ClipboardData) (plain : (clip.type ≡ "text") ⊎ (clip.type ≡ "image")) where
  plain_initial : is_valid_initial_item (plain_item clip now) ≡ true
  unfolding is_valid_initial_item received_item same_state
  plain_initial = elim plain [ inl t ↦ rw t refl | inr t ↦ rw t refl ]

  plain_stays : is_evictable_state (plain_item clip now).state ≡ false
  unfolding is_evictable_state received_item
  plain_stays = refl

  abbrev pub kept_item : HistoryItem
  kept_item = fill_defaults (plain_item clip now) now uuid

  kept_replays : (clip.type ≡ "image" → clip.payload ≢ "") → can_replay kept_item ≡ true
  unfolding can_replay fill_defaults received_item
  kept_replays image_payload = elim plain [
    | inl t ↦ rw t refl
    | inr t ↦
        let some_payload = image_payload t in
        let full : str_eq clip.payload "" ≡ false =
          ground (arith, eq_iff clip.payload "", some_payload) in
        rw (t, full) refl
  ]

  store_plain :
      get_active (add_item a.history now uuid (some (plain_item clip now))).0 ≡ some kept_item
      → store_received a now uuid (plain_item clip now)
        ≡ point_to
            (record a { history = (add_item a.history now uuid (some (plain_item clip now))).0 })
            kept_item
  unfolding store_received get_by_transfer_id received_item
  store_plain active = rw (store_received, active) refl

  admit_stored :
      reuse_local_echo a (plain_item clip now) ≡ none
      → admit decode_manifest a now uuid (some clip)
        ≡ (store_received a now uuid (plain_item clip now), admit_history)
  unfolding admit_item get_by_transfer_id received_item
  admit_stored no_echo =
      rw (admit_plain decode_manifest a now uuid clip plain, admit_item, no_echo) refl

  -- A text, empty or not, or an image that has a payload, that is received and is no echo of this
  -- device's own is admitted, in a valid history and with a new identifier: it is the active item, and
  -- the item that a replay takes.
  pub received_replayed :
      uuid ≢ ""
      → IsValid a.history
      → reuse_local_echo a (plain_item clip now) ≡ none
      → (clip.type ≡ "image" → clip.payload ≢ "")
      → ((admit decode_manifest a now uuid (some clip)).1 ≡ admit_history)
        × (get_active (admit decode_manifest a now uuid (some clip)).0.history ≡ some kept_item)
        × (resolve_replay_item (admit decode_manifest a now uuid (some clip)).0 ≡ some kept_item)
  received_replayed named valid no_echo image_payload =
      let (found, active) =
        add_item-get_active a.history now uuid (plain_item clip now) plain_initial named valid
          plain_stays in
      let stored : App = record a {
        history = (add_item a.history now uuid (some (plain_item clip now))).0;
      } in
      let k = point_to-Points stored kept_item found in
      let outcome = admit_stored no_echo ∙ ap (λ b. (b, admit_history)) (store_plain active) in
      rw outcome (
        refl,
        Points-get_active (point_to stored kept_item) kept_item k,
        Points-resolve_replay_item (point_to stored kept_item) kept_item
            (kept_replays image_payload) k,
      )
