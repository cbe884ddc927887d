-- ===== src/App/Received.antt =====
-- desktop/app/receive_history.go: the history after a reception.
use clip_cascade_go_fork.Prelude.{
  ℕ, zero, suc, ◌≡◌, ◌≢◌, refl, ap, ◌∙◌, Bool, true, false, Option, none, some, String, List, [],
  ◌∷◌, ◌⊎◌, str_eq, eq_iff, if◌then◌else◌, find, get_elem?, arith, if_cases, match_cases,
  Bool-cases, inl, inr,
}
use clip_cascade_go_fork.History.Item.{HistoryItem, Time}
use clip_cascade_go_fork.History.Manager.{Manager, add_item}
use clip_cascade_go_fork.History.Updates.{get_active, set_active, get_by_transfer_id, list}
use clip_cascade_go_fork.History.Valid.{IsValid, add_item-IsValid}
use clip_cascade_go_fork.History.Valid.Steps.{set_active-IsValid}
use clip_cascade_go_fork.App.Shared.{App, set_shared, set_last_file_stub, is_local_origin}
use clip_cascade_go_fork.App.Receive.{
  ClipboardData, Manifest, source_session, ReceiveAction, ignore, admit_history, reuse_history,
  legacy_paste, received_item, is_same_local_echo, is_echo, reuse_local_echo, point_to,
  store_received, admit_item, classify, admit_decision, admit,
}

set_shared-IsValid : (a : App) (id : String) → IsValid a.history → IsValid (set_shared a id).history
unfolding set_shared
set_shared-IsValid a id h =
    if_cases (λ (b : App). IsValid b.history) (str_eq id "") (λ _. h)
      (λ _. set_active-IsValid a.history id h)

pub set_last_file_stub-history :
    (a : App) (id : String) → (set_last_file_stub a id).history ≡ a.history
unfolding set_last_file_stub
set_last_file_stub-history a id =
    if_cases (λ (b : App). b.history ≡ a.history) (str_eq id "") (λ _. refl) (λ _. refl)

-- With the pointers set and, if a test says so, the one to the files too.
pointed-IsValid :
    (a : App) (id : String) (files : Bool)
    → IsValid a.history
    → IsValid (if files then set_last_file_stub (set_shared a id) id else set_shared a id).history
pointed-IsValid a id files h =
    let shared = set_shared-IsValid a id h in
    if_cases (λ (b : App). IsValid b.history) files
      (λ _. rw (set_last_file_stub-history (set_shared a id) id) shared) (λ _. shared)

module _ (now : Time) (uuid : String) (named : uuid ≢ "") where
  store_received-IsValid :
      (a : App) (item : HistoryItem)
      → IsValid a.history
      → IsValid (store_received a now uuid item).history
  unfolding store_received point_to
  store_received-IsValid a item h =
      let stored : App = record a { history = (add_item a.history now uuid (some item)).0 } in
      let k : IsValid stored.history = add_item-IsValid a.history now uuid (some item) named h in
      match_cases (λ (b : App). IsValid b.history)
        (get_by_transfer_id stored.history item.transfer_id)
        (λ _.
          match_cases (λ (b : App). IsValid b.history) (get_active stored.history) (λ _. k)
            (λ x _. pointed-IsValid stored x.id _ k))
        (λ x _. pointed-IsValid stored x.id _ k)

  abbrev Good : App × ReceiveAction → Type 0
  Good r = IsValid r.0.history

  abbrev GoodReuse : Option App → Type 0
  GoodReuse none = Unit
  GoodReuse (some b) = IsValid b.history

  reuse_local_echo-GoodReuse :
      (a : App) (item : HistoryItem) → IsValid a.history → GoodReuse (reuse_local_echo a item)
  unfolding reuse_local_echo
  reuse_local_echo-GoodReuse a item h =
      if_cases GoodReuse (str_eq item.type "file_stub") (λ _. tt)
        (λ _.
          match_cases GoodReuse (find (is_echo a item) (list a.history)) (λ _. tt)
            (λ x _. pointed-IsValid a x.id (str_eq x.type "image") h))

  reuse_local_echo-IsValid :
      (a b : App) (item : HistoryItem)
      → reuse_local_echo a item ≡ some b
      → IsValid a.history
      → IsValid b.history
  reuse_local_echo-IsValid a b item e h =
      (let good = reuse_local_echo-GoodReuse a item h in (rw e at good))

  admit_item-IsValid :
      (a : App) (item : HistoryItem) → IsValid a.history → Good (admit_item a now uuid item)
  unfolding admit_item
  admit_item-IsValid a item h =
      match_cases Good (reuse_local_echo a item)
        (λ _.
          match_cases Good (get_by_transfer_id a.history item.transfer_id)
            (λ _. store_received-IsValid a item h)
            (λ x _. pointed-IsValid a x.id (str_eq x.type "file_stub") h))
        (λ b e. reuse_local_echo-IsValid a b item e h)

  module _ (decode_manifest : String → Option Manifest) where
    admit_decision-IsValid :
        (a : App) (d : ReceiveAction × Option HistoryItem)
        → IsValid a.history
        → Good (admit_decision decode_manifest a now uuid d)
    admit_decision-IsValid a (admit_history, some item) h = admit_item-IsValid a item h
    admit_decision-IsValid a (admit_history, none) h = h
    admit_decision-IsValid a (ignore, o) h = h
    admit_decision-IsValid a (reuse_history, o) h = h
    admit_decision-IsValid a (legacy_paste, o) h = h

    -- Whatever is received, the history stays valid.
    pub admit-IsValid :
        (a : App) (clip : Option ClipboardData)
        → IsValid a.history
        → IsValid (admit decode_manifest a now uuid clip).0.history
    unfolding admit
    admit-IsValid a clip h = admit_decision-IsValid a (classify decode_manifest clip now) h

-- A search finds something, if there is an item that passes the test.
find_passing :
    (p : HistoryItem → Bool) (xs : List HistoryItem) (i : ℕ) (x : HistoryItem)
    → get_elem? xs i ≡ some x
    → p x ≡ true
    → (y : HistoryItem) × (find p xs ≡ some y)
find_passing p [] i x e h = ground arith
find_passing p (y ∷ xs) zero x e h =
    let same : x ≡ y = ground arith in let pass : p y ≡ true = rw (← same) h in (y, rw pass refl)
find_passing p (y ∷ xs) (suc i) x e h = elim (Bool-cases (p y)) [
  | inl q ↦ (y, rw q refl)
  | inr q ↦ rw q (find_passing p xs i x e h)
]

pub set_active-items : (m : Manager) (id : String) → (set_active m id).0.items ≡ m.items
unfolding set_active
set_active-items m id = ground arith

set_shared-items : (a : App) (id : String) → (set_shared a id).history.items ≡ a.history.items
unfolding set_shared
set_shared-items a id =
    if_cases (λ (b : App). b.history.items ≡ a.history.items) (str_eq id "") (λ _. refl)
      (λ _. set_active-items a.history id)

pointed-items :
    (a : App) (id : String) (files : Bool)
    → (if files then set_last_file_stub (set_shared a id) id else set_shared a id).history.items
      ≡ a.history.items
pointed-items a id files =
    if_cases (λ (b : App). b.history.items ≡ a.history.items) files
      (λ _.
        ap (λ (m : Manager). m.items) (set_last_file_stub-history (set_shared a id) id)
        ∙ set_shared-items a id)
      (λ _. set_shared-items a id)

own_item_echo :
    (a : App) (y x : HistoryItem)
    → y.source_session_id ≡ a.session_id
    → a.session_id ≢ ""
    → x.type ≡ y.type
    → x.payload ≡ y.payload
    → x.file_name ≡ y.file_name
    → (x.source_session_id ≡ "") ⊎ (x.source_session_id ≡ a.session_id)
    → is_echo a y x ≡ true
unfolding is_same_local_echo is_local_origin
own_item_echo a y x own named t p f s = ground (
  arith,
  eq_iff x.type y.type,
  eq_iff x.payload y.payload,
  eq_iff x.file_name y.file_name,
  eq_iff y.source_session_id a.session_id,
  eq_iff a.session_id "",
  eq_iff y.source_session_id "",
  eq_iff x.source_session_id "",
  eq_iff y.source_session_id x.source_session_id,
)

-- The item that a text or an image is received as.
abbrev pub plain_item : ClipboardData → Time → HistoryItem
plain_item clip now = record (received_item clip now) { payload_type = clip.type }

-- The reading of a text or an image.
classify_plain :
    (decode_manifest : String → Option Manifest) (clip : ClipboardData) (now : Time)
    → (clip.type ≡ "text") ⊎ (clip.type ≡ "image")
    → classify decode_manifest (some clip) now ≡ (admit_history, some (plain_item clip now))
unfolding classify received_item
classify_plain decode_manifest clip now (inl t) = rw (classify, t) refl
classify_plain decode_manifest clip now (inr t) = rw (classify, t) refl

module _ (decode_manifest : String → Option Manifest) (a : App) (now : Time) (uuid : String)
    (clip : ClipboardData) (plain : (clip.type ≡ "text") ⊎ (clip.type ≡ "image")) where
  pub admit_plain :
      admit decode_manifest a now uuid (some clip) ≡ admit_item a now uuid (plain_item clip now)
  unfolding admit
  admit_plain = rw (classify_plain decode_manifest clip now plain) refl

  plain_not_files : str_eq (plain_item clip now).type "file_stub" ≡ false
  unfolding received_item
  plain_not_files = elim plain [ inl t ↦ rw t refl | inr t ↦ rw t refl ]

  reused :
      (x : HistoryItem)
      → find (is_echo a (plain_item clip now)) (list a.history) ≡ some x
      → reuse_local_echo a (plain_item clip now)
        ≡ some (
            if str_eq x.type "image"
            then set_last_file_stub (set_shared a x.id) x.id
            else set_shared a x.id)
  unfolding reuse_local_echo
  reused x e = rw (reuse_local_echo, plain_not_files, e) refl

  own_is_echo :
      (x : HistoryItem)
      → source_session clip ≡ a.session_id
      → a.session_id ≢ ""
      → x.type ≡ clip.type
      → x.payload ≡ clip.payload
      → x.file_name ≡ clip.file_name
      → (x.source_session_id ≡ "") ⊎ (x.source_session_id ≡ a.session_id)
      → is_echo a (plain_item clip now) x ≡ true
  unfolding received_item
  own_is_echo x own named t p f s = own_item_echo a (plain_item clip now) x own named t p f s

  -- A text or an image that comes back to the session that sent it, while the history has an item
  -- with that content of this session or of none, adds nothing: the items stay as they are.
  pub own_echo_reused :
      (i : ℕ) (x : HistoryItem)
      → get_elem? a.history.items i ≡ some x
      → source_session clip ≡ a.session_id
      → a.session_id ≢ ""
      → x.type ≡ clip.type
      → x.payload ≡ clip.payload
      → x.file_name ≡ clip.file_name
      → (x.source_session_id ≡ "") ⊎ (x.source_session_id ≡ a.session_id)
      → ((admit decode_manifest a now uuid (some clip)).1 ≡ reuse_history)
        × ((admit decode_manifest a now uuid (some clip)).0.history.items ≡ a.history.items)
  unfolding admit_item list
  own_echo_reused i x here own named t p f s =
      let (y, found) =
        find_passing (is_echo a (plain_item clip now)) (list a.history) i x here
          (own_is_echo x own named t p f s) in
      rw (admit_plain, admit_item, reused y found)
        (refl, pointed-items a y.id (str_eq y.type "image"))
