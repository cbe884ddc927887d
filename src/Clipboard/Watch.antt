-- ===== src/Clipboard/Watch.antt =====
-- desktop/clipboard/monitor.go: the loops that watch the system clipboard.
use clip_cascade_go_fork.Prelude.{
  ℕ, Bool, true, false, not, Option, none, some, List, [], ◌∷◌, if◌then◌else◌, ◌==◌,
}
use clip_cascade_go_fork.Protocol.Text.{Text}
use clip_cascade_go_fork.Clipboard.Capture.{
  CaptureData, Bytes, text_capture, image_capture, select_file,
}
use clip_cascade_go_fork.Clipboard.Changes.{ClipboardManager, seed, handle_change}

-- The variables of `watchEventDriven`.
pub record Watcher : Type 0 where
  pub manager : ClipboardManager
  pub native_seeded : Bool
  pub skip_first_text_event : Bool
  pub skip_first_image_event : Bool
  pub skip_first_file_tick : Bool

-- What the `select` of the loop receives, with what the clipboard holds at that time: the file
-- paths and the capture of everything. A channel that is closed gives nothing.
pub data WatchEvent : Type 0 where
  native_tick : Option CaptureData → WatchEvent
  file_tick : List Text → Option CaptureData → WatchEvent
  text_event : Option Text → List Text → Option CaptureData → WatchEvent
  image_event : Option Bytes → List Text → Option CaptureData → WatchEvent

abbrev pub Outcome : Type 0
Outcome = ClipboardManager × Option CaptureData

module _ (file_stub_meta : List Text → Text) (hash : Text → ℕ) where
  -- `handleNativeClipboardSnapshot`, and the seeds.
  unfoldable pub handle_snapshot : ClipboardManager → ℕ → Option CaptureData → Outcome
  handle_snapshot m now none = (m, none)
  handle_snapshot m now (some capture) = handle_change hash m now capture

  unfoldable pub seed_snapshot : ClipboardManager → Option CaptureData → ClipboardManager × Bool
  seed_snapshot m none = (m, false)
  seed_snapshot m (some capture) = (seed hash m capture, true)

  -- `handleFileChange`: none, if the clipboard holds no files.
  unfoldable pub handle_file_change : ClipboardManager → ℕ → List Text → Option Outcome
  handle_file_change m now paths = elim (select_file file_stub_meta paths) [
    | none ↦ none
    | some capture ↦ some (handle_change hash m now capture)
  ]

  -- A text or an image that is not the first one: files come first, and nothing is done without
  -- data.
  unfoldable pub handle_data :
      Bool → ClipboardManager → ℕ → List Text → Option CaptureData → Option CaptureData → Outcome
  unfolding handle_snapshot handle_file_change
  handle_data native m now paths snapshot capture =
      if native then handle_snapshot m now snapshot else elim (handle_file_change m now paths) [
        | some r ↦ r
        | none ↦ handle_snapshot m now capture
      ]

  abbrev pub text_data : Text → Option CaptureData
  text_data [] = none
  text_data (c ∷ t) = some (text_capture file_stub_meta (c ∷ t))

  abbrev pub image_data : Bytes → Option CaptureData
  image_data [] = none
  image_data (b ∷ i) = some (image_capture file_stub_meta (b ∷ i))

  abbrev with_manager : Watcher → Outcome → Watcher × Option CaptureData
  with_manager w (m, report) = (record w { manager = m }, report)

  -- A round of the loop; `native` tells whether this is Linux under Wayland.
  unfoldable pub watch_step : Bool → Watcher → ℕ → WatchEvent → Watcher × Option CaptureData
  unfolding handle_snapshot seed_snapshot handle_file_change handle_data
  watch_step native w now (native_tick snapshot) =
      if w.native_seeded
      then with_manager w (handle_snapshot w.manager now snapshot)
      else (let (m, seeded) = seed_snapshot w.manager snapshot in
          (record w { manager = m; native_seeded = seeded }, none))
  watch_step native w now (file_tick paths snapshot) =
      if w.skip_first_file_tick
      then (
        record w {
          manager = (seed_snapshot w.manager (select_file file_stub_meta paths)).0;
          skip_first_file_tick = false;
        },
        none,
      )
      else if native
      then with_manager w (handle_snapshot w.manager now snapshot)
      else elim (handle_file_change w.manager now paths) [
        | some r ↦ with_manager w r
        | none ↦ (w, none)
      ]
  watch_step native w now (text_event none paths snapshot) = (w, none)
  watch_step native w now (text_event (some t) paths snapshot) =
      if w.skip_first_text_event
      then (
        record w {
          manager = (seed_snapshot w.manager (text_data t)).0;
          skip_first_text_event = false;
        },
        none,
      )
      else with_manager w (handle_data native w.manager now paths snapshot (text_data t))
  watch_step native w now (image_event none paths snapshot) = (w, none)
  watch_step native w now (image_event (some i) paths snapshot) =
      if w.skip_first_image_event
      then (
        record w {
          manager = (seed_snapshot w.manager (image_data i)).0;
          skip_first_image_event = false;
        },
        none,
      )
      else with_manager w (handle_data native w.manager now paths snapshot (image_data i))

  unfoldable pub watch_all : Bool → Watcher → List (ℕ × WatchEvent) → Watcher × List CaptureData
  watch_all native w [] = (w, [])
  watch_all native w ((now, event) ∷ events) =
      let (v, report) = watch_step native w now event in
      let (u, reports) = watch_all native v events in
      (u, elim report [ none ↦ reports | some capture ↦ capture ∷ reports ])

-- The state at the start of `watchEventDriven`.
unfoldable pub start_watch : Bool → ClipboardManager → Watcher
start_watch native m = record {
  manager = m;
  native_seeded = not native;
  skip_first_text_event = true;
  skip_first_image_event = true;
  skip_first_file_tick = true;
}

-- A round of `watchLegacyByChangeCount`: the last count and whether `handleSystemChange` is called.
-- The count -1, which the last count starts with, is none.
unfoldable pub legacy_tick : Option ℕ → Option ℕ → Option ℕ × Bool
legacy_tick none none = (none, false)
legacy_tick none (some count) = (some count, false)
legacy_tick (some last) none = (none, true)
legacy_tick (some last) (some count) =
    if count == last then (some last, false) else (some count, true)
