-- ===== src/Clipboard/Reports.antt =====
-- desktop/clipboard/monitor.go: the contents of what the watch reports.
use clip_cascade_go_fork.Prelude.{ℕ, ◌≡◌, Option, none, some, List, [], ◌⊎◌}
use clip_cascade_go_fork.Protocol.Text.{Text}
use clip_cascade_go_fork.Clipboard.Capture.{
  CaptureData, Bytes, capture_from_platform, type_file_stub,
}
use clip_cascade_go_fork.Clipboard.Watch.{
  WatchEvent, native_tick, file_tick, text_event, image_event,
}
use clip_cascade_go_fork.Clipboard.Contents.{IsFull}

module _ (file_stub_meta : List Text → Text) (hash : Text → ℕ) where
  -- A capture of paths that are all blank: it is a file stub with no path and no content.
  abbrev pub IsBlank : CaptureData → Type 0
  IsBlank c = (c.payload ≡ []) × (c.type ≡ type_file_stub) × (c.paths ≡ [])

  abbrev pub FullOrBlank : CaptureData → Type 0
  FullOrBlank c = IsFull file_stub_meta c ⊎ IsBlank c

  abbrev AllGood : Option CaptureData → Type 0
  AllGood none = Unit
  AllGood (some c) = FullOrBlank c

  -- A snapshot is what `CaptureCurrent` makes of the parts that the system clipboard gives.
  abbrev pub IsCaptured : Option CaptureData → Type 0
  IsCaptured snapshot =
      (paths : List Text) × (image : Bytes) × (text : Text) × (fallback : Option (Bytes × Text))
      × (snapshot ≡ capture_from_platform file_stub_meta paths image text fallback)

  abbrev pub HasCaptured : WatchEvent → Type 0
  HasCaptured (native_tick snapshot) = IsCaptured snapshot
  HasCaptured (file_tick paths snapshot) = IsCaptured snapshot
  HasCaptured (text_event t paths snapshot) = IsCaptured snapshot
  HasCaptured (image_event i paths snapshot) = IsCaptured snapshot
