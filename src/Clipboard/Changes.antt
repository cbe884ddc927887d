-- ===== src/Clipboard/Changes.antt =====
-- desktop/clipboard/monitor.go: the manager's state and the handling of a change.
use clip_cascade_go_fork.Prelude.{
  ℕ, ◌-◌, ◌*◌, ◌^◌, Bool, true, false, not, ◌&&◌, Option, none, some, if◌then◌else◌, ltb, ◌==◌,
}
use clip_cascade_go_fork.Protocol.Text.{Text}
use clip_cascade_go_fork.Clipboard.Capture.{CaptureData}

-- Times are in nanoseconds, 0 for the zero time. `has_on_copy` tells whether a callback is set.
pub record ClipboardManager : Type 0 where
  pub last_hash : ℕ
  pub suppressed_edits : ℕ
  pub suppressed_at : ℕ
  pub has_on_copy : Bool

unfoldable pub new_clipboard_manager : ClipboardManager
new_clipboard_manager = record {
  last_hash = 0;
  suppressed_edits = 0;
  suppressed_at = 0;
  has_on_copy = false;
}

unfoldable pub on_copy : ClipboardManager → ClipboardManager
on_copy m = record m { has_on_copy = true }

-- The five seconds after which a suppression is out of date.
abbrev pub suppression_time : ℕ
suppression_time = 5 * 10 ^ 9

abbrev pub is_expired : ClipboardManager → ℕ → Bool
is_expired m now =
    ltb 0 m.suppressed_edits
    && not (m.suppressed_at == 0)
    && ltb suppression_time (now - m.suppressed_at)

unfoldable pub expire : ClipboardManager → ℕ → ClipboardManager
expire m now = if is_expired m now then record m { suppressed_edits = 0 } else m

-- `hash` is `XXHash64`.
module _ (hash : Text → ℕ) where
  unfoldable pub seed : ClipboardManager → CaptureData → ClipboardManager
  seed m capture = record m { last_hash = hash capture.payload }

  -- `handleChange` after the expiry, with what is given to the callback.
  unfoldable pub report_change :
      ClipboardManager → CaptureData → ClipboardManager × Option CaptureData
  report_change m capture =
      if ltb 0 m.suppressed_edits
      then (
        record m { last_hash = hash capture.payload; suppressed_edits = m.suppressed_edits - 1 },
        none,
      )
      else if hash capture.payload == m.last_hash
      then (m, none)
      else (
        record m { last_hash = hash capture.payload },
        if m.has_on_copy then some capture else none,
      )

  unfoldable pub handle_change :
      ClipboardManager → ℕ → CaptureData → ClipboardManager × Option CaptureData
  unfolding expire report_change
  handle_change m now capture = report_change (expire m now) capture
