-- ===== src/Protocol/Stomp.antt =====
-- pkg/protocol/stomp.go: the STOMP frames. The order in which `Encode` writes the headers is that
-- of Go's iteration over the map, any order of its entries.
pub mod RoundTrip
pub mod Parsed
use clip_cascade_go_fork.Prelude.{
  ℕ, Bool, true, false, Option, none, some, List, [], ◌∷◌, ◌++◌, Result, ok, err, ◌==◌,
  if◌then◌else◌,
}
use clip_cascade_go_fork.GoMap
use clip_cascade_go_fork.GoMap.{GoMap}
use clip_cascade_go_fork.Protocol.Text.{
  Text, codes, text_eq, trim_right, trim_space, split, split_blank, cut,
}

pub record Frame : Type 0 where
  pub command : Text
  pub headers : GoMap Text Text
  pub body : Text

unfoldable pub new_frame : Text → Frame
new_frame command = record { command = command; headers = []; body = [] }

unfoldable pub set_header : Frame → Text → Text → Frame
set_header f key value = record f { headers = GoMap.put f.headers key value }

-- `Get`: a missing key reads as the empty text.
unfoldable pub get_header : Frame → Text → Text
get_header f key = elim (GoMap.get f.headers key) [ none ↦ [] | some value ↦ value ]

unfoldable pub encode_headers : GoMap Text Text → Text → Text
encode_headers [] rest = rest
encode_headers ((k, v) ∷ headers) rest = k ++ (b':' ∷ v ++ (10 ∷ encode_headers headers rest))

unfoldable pub encode : Frame → Text
encode f = f.command ++ (10 ∷ encode_headers f.headers (10 ∷ f.body ++ (0 ∷ [])))

pub data FrameError : Type 0 where
  empty_data no_command_line : FrameError

-- The body of the loop over the header lines, after the trimming.
unfoldable pub add_line : GoMap Text Text → Text → GoMap Text Text
add_line headers line = elim (cut b':' line) [
  | none ↦ headers
  | some (key, value) ↦ elim key [ [] ↦ headers | c ∷ k ↦ GoMap.put headers (c ∷ k) value ]
]

unfoldable pub parse_headers : GoMap Text Text → List Text → GoMap Text Text
unfolding add_line
parse_headers headers [] = headers
parse_headers headers (line ∷ lines) = parse_headers (add_line headers (trim_space line)) lines

unfoldable pub parse_section : List Text → Text → Result FrameError Frame
parse_section [] body = err no_command_line
parse_section (command ∷ lines) body =
    ok (record { command = trim_space command; headers = parse_headers [] lines; body = body })

unfoldable pub parse_parts : List Text → Result FrameError Frame
parse_parts [] = err empty_data
parse_parts (section ∷ []) = parse_section (split 10 section) []
parse_parts (section ∷ body ∷ _) = parse_section (split 10 section) body

unfoldable pub parse_frame : Text → Result FrameError Frame
parse_frame raw = parse_parts (split_blank (trim_right (λ c. c == 0) raw))

-- The constructors of the common frames.
unfoldable pub connect_frame : Text → Text → Frame
unfolding new_frame set_header
connect_frame accept_version host =
    set_header (set_header (new_frame (codes "CONNECT")) (codes "accept-version") accept_version)
      (codes "host") host

unfoldable pub connected_frame : Text → Frame
unfolding new_frame set_header
connected_frame version = set_header (new_frame (codes "CONNECTED")) (codes "version") version

unfoldable pub subscribe_frame : Text → Text → Frame
unfolding new_frame set_header
subscribe_frame id destination =
    set_header (set_header (new_frame (codes "SUBSCRIBE")) (codes "id") id) (codes "destination")
      destination

unfoldable pub send_frame : Text → Text → Frame
unfolding new_frame set_header
send_frame destination body =
    record (set_header (new_frame (codes "SEND")) (codes "destination") destination) { body = body }

unfoldable pub message_frame : Text → Text → Text → Text → Frame
unfolding new_frame set_header
message_frame destination subscription_id message_id body =
    record (set_header
      (set_header (set_header (new_frame (codes "MESSAGE")) (codes "destination") destination)
        (codes "subscription") subscription_id)
      (codes "message-id") message_id) { body = body }

unfoldable pub error_frame : Text → Frame
unfolding new_frame set_header
error_frame message = set_header (new_frame (codes "ERROR")) (codes "message") message
