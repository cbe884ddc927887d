-- ===== src/Tests/ProtocolTests.antt =====
-- The frames and the hub, at concrete inputs.
use clip_cascade_go_fork.Prelude.{◌≡◌, refl, Bool, true, some, [], ◌∷◌, if◌then◌else◌, ok, All}
use clip_cascade_go_fork.Prelude.Eq.{nat_eq, string_eq}
use clip_cascade_go_fork.GoMap
use clip_cascade_go_fork.Protocol.Text.{
  Text, codes, text_eq, is_space, trim_left, trim_right, trim_space, split, split_blank, cut,
}
use clip_cascade_go_fork.Protocol.Stomp.{
  Frame, new_frame, set_header, get_header, encode_headers, encode, add_line, parse_headers,
  parse_section, parse_parts, parse_frame, send_frame, message_frame, connected_frame,
}
use clip_cascade_go_fork.Protocol.Stomp.RoundTrip.{IsClean, parse_frame-encode}
use clip_cascade_go_fork.Protocol.Stomp.Parsed.{
  parse_frame-IsClean, parse_frame_total, parse_frame-encode-parse_frame,
}
use clip_cascade_go_fork.Protocol.Summary.{dedupe_from, dedupe_names, bracketed_names}
use clip_cascade_go_fork.Server.Hub.{
  Conn, register, new_hub, handle_message, handle_frame, broadcast, broadcast_targets, with_locks,
  write_all,
}
use clip_cascade_go_fork.Server.Hub.Sessions.{
  Session, World, open_session, close_session, receive, Reach, starts, opens,
}
use clip_cascade_go_fork.Server.Hub.Registry.{is_of}
use clip_cascade_go_fork.Server.Hub.Sound.{IsSound, Reach-IsSound}
use clip_cascade_go_fork.Server.Hub.Delivery.{received, delivered, send_delivered, receive_private}

-- The opened code of the frames.
stomp_code : Unit {0}
unfolding trim_left trim_right trim_space split split_blank cut is_space GoMap.put GoMap.get
    new_frame set_header get_header encode_headers encode add_line parse_headers parse_section
    parse_parts parse_frame send_frame message_frame connected_frame
stomp_code = tt

abbrev hello : Frame
unfolding send_frame
hello = send_frame (codes "/app") (codes "hi: there")

abbrev hello_raw : Text
hello_raw = encode hello

hello_parses : parse_frame hello_raw ≡ ok hello
unfolding stomp_code
hello_parses = refl

hello-IsClean : IsClean hello
hello-IsClean = parse_frame-IsClean hello_raw hello hello_parses

parse_frame-encode_example : parse_frame (encode hello) ≡ ok hello
parse_frame-encode_example = parse_frame-encode hello hello-IsClean

parse_frame-encode-parse_frame_example : parse_frame (encode hello) ≡ ok hello
parse_frame-encode-parse_frame_example = parse_frame-encode-parse_frame hello_raw hello hello_parses

parse_frame_total_example : (f : Frame) × (parse_frame (codes "PING") ≡ ok f)
parse_frame_total_example = parse_frame_total (codes "PING")

-- Two connections of ann and one of bob.
abbrev any_body : Text → Bool
any_body body = true

abbrev world_0 : World
world_0 = record { hub = new_hub []; sessions = [] }

abbrev world_1 : World
world_1 = open_session world_0 "ann" 1

abbrev world_2 : World
world_2 = open_session world_1 "bob" 2

abbrev world_3 : World
world_3 = open_session world_2 "ann" 3

abbrev ann : Session
ann = record { username = "ann"; subscription_id = [] }

hub_code : Unit {0}
unfolding stomp_code open_session register new_hub handle_message handle_frame broadcast
    broadcast_targets with_locks write_all receive close_session
hub_code = tt

world_3-Reach : Reach any_body [] world_3 []
unfolding hub_code
world_3-Reach =
    opens world_2 [] "ann" 3 (opens world_1 [] "bob" 2 (opens world_0 [] "ann" 1 starts refl) refl)
      refl

ann_here : GoMap.get world_3.sessions 1 ≡ some ann
unfolding hub_code
ann_here = refl

hello_command : hello.command ≡ codes "SEND"
unfolding hub_code
hello_command = refl

Reach-IsSound_example : IsSound world_3
Reach-IsSound_example = Reach-IsSound any_body [] world_3 [] world_3-Reach

send_delivered_example :
    ((c : Conn)
      → received (receive any_body world_3 ann 1 hello_raw).1 c
        ≡ (if is_of "ann" (GoMap.get world_3.sessions c) then delivered ann hello ∷ [] else []))
    × (parse_frame (delivered ann hello)
        ≡ ok (message_frame (get_header hello (codes "destination")) [] [] hello.body))
send_delivered_example =
    send_delivered any_body [] world_3 [] ann 1 hello_raw hello world_3-Reach ann_here hello_parses
      hello_command refl

receive_private_example :
    All
      (λ e. is_of "ann" (GoMap.get world_3.sessions e.0) ≡ true)
      (receive any_body world_3 ann 1 hello_raw).1
receive_private_example =
    receive_private any_body [] world_3 [] ann 1 hello_raw world_3-Reach ann_here

bracketed : bracketed_names (codes "a" ∷ codes " a" ∷ codes "b" ∷ []) ≡ codes "[a] [b]"
unfolding stomp_code bracketed_names dedupe_names dedupe_from
bracketed = refl
