-- ===== src/Server/Hub/Replies.antt =====
-- server/handler/ws_hub.go: the frames that the hub makes.
use clip_cascade_go_fork.Prelude.{
  ℕ, ◌≡◌, refl, Bool, true, false, [], ◌∷◌, arith, if◌then◌else◌, match_cases, All-map, ◌==◌,
}
use clip_cascade_go_fork.Prelude.Eq.{nat_eq, string_eq}
use clip_cascade_go_fork.GoMap
use clip_cascade_go_fork.GoMap.{
  GoMap, DistinctKeys, DistinctKeys-put, get-put, get-remove, All-put, All-remove, All-get,
}
use clip_cascade_go_fork.Protocol.Text.{Text, codes, text_eq, is_space}
use clip_cascade_go_fork.Protocol.Text.Laws.{Free, EndsClear}
use clip_cascade_go_fork.Protocol.Stomp.{Frame, get_header, message_frame}
use clip_cascade_go_fork.Protocol.Stomp.RoundTrip.{IsClean, IsCleanHeader}

-- A text that can be the value of a header.
abbrev pub IsValue : Text → Type 0
IsValue v = Free 10 v × EndsClear is_space v

pub get_header-IsValue : (f : Frame) (key : Text) → IsClean f → IsValue (get_header f key)
unfolding get_header
get_header-IsValue f key k =
    match_cases IsValue (GoMap.get f.headers key) (λ _. (tt, tt))
      (λ v q.
        All-get IsValue f.headers key v
          (All-map (λ h c. (c.value_line, c.value_end)) f.headers k.headers) q)

-- A header name of the hub, tested once.
is_plain : Text → Bool
is_plain [] = true
is_plain (c ∷ s) = (if c == 10 then false else if c == b':' then false else is_plain s)

plain-Free : (s : Text) → is_plain s ≡ true → Free 10 s × Free b':' s
unfolding is_plain
plain-Free [] h = (tt, tt)
plain-Free (c ∷ s) h = ground (arith, plain-Free s)

header-IsClean :
    (c : ℕ) (key value : Text)
    → is_plain (c ∷ key) ≡ true
    → is_space c ≡ false
    → IsValue value
    → IsCleanHeader (c ∷ key, value)
header-IsClean c key value h start v =
    let (line, colon) = plain-Free (c ∷ key) h in
    record {
      key_nonempty = λ z. cc;
      key_line = line;
      key_colon = colon;
      key_start = start;
      value_line = v.0;
      value_end = v.1;
    }

pub message_frame-IsClean :
    (destination subscription_id body : Text)
    → IsValue destination
    → IsValue subscription_id
    → EndsClear (λ c. c == 0) body
    → IsClean (message_frame destination subscription_id [] body)
unfolding message_frame GoMap.put is_space is_plain
message_frame-IsClean destination subscription_id body d s b = record {
  command_line = (plain-Free (codes "MESSAGE") refl).0;
  command_start = refl;
  command_end = refl;
  headers = (
    header-IsClean _ _ destination refl refl d,
    (
      header-IsClean _ _ subscription_id refl refl s,
      (header-IsClean _ _ [] refl refl (tt, tt), tt),
    ),
  );
  distinct =
      DistinctKeys-put
        (GoMap.put (GoMap.put [] (codes "destination") destination) (codes "subscription")
          subscription_id)
        (codes "message-id") []
        (DistinctKeys-put (GoMap.put [] (codes "destination") destination) (codes "subscription")
          subscription_id (DistinctKeys-put [] (codes "destination") destination tt));
  body_end = b;
}
