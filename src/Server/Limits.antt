-- ===== src/Server/Limits.antt =====
-- server/handler/ws_limits.go: the limit on the size of a websocket frame; and the size limit that
-- server/config/config.go announces to the clients.
use clip_cascade_go_fork.Prelude.{
  ℕ, ◌*◌, ◌^◌, ◌<◌, ◌≡◌, ap, if_cases, Bool, true, false, arith, if◌then◌else◌, Option, none, some,
}
use clip_cascade_go_fork.Prelude.Int.{ℤ, pos, ltb_ℤ, ◌≤ℤ◌}
use clip_cascade_go_fork.Prelude.Int64.{mul64, leb_ℤ, mul64-exact}

abbrev pub default_read_limit : ℤ
default_read_limit = pos (64 * 1024 * 1024)

abbrev pub min_read_limit : ℤ
min_read_limit = pos (1024 * 1024)

unfoldable pub normalize_read_limit : ℤ → ℤ
normalize_read_limit limit =
    if leb_ℤ limit (pos 0)
    then default_read_limit
    else if ltb_ℤ limit min_read_limit
    then min_read_limit
    else limit

unfoldable pub resolve_read_limit : ℤ → ℤ → ℤ
resolve_read_limit max_bytes max_mib =
    if ltb_ℤ (pos 0) max_bytes
    then normalize_read_limit max_bytes
    else if ltb_ℤ (pos 0) max_mib
    then normalize_read_limit (mul64 (mul64 max_mib (pos 1024)) (pos 1024))
    else default_read_limit

-- What `applyWebSocketReadLimit` passes to `SetReadLimit`, if there is a connection.
unfoldable pub apply_read_limit : Bool → ℤ → Option ℤ
apply_read_limit has_conn limit = if has_conn then some (normalize_read_limit limit) else none

pub record SizeConfig : Type 0 where
  pub p2p_enabled : Bool
  pub max_message_size_bytes : ℤ
  pub max_message_size_mib : ℤ

-- `EffectiveMaxMessageBytes`; 0 stands for no limit.
unfoldable pub effective_max_message_bytes : SizeConfig → ℤ
effective_max_message_bytes c =
    if c.p2p_enabled
    then pos 0
    else if ltb_ℤ (pos 0) c.max_message_size_bytes
    then c.max_message_size_bytes
    else mul64 (mul64 c.max_message_size_mib (pos 1024)) (pos 1024)

pub normalize_read_limit_min : (limit : ℤ) → min_read_limit ≤ℤ normalize_read_limit limit
unfolding normalize_read_limit
normalize_read_limit_min limit = ground arith

normalize_read_limit_fixed :
    (limit : ℤ) → min_read_limit ≤ℤ limit → normalize_read_limit limit ≡ limit
unfolding normalize_read_limit
normalize_read_limit_fixed limit h = ground arith

resolve_read_limit_min :
    (max_bytes max_mib : ℤ) → min_read_limit ≤ℤ resolve_read_limit max_bytes max_mib
unfolding resolve_read_limit
resolve_read_limit_min max_bytes max_mib =
    if_cases (λ r. min_read_limit ≤ℤ r) (ltb_ℤ (pos 0) max_bytes)
      (λ _. normalize_read_limit_min max_bytes)
      (λ _.
        if_cases (λ r. min_read_limit ≤ℤ r) (ltb_ℤ (pos 0) max_mib)
          (λ _. normalize_read_limit_min _) (λ _. omega arith))

-- Whatever the two settings are, also where the product wraps around, the limit is at least one
-- MiB: a connection never runs without a limit. It is applied as it was resolved.
pub resolve_read_limit_safe :
    (max_bytes max_mib : ℤ)
    → (min_read_limit ≤ℤ resolve_read_limit max_bytes max_mib)
      × (apply_read_limit true (resolve_read_limit max_bytes max_mib)
          ≡ some (resolve_read_limit max_bytes max_mib))
unfolding apply_read_limit
resolve_read_limit_safe max_bytes max_mib = (
  resolve_read_limit_min max_bytes max_mib,
  ap some (normalize_read_limit_fixed _ (resolve_read_limit_min max_bytes max_mib)),
)

-- Without a limit in bytes, a number of MiB that is positive and fits into 63 bits is the limit,
-- and with peer-to-peer off it is also the size that the server announces.
pub resolve_read_limit_mib :
    (n : ℕ)
    → 0 < n
    → n < 2 ^ 43
    → (resolve_read_limit (pos 0) (pos n) ≡ pos (n * 1024 * 1024))
      × (effective_max_message_bytes (record {
        p2p_enabled = false;
        max_message_size_bytes = pos 0;
        max_message_size_mib = pos n;
      })
          ≡ resolve_read_limit (pos 0) (pos n))
unfolding resolve_read_limit effective_max_message_bytes
resolve_read_limit_mib n p h =
    let e : mul64 (mul64 (pos n) (pos 1024)) (pos 1024) ≡ pos (n * 1024 * 1024) =
      rw (mul64-exact n 1024 (omega arith) (omega arith) (omega arith))
        (mul64-exact (n * 1024) 1024 (omega arith) (omega arith) (omega arith)) in
    let f : normalize_read_limit (pos (n * 1024 * 1024)) ≡ pos (n * 1024 * 1024) =
      normalize_read_limit_fixed _ (omega arith) in
    rw (e, f) (ground arith)
