-- ===== src/Delivery/Policy.antt =====
-- ghalbol_delivery/src/policy.rs: the limits on how long a message is kept. A `u64` number of seconds
-- becomes an `i64` number of milliseconds, which wraps.
use ghal_bol.Common.{ℕ, ◌+◌, ◌*◌, ◌||◌, Option, none, some, ltb, if◌then◌else◌, Result, ok, err}
use ghal_bol.Common.Int.{ℤ, to_i64}
use ghal_bol.Delivery.Error.{DeliveryError, ttl_invalid}

pub record PolicyLimits : Type 0 where
  pub min_ttl_secs : ℕ
  pub max_ttl_secs : ℕ
  pub default_ttl_secs : ℕ

unfoldable pub clamp_ttl : PolicyLimits → Option ℕ → Result DeliveryError ℕ
clamp_ttl policy ttl_secs =
    let ttl : ℕ = elim ttl_secs [ none ↦ policy.default_ttl_secs | some t ↦ t ] in
    if ltb ttl policy.min_ttl_secs || ltb policy.max_ttl_secs ttl then err ttl_invalid else ok ttl

-- `at_ms + (secs as i64) * 1000`: the cast, the product and the sum wrap.
abbrev pub later_by : ℕ → ℕ → ℤ
later_by at_ms secs = to_i64 (at_ms + secs * 1000)

abbrev pub max_expires_at_ms : PolicyLimits → ℕ → ℤ
max_expires_at_ms policy uploaded_at_ms = later_by uploaded_at_ms policy.max_ttl_secs
