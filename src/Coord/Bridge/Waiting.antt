-- ===== src/Coord/Bridge/Waiting.antt =====
-- Whom the frames of a bridge wait for.
use ghal_bol.Common.{ℕ, ◌≡◌, true, Option, none, some, List, [], ◌∷◌, ◌||◌}
use ghal_bol.Coord.Bridge.{Role, Frame, ActiveBridge, is_some, join, forward, leave}

pub data Event : Type 0 where
  joins : Role → ℕ → Event
  receives : Role → Frame → Event
  leaves : Role → Event

unfoldable pub step : ℕ → Event → Option ActiveBridge → Option ActiveBridge
step max_bytes (joins role tx) a = some (join role tx a).0
step max_bytes (receives role bytes) a = (forward max_bytes role bytes a).0
step max_bytes (leaves role) a = leave role a

unfoldable pub run : ℕ → List Event → Option ActiveBridge → Option ActiveBridge
run max_bytes [] a = a
run max_bytes (e ∷ es) a = run max_bytes es (step max_bytes e a)

-- Frames wait for a side that is not connected, and for none once both were.
pub record Waits (a : ActiveBridge) : Type 0 where
  pub for_caller : (is_some a.caller_tx || a.was_paired) ≡ true → a.to_caller ≡ []
  pub for_callee : (is_some a.callee_tx || a.was_paired) ≡ true → a.to_callee ≡ []

abbrev pub AllWait : Option ActiveBridge → Type 0
AllWait none = Unit
AllWait (some a) = Waits a
