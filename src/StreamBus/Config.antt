-- ===== src/StreamBus/Config.antt =====
-- streambus/types.go: the errors and the configuration of the bus.
use go_warp.Base.{◌*◌, ◌^◌, ℤ, pos, ltb_ℤ, leb_ℤ, if◌then◌else◌}
use go_warp.Errors.{Error}

-- The errors of streambus/types.go, and that of a context.
pub data BusError : Type 0 where
  closed_error subscription_done invalid_topic payload_too_large invalid_buffer replay_unavailable :
      BusError
  context_error : Error → BusError

-- The fields of Config that the bus reads; CopyPayload makes a copy, which is the same list.
pub record Config : Type 0 where
  pub default_buffer : ℤ
  pub max_buffer : ℤ
  pub replay_capacity : ℤ
  pub max_payload : ℤ

abbrev positive_or : ℤ → ℤ → ℤ
positive_or n default = if leb_ℤ n (pos 0) then default else n

abbrev at_most : ℤ → ℤ → ℤ
at_most bound n = if ltb_ℤ bound n then bound else n

unfoldable pub normalized : Config → Config
normalized c =
    let max_buffer = positive_or c.max_buffer (pos 4096) in
    record c {
      default_buffer = at_most max_buffer (positive_or c.default_buffer (pos 64));
      max_buffer = max_buffer;
      max_payload = positive_or c.max_payload (pos (16 * 2 ^ 20));
    }
