-- ===== src/Sink/Clickhouse/Open/Settings.antt =====
-- The settings of a connection, and the bounds of what the driver is given.
use spangen.Base.{
  ℕ, ◌%◌, ◌≤◌, ◌≡◌, List, Option, none, some, Text, codes, text_eq, if◌then◌else◌, arith,
}
use spangen.Base.Int.{ℤ, pos, negsuc, ltb_ℤ, pos_part, to_u64}
use spangen.Config.{ChConfig}
use spangen.Config.Lists.{lookup, insert}
use spangen.Sink.Clickhouse.Open.{build_settings, clamp_u8, mk_opts}

-- The settings that may be given.
pub data Setting : Type 0 where
  json_as_string async_insert wait_for_async max_data_size busy_timeout : Setting

unfoldable pub setting_name : Setting → Text
setting_name json_as_string = codes "output_format_native_write_json_as_string"
setting_name async_insert = codes "async_insert"
setting_name wait_for_async = codes "wait_for_async_insert"
setting_name max_data_size = codes "async_insert_max_data_size"
setting_name busy_timeout = codes "async_insert_busy_timeout_ms"

-- What each is for a configuration: the asynchronous ones only with -ch.async, the two limits only
-- where they are positive.
unfoldable pub setting_of : ChConfig → Setting → Option ℤ
setting_of ch json_as_string = if text_eq ch.schema (codes "json") then some (pos 1) else none
setting_of ch async_insert = if ch.async then some (pos 1) else none
setting_of ch wait_for_async =
    if ch.async then some (if ch.wait_for_async then pos 1 else pos 0) else none
setting_of ch max_data_size =
    if ch.async
    then (if ltb_ℤ (pos 0) ch.async_max_data_size then some ch.async_max_data_size else none)
    else none
setting_of ch busy_timeout =
    if ch.async
    then (if ltb_ℤ (pos 0) ch.async_busy_timeout_ms then some ch.async_busy_timeout_ms else none)
    else none

-- Every setting is what the configuration says, and absent where it says nothing.
pub build_settings-lookup :
    (ch : ChConfig) (k : Setting) → lookup (setting_name k) (build_settings ch) ≡ setting_of ch k
unfolding build_settings setting_name setting_of lookup insert text_eq
build_settings-lookup ch json_as_string = ground arith
build_settings-lookup ch async_insert = ground arith
build_settings-lookup ch wait_for_async = ground arith
build_settings-lookup ch max_data_size = ground arith
build_settings-lookup ch busy_timeout = ground arith

buffer_of : ℤ → ℕ
buffer_of x = to_u64 (clamp_u8 x) % 256

buffer_of_bounds :
    (x : ℤ)
    → (1 ≤ buffer_of x)
      × (buffer_of x ≤ 255)
      × (1 ≤ pos_part x → pos_part x ≤ 255 → buffer_of x ≡ pos_part x)
unfolding buffer_of clamp_u8
buffer_of_bounds (pos n) = ground arith
buffer_of_bounds (negsuc n) = ground arith

-- The size of the block buffer is from 1 to 255, so that its conversion to a byte loses nothing; a
-- size in that range is kept.
pub mk_opts-buffer :
    (ch : ChConfig) (addrs : List Text)
    → (1 ≤ (mk_opts ch addrs).block_buffer_size)
      × ((mk_opts ch addrs).block_buffer_size ≤ 255)
      × (1 ≤ pos_part ch.block_buffer
          → pos_part ch.block_buffer ≤ 255
          → (mk_opts ch addrs).block_buffer_size ≡ pos_part ch.block_buffer)
unfolding mk_opts buffer_of
mk_opts-buffer ch addrs = buffer_of_bounds ch.block_buffer
