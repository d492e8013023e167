-- ===== src/Sys/Defs.antt =====
-- `dts_net_sys_heartbeat` and `sys_tick_s`. `size_t` has 64 bits; `freq` is `DTS_NET_SYS_HEARTBEAT_FREQ`.
use dts_net.Base.{ℕ, ◌+◌, ◌/◌, ◌%◌, ◌^◌, ◌==◌, if◌then◌else◌}

pub record Sys : Type 0 where
  pub tick : ℕ
  pub second : ℕ

unfoldable pub heartbeat : ℕ → Sys → Sys
heartbeat freq s =
    let tick = (s.tick + 1) % 2 ^ 64 in
    let now = tick / freq in
    if now == s.second then record s { tick = tick } else record { tick = tick; second = now }

unfoldable pub sys_tick_s : Sys → ℕ
sys_tick_s s = s.second

-- Before the first heartbeat.
abbrev pub sys_start : Sys
sys_start = record { tick = 0; second = 0 }
