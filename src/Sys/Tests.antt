-- ===== src/Sys/Tests.antt =====
-- Heartbeats at 4 a second.
use dts_net.Base.{◌≡◌, refl}
use dts_net.Sys.Defs.{heartbeat, sys_tick_s, sys_start}
use dts_net.Sys.Count.{heartbeats}

runs : sys_tick_s (heartbeats 4 7 sys_start) ≡ 1
unfolding heartbeat sys_tick_s
runs = refl
