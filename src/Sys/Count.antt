-- ===== src/Sys/Count.antt =====
-- What `sys_tick_s` tells after a number of heartbeats.
use dts_net.Base.{ℕ, zero, suc, ◌+◌, ◌/◌, ◌%◌, ◌^◌, ◌≡◌, ◌<◌, refl, ap, sym, ◌∙◌, arith}
use dts_net.Sys.Defs.{Sys, heartbeat, sys_tick_s, sys_start}

abbrev pub heartbeats : ℕ → ℕ → Sys → Sys
heartbeats freq zero s = s
heartbeats freq (suc n) s = heartbeats freq n (heartbeat freq s)

heartbeat-counts :
    (freq : ℕ) (s : Sys)
    → ((heartbeat freq s).tick ≡ (s.tick + 1) % 2 ^ 64)
      × ((heartbeat freq s).second ≡ (s.tick + 1) % 2 ^ 64 / freq)
unfolding heartbeat
heartbeat-counts freq s = (ground arith, ground arith)

heartbeats-count :
    (freq n : ℕ) (s : Sys)
    → s.tick < 2 ^ 64
    → s.second ≡ s.tick / freq
    → ((heartbeats freq n s).tick ≡ (s.tick + n) % 2 ^ 64)
      × ((heartbeats freq n s).second ≡ (s.tick + n) % 2 ^ 64 / freq)
heartbeats-count freq zero s small told =
    let same : s.tick ≡ (s.tick + 0) % 2 ^ 64 = omega arith in
    (same, told ∙ ap (λ t. t / freq) same)
heartbeats-count freq (suc n) s small told =
    let (ticked, now) = heartbeat-counts freq s in
    let (tick, second) =
      heartbeats-count freq n (heartbeat freq s) (omega (arith, ticked))
        (now ∙ ap (λ t. t / freq) (sym ticked)) in
    let next : ((heartbeat freq s).tick + n) % 2 ^ 64 ≡ (s.tick + suc n) % 2 ^ 64 =
      omega (arith, ticked) in
    (tick ∙ next, second ∙ ap (λ t. t / freq) next)

-- After `n` heartbeats from the start, at `freq` of them a second, `sys_tick_s` tells the whole seconds
-- that the heartbeats make, counted in 64 bits: the time falls back to 0 after 2 ^ 64 heartbeats.
pub sys_tick_s-heartbeats :
    (freq n : ℕ) → 0 < freq → sys_tick_s (heartbeats freq n sys_start) ≡ n % 2 ^ 64 / freq
unfolding sys_tick_s
sys_tick_s-heartbeats (suc freq) n some_beats =
    let (_, second) = heartbeats-count (suc freq) n sys_start (omega arith) (omega arith) in
    second ∙ (let e : 0 + n ≡ n = omega arith in rw e refl)
sys_tick_s-heartbeats zero n none_at_all = absurd (omega arith)
