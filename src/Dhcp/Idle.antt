-- ===== src/Dhcp/Idle.antt =====
-- A client that waits for an offer: no timer brings it on.
use dts_net.Base.{
  ℕ, ◌≡◌, refl, arith, List, [], ◌∷◌, Bool, true, false, Option, none, some, if◌then◌else◌,
}
use dts_net.Base.{◌∙◌}
use dts_net.Endian.{Buffer}
use dts_net.Dhcp.World.{DhcpClient, World, selecting, stopped, take_block, release}
use dts_net.Dhcp.Client.{dhcp_loop, fire_t1, fire_t2, listen_once, dhcp_client_timeout}

-- Rounds of `dhcp_loop` at the times `nows` in which nothing has arrived.
unfoldable pub idle_rounds : List ℕ → DhcpClient → World → DhcpClient × World
unfolding dhcp_loop
idle_rounds [] c w = (c, w)
idle_rounds (t ∷ ts) c w =
    let (c1, w1) = dhcp_loop [] 0 c (record w { now = t }) in idle_rounds ts c1 w1

-- The client has nothing to do but wait, and nothing was sent.
pub record IsWaiting (sent : List Buffer) (after : DhcpClient × World) : Type 0 where
  pub waits : after.0.state ≡ selecting
  pub sends_nothing : after.1.sent ≡ sent

if-both : {A : Type 0} (P : A → Type 0) (b : Bool) (x y : A) → P x → P y → P (if b then x else y)
if-both P true x y p q = p
if-both P false x y p q = q

timeout-IsWaiting :
    (c : DhcpClient) (w : World) → c.state ≡ selecting → IsWaiting w.sent (dhcp_client_timeout c w)
unfolding dhcp_client_timeout
timeout-IsWaiting c w e = rw e (
    if-both (IsWaiting w.sent) c.udp_setup (c, w) (record c { state = selecting }, w)
      (record { waits = e; sends_nothing = refl }) (record { waits = refl; sends_nothing = refl }))

release-sent : (r : Option ℕ) (w : World) → (release r w).sent ≡ w.sent
unfolding release
release-sent none w = refl
release-sent (some i) w = ground arith

listen-IsWaiting :
    (c : DhcpClient) (w : World) → c.state ≡ selecting → IsWaiting w.sent (listen_once [] 0 c w)
unfolding listen_once take_block
listen-IsWaiting c w e = record {
  waits = ground arith;
  sends_nothing = ground (arith, release-sent (some w.asked));
}

then-IsWaiting :
    {sent : List Buffer} (before after : DhcpClient × World)
    → IsWaiting sent before
    → IsWaiting before.1.sent after
    → IsWaiting sent after
then-IsWaiting before after first second = record {
  waits = second.waits;
  sends_nothing = second.sends_nothing ∙ first.sends_nothing;
}

module _ (c : DhcpClient) (w : World) (e : c.state ≡ selecting) where
  stays-IsWaiting : IsWaiting w.sent (c, w)
  stays-IsWaiting = record { waits = e; sends_nothing = refl }

  fire_t1-IsWaiting : IsWaiting w.sent (fire_t1 c w)
  fire_t1-IsWaiting =
      if-both (IsWaiting w.sent) (w.expired w.now c.t1) _ _
        (timeout-IsWaiting (record c { t1 = stopped }) w e) stays-IsWaiting

  fire_t2-IsWaiting : IsWaiting w.sent (fire_t2 c w)
  fire_t2-IsWaiting =
      if-both (IsWaiting w.sent) (w.expired w.now c.t2) _ _
        (timeout-IsWaiting (record c { t2 = stopped }) w e) stays-IsWaiting

  listen_if-IsWaiting : IsWaiting w.sent (if c.udp_setup then listen_once [] 0 c w else (c, w))
  listen_if-IsWaiting =
      if-both (IsWaiting w.sent) c.udp_setup _ _ (listen-IsWaiting c w e) stays-IsWaiting

loop-IsWaiting :
    (c : DhcpClient) (w : World) → c.state ≡ selecting → IsWaiting w.sent (dhcp_loop [] 0 c w)
unfolding dhcp_loop
loop-IsWaiting c w e =
    let a = fire_t1 c w in
    let first : IsWaiting w.sent a = fire_t1-IsWaiting c w e in
    let b = fire_t2 a.0 a.1 in
    let second : IsWaiting a.1.sent b = fire_t2-IsWaiting a.0 a.1 first.waits in
    let third = listen_if-IsWaiting b.0 b.1 second.waits in
    then-IsWaiting a _ first (then-IsWaiting b _ second third)

-- A client in SELECTING stays there and sends nothing, however many rounds of `dhcp_loop` pass at
-- whatever times, as long as nothing arrives: a discover that was lost is not sent again.
pub idle_rounds-never_again :
    (nows : List ℕ) (c : DhcpClient) (w : World)
    → c.state ≡ selecting
    → ((idle_rounds nows c w).0.state ≡ selecting) × ((idle_rounds nows c w).1.sent ≡ w.sent)
unfolding idle_rounds
idle_rounds-never_again [] c w e = (e, refl)
idle_rounds-never_again (t ∷ ts) c w e =
    let a = dhcp_loop [] 0 c (record w { now = t }) in
    let round = loop-IsWaiting c (record w { now = t }) e in
    let rest = idle_rounds-never_again ts a.0 a.1 round.waits in
    (rest.0, rest.1 ∙ round.sends_nothing)
