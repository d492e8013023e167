-- ===== src/Dhcp/World.antt =====
-- What the client works on: the timers, `malloc`, `free`, `rand`, `sendto` and `set_ip`, which are
-- external. What was handed to them is recorded, and what they answer is an input. A reading of
-- memory that was freed gives what the memory held last.
use dts_net.Base.{ℕ, suc, Bool, false, not, Option, none, some, List, [], ◌∷◌, ◌++◌}
use dts_net.Base.{if◌then◌else◌, ◌==◌, ◌||◌, length, take, replicate}
use dts_net.Endian.{Buffer}
use dts_net.Dhcp.Defs.{DhcpMessage, dhcp_message_pack}

-- The `DHCP_C_STATE_...` that the code uses, and the two that it only names.
pub data DhcpState : Type 0 where
  init_reboot rebooting init selecting requesting bound renewing rebinding : DhcpState

-- A timer: when it was started, and for how many seconds.
pub data Timer : Type 0 where
  stopped : Timer
  started : ℕ → ℕ → Timer

pub record DhcpClient : Type 0 where
  pub state : DhcpState
  pub rx_sk : ℕ
  pub tx_sk : ℕ
  pub udp_setup : Bool
  pub msg : DhcpMessage
  -- The block that `msg.raw_data` points to.
  pub raw : Option ℕ
  pub ethaddr : Buffer
  pub t1 : Timer
  pub t2 : Timer
  pub start_time : ℕ
  pub lease : ℕ

-- `live` are the blocks that are allocated, `twice` those that were freed when they were not;
-- `sent` the datagrams handed to `sendto`, `ips` the addresses handed to `set_ip`.
pub record World : Type 0 where
  pub now : ℕ
  pub expired : ℕ → Timer → Bool
  pub grant : ℕ → Bool
  pub asked : ℕ
  pub live : List ℕ
  pub twice : List ℕ
  pub junk : ℕ
  pub random : ℕ → ℕ
  pub rolls : ℕ
  pub answer : ℕ → ℕ
  pub sent : List Buffer
  pub ips : List Buffer

-- A block is named by the number of the request that gave it.
unfoldable pub take_block : World → Option ℕ × World
take_block w =
    if w.grant w.asked
    then (some w.asked, record w { asked = suc w.asked; live = w.asked ∷ w.live })
    else (none, record w { asked = suc w.asked })

unfoldable pub is_live : ℕ → List ℕ → Bool
is_live i [] = false
is_live i (j ∷ js) = j == i || is_live i js

unfoldable pub remove_block : ℕ → List ℕ → List ℕ
remove_block i [] = []
remove_block i (j ∷ js) = let rest = remove_block i js in if j == i then js else j ∷ rest

-- `free`, of NULL too.
unfoldable pub release : Option ℕ → World → World
unfolding is_live remove_block
release none w = w
release (some i) w =
    if is_live i w.live
    then record w { live = remove_block i w.live }
    else record w { twice = i ∷ w.twice }

abbrev hand_over : DhcpMessage → World → World
hand_over m w = record w { sent = w.sent ++ (take m.raw_data_size m.raw_data ∷ []) }

abbrev with_room : ℕ → World → DhcpMessage → DhcpMessage
with_room size w msg = record msg { raw_data = replicate size w.junk; raw_data_size = size }

-- The end of `dhcp_client_send_discover` and of `dhcp_client_send_request`: a block of `size`
-- bytes, the message in it, `sendto`, `free`. The result of `sendto` is compared as a `size_t`.
unfoldable pub transmit : ℕ → DhcpClient → World → DhcpClient × World × Bool
unfolding take_block release
transmit size c w =
    let (block, w1) = take_block w in
    let (m, packed) = dhcp_message_pack (with_room size w c.msg) in
    if w.grant w.asked
    then (
      record c { msg = m; raw = block },
      release block (hand_over m w1),
      not (w.answer (length w.sent) == 0),
    )
    else (record c { msg = record c.msg { raw_data = [] }; raw = none }, w1, false)
