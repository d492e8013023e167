-- ===== src/Ether/Defs.antt =====
-- `ether_frame_t`, `ether_pack`, `ether_unpack`, and sending and receiving over an interface, which
-- is external: what was handed to it is recorded, and whether it takes a frame is an input.
use dts_net.Base.{ℕ, ◌+◌, ◌-◌, ◌%◌, ◌^◌, Bool, true, false, Option, none, some, List, [], ◌∷◌, ◌++◌}
use dts_net.Base.{if◌then◌else◌, ltb, ◌==◌, take, drop, length}
use dts_net.Endian.{Buffer, br16, bw16, br32}
use dts_net.Bytes.{copy_at}
use dts_net.Dblk.{Node, Chain, dblk_size, dblk_copy_to, dblk_node_init}

pub record EtherFrame : Type 0 where
  pub dest_mac_addr : Buffer
  pub src_mac_addr : Buffer
  pub payload : Chain
  pub kind : ℕ
  pub crc : ℕ
  pub bytes : Buffer
  pub size : ℕ

abbrev pub ether_type_arp : ℕ
ether_type_arp = 0x0806

abbrev pub ether_type_ip : ℕ
ether_type_ip = 0x0800

-- The interface: the frames handed to `send`, the last one at the end, and its answers.
pub record Wire : Type 0 where
  pub frames : List Buffer
  pub accept : ℕ → Bool

-- The bytes before the payload. A small type is not a type but a length, and then the two bytes
-- are written only for a payload below 46.
unfoldable pub ether_header : EtherFrame → Buffer
ether_header frame =
    let b = copy_at (copy_at frame.bytes 0 frame.dest_mac_addr 6) 6 frame.src_mac_addr 6 in
    if ltb frame.kind 0x05dc
    then (if ltb (dblk_size frame.payload) 46 then (bw16 46 b 12).0 else b)
    else (bw16 frame.kind b 12).0

unfoldable pub ether_pack : EtherFrame → EtherFrame
ether_pack frame =
    let b = ether_header frame in
    let room = (frame.size + 2 ^ 64 - 14) % 2 ^ 64 in
    let (mem, n) = dblk_copy_to frame.payload (drop 14 b) room in
    record frame { bytes = take 14 b ++ mem; size = n + 14 }

-- The payload is one node over the bytes of the frame.
unfoldable pub ether_unpack : EtherFrame → EtherFrame × Bool
ether_unpack frame =
    let psize = (frame.size - 18) % 2 ^ 16 in
    if ltb frame.size 64 then (frame, false) else (
      record frame {
        dest_mac_addr = frame.bytes;
        src_mac_addr = drop 6 frame.bytes;
        kind = br16 frame.bytes 12;
        payload = dblk_node_init (drop 14 frame.bytes) psize ∷ [];
        crc = br32 frame.bytes (14 + psize);
      },
      true,
    )

-- `ether_hl_send` from the address `mac`.
unfoldable pub ether_hl_send : Buffer → EtherFrame → Wire → EtherFrame × Wire × Bool
ether_hl_send mac frame wire =
    let f = ether_pack (record frame { src_mac_addr = mac }) in
    (
      f,
      record wire { frames = wire.frames ++ (take f.size f.bytes ∷ []) },
      wire.accept (length wire.frames),
    )

-- What `ether_ll_recv` passes on of a frame that `recv` gave: nothing is passed on of a type that
-- is neither ARP nor IP.
pub data Upward : Type 0 where
  to_arp to_ip : Node → Upward
  to_nobody : Upward

abbrev first_node : Chain → Node
first_node [] = dblk_node_init [] 0
first_node (d ∷ ds) = d

abbrev upward : EtherFrame → Upward
upward f =
    if f.kind == ether_type_arp
    then to_arp (first_node f.payload)
    else if f.kind == ether_type_ip
    then to_ip (first_node f.payload)
    else to_nobody

-- What the `size` bytes that lie in the frame are; `none` where `ether_ll_recv` returns 0.
unfoldable pub ether_received : EtherFrame → Option Upward
ether_received frame =
    let (f, valid) = ether_unpack frame in
    if ltb 0 frame.size then (if valid then some (upward f) else none) else none
