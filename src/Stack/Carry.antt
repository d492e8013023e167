-- ===== src/Stack/Carry.antt =====
-- Sending a block to a known hardware address makes one frame.
use dts_net.Base.{ℕ, suc, ◌+◌, ◌-◌, ◌*◌, ◌%◌, ◌^◌, ◌≡◌, ◌≤◌, refl, ap, ◌∙◌, arith, true}
use dts_net.Base.{
  false, some, [], ◌∷◌, ◌++◌, length, replicate, take, drop, take_all, take-append_ge, min,
}
use dts_net.Base.{take-append_exact}
use dts_net.Endian.{Buffer, bw16}
use dts_net.Dblk.{Chain, Heap, dblk_delete, malloc, free}
use dts_net.Dblk.Contents.{contents, AreReal}
use dts_net.Dblk.CopyLaws.{paste, dblk_copy_to-contents}
use dts_net.Ether.{EtherFrame, Wire, ether_type_ip, ether_header, ether_pack, ether_hl_send}
use dts_net.EtherArp.{new_frame, send_loop, send_to_mac}
use dts_net.Ip.{is_nil}
use dts_net.Stack.Frames.{Mac, mac_bytes, station}

-- A frame from `m` to `n` with an IP datagram.
abbrev pub ip_frame : Mac → Mac → Buffer → Buffer
ip_frame n m bytes = mac_bytes n ++ (mac_bytes m ++ (0x08 ∷ 0x00 ∷ bytes))

-- Fourteen bytes for the header, and the memory behind them.
abbrev framed : Mac → Mac → ℕ → Buffer → ℕ → Chain → EtherFrame
framed n m junk mem size raw = record {
  dest_mac_addr = mac_bytes n;
  src_mac_addr = mac_bytes m;
  payload = raw;
  kind = ether_type_ip;
  crc = 0;
  bytes = replicate 14 junk ++ mem;
  size = size;
}

module _ (n m : Mac) (junk : ℕ) (mem : Buffer) (size : ℕ) (raw : Chain) (real : AreReal raw)
    (fits : length (contents raw) ≤ (size + 2 ^ 64 - 14) % 2 ^ 64) where
  abbrev packed : EtherFrame
  packed = ether_pack (framed n m junk mem size raw)

  ether_pack-ip : take packed.size packed.bytes ≡ ip_frame n m (contents raw)
  unfolding ether_pack ether_header bw16
  ether_pack-ip =
      let room = (size + 2 ^ 64 - 14) % 2 ^ 64 in
      let c = contents raw in
      let n14 : min room (length c) + 14 ≡ 14 + length c = omega (arith, fits) in
      let head = ip_frame n m [] in
      rw (dblk_copy_to-contents raw mem room real, n14, take_all room c fits)
        (take-append_ge 14 (length c) head (paste mem c) refl
          ∙ ap (◌++◌ head) (take-append_exact (length c) c (drop (length c) mem) refl))

module _ (id : ℕ) (n m : Mac) (raw : Chain) (real : AreReal raw)
    (fits : length (contents raw) ≤ 2034) (junk : ℕ) (wire : Wire)
    (taken : wire.accept (length wire.frames) ≡ true) where
  abbrev carried : Wire
  carried = record wire { frames = wire.frames ++ (ip_frame n m (contents raw) ∷ []) }

  abbrev frame : EtherFrame
  frame = new_frame junk 2048 (mac_bytes n) ether_type_ip raw

  goes_out : (ether_hl_send (mac_bytes m) frame wire).1 ≡ carried
  unfolding ether_hl_send
  goes_out =
      ap (λ b. record wire { frames = wire.frames ++ (b ∷ []) })
        (ether_pack-ip n m junk (replicate 2034 junk) 2048 raw real (omega arith))

  -- One round sends the block, the next one finds nothing left.
  loop-sends :
      (fuel : ℕ) (heap h1 : Heap)
      → is_nil raw ≡ false
      → dblk_delete raw heap ≡ ([], h1)
      → send_loop (suc (suc fuel)) (station id m) frame 3 heap wire
        ≡ some (record { left = []; heap = h1; wire = carried })
  unfolding send_loop
  loop-sends fuel heap h1 some_bytes deleted =
      let went : (ether_hl_send (mac_bytes m) frame wire).2 ≡ true =
        unfold ether_hl_send in taken in
      rw (some_bytes, went, deleted, goes_out) refl

-- Where memory is granted and the interface takes the frame, a block of stack memory is sent in one
-- frame, and the memory of the frame is freed.
module _ (id : ℕ) (n m : Mac) (raw : Chain) (heap : Heap) (wire : Wire) where
  pub send_to_mac-sends :
      AreReal raw
      → length (contents raw) ≤ 2034
      → is_nil raw ≡ false
      → ((h : Heap) → dblk_delete raw h ≡ ([], h))
      → (malloc heap).0 ≡ true
      → wire.accept (length wire.frames) ≡ true
      → send_to_mac (station id m) (mac_bytes n) raw heap wire
        ≡ some (
          record {
            left = [];
            heap = free (malloc heap).1;
            wire = record wire { frames = wire.frames ++ (ip_frame n m (contents raw) ∷ []) };
          },
          true,
        )
  unfolding send_to_mac
  send_to_mac-sends real fits some_bytes kept got taken =
      let h1 = (malloc heap).1 in
      let rounds : length raw * 4 + 4 ≡ suc (suc (length raw * 4 + 2)) = omega arith in
      let sent =
        loop-sends id n m raw real fits heap.junk wire taken (length raw * 4 + 2) h1 h1 some_bytes
          (kept h1) in
      rw (got, rounds, sent) refl
