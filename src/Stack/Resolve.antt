-- ===== src/Stack/Resolve.antt =====
-- Asking for a hardware address, answering, and learning the answer: three steps on two hosts.
use dts_net.Base.{
  drop, ℕ, suc, ◌-◌, ◌≡◌, ◌<◌, refl, sym, ap, ◌∙◌, arith, Bool, true, false, none, some, List, [],
  ◌∷◌, ◌++◌,
}
use dts_net.Base.{◌==◌, Bool-cases, inl, inr}
use dts_net.Endian.{Buffer, br16}
use dts_net.Dblk.{dblk_node_init}
use dts_net.Icmp.{Icmp}
use dts_net.Tcp.{ListLib}
use dts_net.Ip.RoundTrip.{Quad, quad_bytes}
use dts_net.Arp.{ArpPacket, arp_unpack}
use dts_net.Ether.{ether_received, ether_unpack}
use dts_net.EtherArp.{FindLib, ArpItem, ArpTable, Clock, matches, ether_arp_get_ip}
use dts_net.EtherArp.{nif_of_addr, add_item, learn, learn_loop, ether_arp_ether_recv}
use dts_net.EtherArp.{with_wire, known_or_ask, ether_arp_get_mac_address}
use dts_net.Stack.Defs.{Host, with_arp, after_dispatch, ether_ll_recv, after_frame, dispatch}
use dts_net.Stack.Frames.{Mac, mac_bytes, station, on_network, request_bytes, reply_bytes, padded}
use dts_net.Stack.Frames.{asks, answers}

module _ (flib : FindLib) where
  open flib use {list_find, list_add, before, after, splits, adds, find_nil, find_cons}

  -- A new element is found where nothing else matches.
  find-inserted :
      (p : ArpItem → Bool) (xs ys : List ArpItem) (x : ArpItem)
      → p x ≡ true
      → list_find ArpItem p (xs ++ ys) ≡ none
      → list_find ArpItem p (xs ++ (x ∷ ys)) ≡ some x
  find-inserted p [] ys x h missing = find_cons ArpItem p x ys ∙ rw h refl
  find-inserted p (z ∷ xs) ys x h missing =
      let here = sym (find_cons ArpItem p z (xs ++ ys)) ∙ missing in
      elim (Bool-cases (p z)) [
        | inl match ↦ ground (arith, here)
        | inr other ↦
            find_cons ArpItem p z (xs ++ (x ∷ ys))
            ∙ rw other (find-inserted p xs ys x h (ground (arith, here)))
      ]

  find-added :
      (p : ArpItem → Bool) (q : List ArpItem) (x : ArpItem)
      → p x ≡ true
      → list_find ArpItem p q ≡ none
      → list_find ArpItem p (list_add ArpItem q x) ≡ some x
  find-added p q x h missing =
      ap (list_find ArpItem p) (adds ArpItem q x)
      ∙ find-inserted p (before ArpItem q) (after ArpItem q) x h
          (sym (ap (list_find ArpItem p) (splits ArpItem q)) ∙ missing)

module _ (lib : ListLib) (blank : Icmp) (flib : FindLib) (junk : ℕ) (clock : Clock) where
  -- The table with the sender of an answer.
  abbrev learned : ArpTable → Mac → Quad → ArpTable
  learned t m q = record {
    items =
        flib.list_add ArpItem t.items
          (record { ip = quad_bytes q; mac = mac_bytes m; timer = t.next_timer });
    spare = t.spare - 1;
    next_timer = suc t.next_timer;
  }

  learn-roomy :
      (t : ArpTable) (pkt : ArpPacket)
      → 0 < t.spare
      → learn flib clock t pkt ≡ some (add_item flib t pkt)
  unfolding learn learn_loop
  learn-roomy t pkt room = let some_left : t.spare == 0 ≡ false = ground arith in rw some_left refl

  -- The answer as it is read out of its frame.
  abbrev received_answer : Mac → Mac → Quad → Quad → Buffer → ArpPacket
  received_answer m n q t tail =
      let bytes = reply_bytes m q n t ++ tail in
      record {
        hrd = 1;
        pro = 0x0800;
        hln = 6;
        pln = 4;
        op = 2;
        sha = drop 22 bytes;
        spa = drop 28 bytes;
        tha = drop 32 bytes;
        tpa = drop 38 bytes;
        bytes = drop 14 bytes;
        size = 46;
      }

  arrives :
      (id : ℕ) (m n : Mac) (q t : Quad) (tail : Buffer) (h : Host)
      → ether_ll_recv lib blank flib junk clock (station id n) (padded (reply_bytes m q n t) tail) h
        ≡ after_dispatch
            (with_arp h (with_wire h.wire (learn flib clock h.arp (received_answer m n q t tail))))
  unfolding ether_ll_recv after_frame ether_received ether_unpack dispatch ether_arp_ether_recv
      arp_unpack br16 dblk_node_init
  arrives id m n q t tail h = refl

  learns :
      (id : ℕ) (m n : Mac) (q t : Quad) (tail : Buffer) (h : Host)
      → 0 < h.arp.spare
      → ether_ll_recv lib blank flib junk clock (station id n) (padded (reply_bytes m q n t) tail) h
        ≡ some (record h { arp = learned h.arp m q }, true)
  learns id m n q t tail h room =
      arrives id m n q t tail h
      ∙ ap (λ o. after_dispatch (with_arp h (with_wire h.wire o)))
          (learn-roomy h.arp (received_answer m n q t tail) room)

  -- Two hosts: `near` on its interface, and what is `far`.
  module _ (near_id near_ip far_id far_ip : ℕ) (n m : Mac) (t q : Quad)
      (near_mask far_mask : Buffer) (near far : Host)
      (registered : ether_arp_get_ip flib near.nifs (station near_id n)
        ≡ some (on_network near_ip t near_mask))
      (owned : nif_of_addr flib far.nifs (record { version = 4; v4 = quad_bytes q; netmask = [] })
        ≡ some (record { ip = on_network far_ip q far_mask; eth = station far_id m }))
      (unknown : flib.list_find ArpItem (matches (quad_bytes q)) near.arp.items ≡ none)
      (room : 0 < near.arp.spare) (far_tail near_tail : Buffer) where
    -- The states after the question, the answer, and the learning.
    abbrev pub asked : Host
    asked = record near {
      wire = record near.wire { frames = near.wire.frames ++ (request_bytes n t q ∷ []) };
    }

    abbrev pub answered : Host
    answered = record far {
      wire = record far.wire { frames = far.wire.frames ++ (reply_bytes m q n t ∷ []) };
    }

    abbrev pub informed : Host
    informed = record asked { arp = learned near.arp m q }

    -- A host whose table does not know an address of another host sends one frame that asks for it,
    -- and gets no address yet. The other host, which has the IP address on its interface, answers that
    -- frame with one frame of its own. The first host learns from the answer, and then finds the
    -- hardware address of the other one without a frame. Both interfaces hand up 64 bytes, with
    -- whatever stands behind the 42 that were sent, and the first host's pool has an item left.
    pub resolves :
        (ether_arp_get_mac_address flib junk near.nifs near.arp
            (station near_id n)
            (quad_bytes q)
            near.wire
          ≡ some (none, asked.wire))
        × (ether_ll_recv lib blank flib junk clock
              (station far_id m)
              (padded (request_bytes n t q) far_tail)
              far
            ≡ some (answered, true))
        × (ether_ll_recv lib blank flib junk clock
              (station near_id n)
              (padded (reply_bytes m q n t) near_tail)
              asked
            ≡ some (informed, true))
        × (ether_arp_get_mac_address flib junk informed.nifs informed.arp
              (station near_id n)
              (quad_bytes q)
              informed.wire
            ≡ some (some (mac_bytes m), informed.wire))
    unfolding ether_arp_get_mac_address known_or_ask
    resolves =
        let item : ArpItem = record {
          ip = quad_bytes q;
          mac = mac_bytes m;
          timer = near.arp.next_timer;
        } in
        let found =
          find-added flib (matches (quad_bytes q)) near.arp.items item (ground arith) unknown in
        (
          asks flib junk near.nifs near.arp near.wire near_id near_ip n t q near_mask registered
              unknown,
          answers lib blank flib junk clock far_id far_ip m n q t far_mask far_tail far owned,
          learns near_id m n q t near_tail asked room,
          rw found refl,
        )
