-- ===== src/Tcp/Text.antt =====
-- The text of a segment on its way to the user.
use dts_net.Base.{ℕ, ◌≡◌, ◌<◌, ◌≤◌, ◌%◌, ◌^◌, refl, arith, true, false}
use dts_net.Base.{ltb, ◌==◌, ◌∙◌, length, [], ◌∷◌, ◌++◌, ap, some, take}
use dts_net.Dblk.{
  Node, Heap, dblk_size, dblk_node_size, dblk_node_init, dblk_node_new_with_buff, dblk_copy_from,
}
use dts_net.Dblk.Contents.{node_bytes}
use dts_net.Dblk.AllocLaws.{fresh, new_with_buff-granted}
use dts_net.Dblk.RoundTrip.{filled, copy_from-single, filled-bytes}
use dts_net.Tcp.Defs.{ListLib, Segment, Conn, tcp_segment_length, seg_ctrl_s, seg_ctrl_f}
use dts_net.Tcp.Send.{add32}
use dts_net.Tcp.Receive.{tcp_handle_data, store, acknowledge, enqueue_block, min_size}
use dts_net.Tcp.Acceptance.{send_ack-tcp}

-- A segment whose payload is the one real node `d`, without SYN and FIN.
abbrev pub IsText : Segment → Node → Type 0
IsText seg d =
    (seg.payload ≡ d ∷ [])
    × (d.more ≡ false)
    × (d.vsize ≡ 0)
    × (d.size ≤ length d.bytes)
    × (seg_ctrl_s seg ≡ false)
    × (seg_ctrl_f seg ≡ false)

text-length : (seg : Segment) (d : Node) → IsText seg d → tcp_segment_length seg ≡ d.size
unfolding tcp_segment_length dblk_size dblk_node_size
text-length seg d h = ground arith

module _ (lib : ListLib) where
  -- Acknowledging keeps what is queued and the sequence variables.
  acknowledge-keeps :
      (c : Conn)
      → c.tcp.snd.nxt < 2 ^ 32
      → ((acknowledge lib c).tcp.rx_data ≡ c.tcp.rx_data)
        × ((acknowledge lib c).tcp.rcv ≡ c.tcp.rcv)
        × ((acknowledge lib c).tcp.snd ≡ c.tcp.snd)
  unfolding acknowledge
  acknowledge-keeps c h = ground (arith, send_ack-tcp c c.tcp.snd.una c.tcp.rcv.nxt h)

  -- What is stored, before it is acknowledged.
  abbrev stored : Conn → Node → ℕ → Heap → Conn
  stored c rx n h = record {
    tcp = record c.tcp {
      rx_data = lib.list_enqueue Node c.tcp.rx_data rx;
      rcv = record c.tcp.rcv { nxt = add32 c.tcp.rcv.nxt n };
    };
    net = record c.net { heap = h };
  }

  store-fresh :
      (c : Conn) (seg : Segment) (d : Node) (junk : ℕ) (h : Heap)
      → seg.payload ≡ d ∷ []
      → d.size < 2 ^ 16
      → store lib c seg d.size (some (fresh junk d.size), h)
        ≡ (acknowledge lib (stored c (filled (fresh junk d.size) d.bytes d.size) d.size h), true)
  unfolding store
  store-fresh c seg d junk h payload small =
      let fits : d.size ≤ d.size % 2 ^ 16 = omega arith in
      let copy =
        copy_from-single (fresh junk d.size) d.bytes d.size (unfold dblk_node_init in fits) in
      let queue : enqueue_block lib c.tcp.rx_data
            (dblk_copy_from (fresh junk d.size ∷ []) d.bytes d.size).0
          ≡ lib.list_enqueue Node c.tcp.rx_data (filled (fresh junk d.size) d.bytes d.size) =
        unfold enqueue_block in rw copy refl in
      rw (payload, queue) refl

  handle_data-store :
      (c : Conn) (seg : Segment) (d : Node)
      → IsText seg d
      → seg.seq ≡ c.tcp.rcv.nxt
      → 0 < d.size
      → d.size ≤ c.tcp.rcv.wnd
      → tcp_handle_data lib c seg
        ≡ store lib c seg d.size (dblk_node_new_with_buff d.size c.net.heap)
  unfolding tcp_handle_data
  handle_data-store c seg d text start nonempty fits =
      let len = text-length seg d text in
      let whole : min_size d.size c.tcp.rcv.wnd ≡ d.size = ground arith in
      let here : (seg.seq == c.tcp.rcv.nxt) ≡ true = ground arith in
      let more : ltb 0 d.size ≡ true = ground arith in rw (here, len, more, whole) refl

  -- Text that starts where the receive window does and fits into it is queued for the user byte
  -- for byte, behind what is queued, and `rcv.nxt` moves on by its size; the send variables stay.
  -- Memory is granted and the window fits 16 bits.
  pub tcp_handle_data-in_order :
      (c : Conn) (seg : Segment) (d : Node)
      → IsText seg d
      → seg.seq ≡ c.tcp.rcv.nxt
      → 0 < d.size
      → d.size ≤ c.tcp.rcv.wnd
      → c.tcp.rcv.wnd < 2 ^ 16
      → c.tcp.snd.nxt < 2 ^ 32
      → ((n : ℕ) → c.net.heap.grant n ≡ true)
      → ((tcp_handle_data lib c seg).1 ≡ true)
        × ((rx : Node) × ((tcp_handle_data lib c seg).0.tcp.rx_data ≡ c.tcp.rx_data ++ rx ∷ [])
            × (node_bytes rx ≡ take d.size d.bytes))
        × ((tcp_handle_data lib c seg).0.tcp.rcv
            ≡ record c.tcp.rcv { nxt = add32 c.tcp.rcv.nxt d.size })
        × ((tcp_handle_data lib c seg).0.tcp.snd ≡ c.tcp.snd)
  tcp_handle_data-in_order c seg d text start nonempty fits w16 b all =
      let (new, h) = dblk_node_new_with_buff d.size c.net.heap in
      let junk = c.net.heap.junk in
      let rx = filled (fresh junk d.size) d.bytes d.size in
      let bytes : node_bytes rx ≡ take d.size d.bytes =
        unfold dblk_node_init in
        filled-bytes (fresh junk d.size) d.bytes d.size refl (omega arith) text.3 in
      let step =
        handle_data-store c seg d text start nonempty fits
        ∙ ap (λ o. store lib c seg d.size (o, h)) (new_with_buff-granted d.size c.net.heap all)
        ∙ store-fresh c seg d junk h text.0 (omega arith) in
      let keeps = acknowledge-keeps (stored c rx d.size h) b in
      rw step
        (refl, (rx, keeps.0 ∙ lib.enqueue_at_end Node c.tcp.rx_data rx, bytes), keeps.1, keeps.2)
