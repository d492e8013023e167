-- ===== src/Socket/Datagram.antt =====
-- A datagram on its way through a socket: `udp_recv` queues it, `recvfrom` gives it to the user.
use dts_net.Base.{
  ℕ, ◌+◌, ◌-◌, ◌%◌, ◌^◌, ◌≡◌, ◌≤◌, ◌<◌, refl, arith, true, false, bit_and, [], ◌∷◌, some,
}
use dts_net.Base.{ltb, ◌==◌, take, drop, replicate, length, length-append, length-take, ◌∙◌, ap}
use dts_net.Endian.{Buffer}
use dts_net.Dblk.{Node, Heap, memcpy, dblk_node_init, dblk_read, dblk_delete, node_room}
use dts_net.Dblk.AllocLaws.{fresh, new_with_buff-granted}
use dts_net.Dblk.RoundTrip.{copy_from-single, memcpy-front}
use dts_net.Tcp.{ListLib, enqueue_block, recv_loop, recv_round}
use dts_net.Tcp.Recv.{empty_stops, recv_round_step}
use dts_net.Socket.Defs.{Sockets, Answer, value, udp_recv, put, recvfrom_udp}

-- A node that nothing was read from yet.
abbrev whole : Buffer → ℕ → Node
whole bytes size = record {
  bytes = bytes;
  size = size;
  data_malloc = true;
  node_malloc = true;
  more = false;
  vsize = 0;
  vmem = [];
  offset = 0;
}

room-whole :
    (bytes : Buffer) (size len : ℕ)
    → size < len
    → size < 2 ^ 16
    → node_room (whole bytes size) len ≡ size
unfolding node_room
room-whole bytes size len short small = ground arith

read-whole :
    (bytes buf : Buffer) (size len : ℕ)
    → size < len
    → size < 2 ^ 16
    → dblk_read (whole bytes size ∷ []) buf len
      ≡ (record (whole bytes size) { offset = 0 + size } ∷ [], memcpy buf bytes size, 0 + size)
unfolding dblk_read
read-whole bytes buf size len short small =
    let some_room : ltb 0 len ≡ true = ground arith in
    rw (room-whole bytes size len short small, some_room) refl

module _ (lib : ListLib) where
  -- A round that takes a whole node off a queue of one.
  one_round :
      (bytes : Buffer) (size : ℕ) (h : Heap) (buf : Buffer) (len : ℕ)
      → size < len
      → size < 2 ^ 16
      → (h1 : Heap) × (recv_loop lib 2 (whole bytes size ∷ []) h buf len 0
          ≡ some ([], h1, memcpy buf bytes size, size))
  one_round bytes size h buf len short small =
      let rx = whole bytes size in
      let e : len - 0 ≡ len = omega arith in
      let h1 = (dblk_delete (record rx { offset = 0 + size } ∷ []) h).1 in
      let done : 0 + (0 + size) ≡ size = omega arith in
      let short_read : ltb (0 + size) len ≡ true = ground arith in
      (
        h1,
        recv_round_step lib 1 rx [] h buf len 0 (omega arith)
            ∙ unfold recv_round in
              rw (e, read-whole bytes buf size len short small, short_read)
                (empty_stops lib 0 h1 (memcpy buf bytes size) len (0 + (0 + size))
                  ∙ ap (λ n. some ([], h1, memcpy buf bytes size, n)) done),
      )

  queued :
      (fd : ℕ) (bytes : Buffer) (size : ℕ) (ss : Sockets) (heap : Heap)
      → ((n : ℕ) → heap.grant n ≡ true)
      → (ss.item fd).rx_queue ≡ []
      → size < 2 ^ 16
      → ((udp_recv lib fd bytes size ss heap).0.item fd).rx_queue
        ≡ whole (memcpy (replicate size heap.junk) bytes size) size ∷ []
  unfolding udp_recv enqueue_block put dblk_node_init
  queued fd bytes size ss heap all empty small =
      let e : size % 2 ^ 16 ≡ size = omega arith in
      let same : fd == fd ≡ true = ground arith in
      rw
        (
          new_with_buff-granted size heap all,
          copy_from-single (fresh heap.junk size) bytes size (omega arith),
          same,
          empty,
          lib.enqueue_at_end,
        )
        (rw e refl)

  -- What `recvfrom` gives of a queue with one whole node.
  recvfrom-whole :
      (fd : ℕ) (bytes : Buffer) (size : ℕ) (ss : Sockets) (h : Heap) (buf : Buffer) (len flags : ℕ)
      → (ss.item fd).rx_queue ≡ whole bytes size ∷ []
      → size < len
      → size < 2 ^ 16
      → bit_and flags 0x40 == 0 ≡ false
      → (r : Sockets × Heap × Buffer × Answer) × (recvfrom_udp lib fd buf len flags ss h ≡ some r)
        × (r.3 ≡ value size)
        × (r.2 ≡ memcpy buf bytes size)
        × ((r.0.item fd).rx_queue ≡ [])
  unfolding recvfrom_udp put
  recvfrom-whole fd bytes size ss h buf len flags queue short small waits_not =
      let (h1, round) = one_round bytes size h buf len short small in
      let same : fd == fd ≡ true = ground arith in
      let one : lib.list_length Node (whole bytes size ∷ []) ≡ 1 =
        lib.length_counts Node (whole bytes size ∷ []) in
      (
        (put ss fd (record (ss.item fd) { rx_queue = [] }), h1, memcpy buf bytes size, value size),
        rw (queue, one, round, waits_not) refl,
        refl,
        refl,
        rw same refl,
      )

  -- A datagram of `size` bytes that reaches a socket with an empty queue, where memory is granted, is
  -- what the next `recvfrom` gives: it returns `size`, the bytes are those of the datagram, and the
  -- queue is empty again. The user's length exceeds the datagram, and the call does not wait.
  pub recvfrom_udp-udp_recv :
      (fd : ℕ) (bytes : Buffer) (size : ℕ) (ss : Sockets) (heap : Heap) (buf : Buffer)
      (len flags : ℕ)
      → ((n : ℕ) → heap.grant n ≡ true)
      → (ss.item fd).rx_queue ≡ []
      → size ≤ length bytes
      → size < 2 ^ 16
      → size < len
      → bit_and flags 0x40 == 0 ≡ false
      → let (ss1, h1) = udp_recv lib fd bytes size ss heap in
        (r : Sockets × Heap × Buffer × Answer) × (recvfrom_udp lib fd buf len flags ss1 h1 ≡ some r)
        × (r.3 ≡ value size)
        × (take size r.2 ≡ take size bytes)
        × ((r.0.item fd).rx_queue ≡ [])
  recvfrom_udp-udp_recv fd bytes size ss heap buf len flags all empty there small short waits_not =
      let (ss1, h1) = udp_recv lib fd bytes size ss heap in
      let copy = memcpy (replicate size heap.junk) bytes size in
      let (r, received, n, mem, left) =
        recvfrom-whole fd copy size ss1 h1 buf len flags
          (queued fd bytes size ss heap all empty small) short small waits_not in
      let held : size ≤ length copy = omega (
        arith,
        length-append (take size bytes) (drop size (replicate size heap.junk)),
        length-take size bytes,
      ) in
      (
        r,
        received,
        n,
        ap (take size) mem
            ∙ (memcpy-front buf copy size held
                ∙ memcpy-front (replicate size heap.junk) bytes size there),
        left,
      )
