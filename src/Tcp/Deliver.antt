-- ===== src/Tcp/Deliver.antt =====
-- A segment that arrives at a connection with no other queued goes straight to the handler of its
-- state.
use dts_net.Base.{◌≡◌, true, some, []}
use dts_net.Tcp.Defs.{ListLib, Segment, Conn}
use dts_net.Tcp.Events.{handle, has_handler, deliver, tcp_received}

module _ (lib : ListLib) where
  -- The queue gives back the segment that was put into it when it was empty.
  dequeue-enqueue :
      (seg : Segment) → lib.list_dequeue Segment (lib.list_enqueue Segment [] seg) ≡ (some seg, [])
  dequeue-enqueue seg = rw (lib.enqueue_at_end Segment [] seg) (lib.dequeue_front Segment seg [])

  pub deliver-handle :
      (c : Conn) (seg : Segment)
      → c.tcp.rx_segs ≡ []
      → has_handler c.tcp.state ≡ true
      → deliver lib c seg ≡ handle lib c.tcp.state c (some seg)
  unfolding deliver tcp_received
  deliver-handle c seg empty handler = rw (empty, dequeue-enqueue seg, handler)
