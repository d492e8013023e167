-- ===== src/Socket/Reuse.antt =====
-- What `close` leaves in the item, and who gets it next.
use dts_net.Base.{ℕ, ◌≡◌, refl, ap, arith, true, []}
use dts_net.Mem.{list_alloc, list_free}
use dts_net.Tcp.{ListLib}
use dts_net.Socket.Defs.{Socket, Sockets, value, put, socket}
use dts_net.Socket.Stream.{Streams, close}
use dts_net.Socket.Accept.{item-put_self}

module _ (lib : ListLib) where
  -- The sockets after a close: the item is untouched, and stands last in the pool.
  sockets-close :
      (w : Streams) (fd : ℕ)
      → (close lib w fd).0.sockets ≡ record w.sockets { pool = list_free w.sockets.pool fd }
  unfolding close
  sockets-close w fd = ground arith

  -- Where the pool is empty and was filled before, the next TCP socket after a `close` is the one that
  -- was closed, and it still points to the connection of the closed one.
  pub socket-close :
      (w : Streams) (fd : ℕ)
      → w.sockets.inited ≡ true
      → w.sockets.pool ≡ []
      → let (ss, a) = socket 2 1 0 (close lib w fd).0.sockets in
        (a ≡ value fd) × ((ss.item fd).tcp ≡ (w.sockets.item fd).tcp)
  unfolding socket list_alloc list_free
  socket-close w fd inited empty =
      let old : Sockets = record w.sockets { pool = list_free w.sockets.pool fd } in
      let sk : Socket = record (w.sockets.item fd) { domain = 2; kind = 1; protocol = 0 } in
      let next : socket 2 1 0 old
          ≡ (put (record w.sockets { pool = []; inited = true }) fd sk, value fd) =
        rw (inited, empty) refl in
      rw (sockets-close w fd, next) (refl, ap (λ s. s.tcp) (item-put_self _ fd sk))
