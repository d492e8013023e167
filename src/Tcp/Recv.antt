-- ===== src/Tcp/Recv.antt =====
-- The loop of `tcp_recv` and its rounds.
use dts_net.Base.{ℕ, zero, suc, ◌+◌, ◌-◌, ◌≡◌, ◌≤◌, ◌<◌, refl, arith, true, false, some}
use dts_net.Base.{List, [], ◌∷◌, ltb, length, Bool-cases, inl, inr, ◌∙◌, ◌⊎◌}
use dts_net.Endian.{Buffer}
use dts_net.Dblk.{Node, Heap, dblk_read, dblk_delete}
use dts_net.Tcp.Defs.{ListLib}
use dts_net.Tcp.Events.{Received, recv_loop, recv_round, head_of}

module _ (lib : ListLib) where
  -- Enough bytes end the loop.
  recv_stops :
      (f : ℕ) (q : List Node) (h : Heap) (mem : Buffer) (size done : ℕ)
      → size ≤ done
      → recv_loop lib (suc f) q h mem size done ≡ some (q, h, mem, done)
  unfolding recv_loop
  recv_stops f q h mem size done b = ground arith

  pub empty_stops :
      (f : ℕ) (h : Heap) (mem : Buffer) (size done : ℕ)
      → recv_loop lib (suc f) [] h mem size done ≡ some ([], h, mem, done)
  unfolding recv_loop
  empty_stops f h mem size done =
      let e : ltb 0 (lib.list_length Node []) ≡ false =
        rw (lib.length_counts Node []) (ground arith) in
      rw e refl

  -- A round on a queue with a block, with what it goes on with left open.
  module _ (f : ℕ) (rx : Node) (q : List Node) (h : Heap) (mem : Buffer) (size done : ℕ) where
    pub recv_round_step :
        done < size
        → recv_loop lib (suc f) (rx ∷ q) h mem size done
          ≡ recv_round lib
              (λ q1 h1 m1 d1. recv_loop lib f q1 h1 m1 size d1)
              (some rx, q)
              h
              mem
              size
              done
    unfolding recv_loop
    recv_round_step b =
        let e : ltb 0 (lib.list_length Node (rx ∷ q)) ≡ true =
          rw (lib.length_counts Node (rx ∷ q)) (ground arith) in
        let s : ltb done size ≡ true = ground arith in rw (e, s, lib.dequeue_front Node rx q) refl

  -- With more rounds than blocks are queued the loop of `tcp_recv` ends, whatever has been read
  -- before: then the queue is empty, or at least as many bytes are done as the user asked for.
  pub recv_loop-ends :
      (q : List Node) (f : ℕ) (h : Heap) (mem : Buffer) (size done : ℕ)
      → length q < f
      → (r : Received) × (recv_loop lib f q h mem size done ≡ some r) × ((r.0 ≡ []) ⊎ (size ≤ r.3))
  unfolding recv_round
  recv_loop-ends q zero h mem size done b = absurd (omega arith)
  recv_loop-ends [] (suc f) h mem size done b =
      (([], h, mem, done), empty_stops f h mem size done, inl refl)
  recv_loop-ends (rx ∷ q) (suc zero) h mem size done b = absurd (omega arith)
  recv_loop-ends (rx ∷ q) (suc (suc f)) h mem size done b = elim (Bool-cases (ltb done size)) [
    | inr full ↦ (
      (rx ∷ q, h, mem, done),
      recv_stops (suc f) (rx ∷ q) h mem size done (ground arith),
      inr (ground arith),
    )
    | inl more ↦
        (let (read, mem1, n) = dblk_read (rx ∷ []) mem (size - done) in
          let h1 = (dblk_delete read h).1 in
          let step = recv_round_step (suc f) rx q h mem size done (ground arith) in
          elim (Bool-cases (ltb n (size - done))) [
            | inl short ↦
                (let (r, e, end) = recv_loop-ends q (suc f) h1 mem1 size (done + n) (omega arith) in
                  (r, step ∙ (rw short e), end))
            | inr enough ↦
                (let over : size ≤ done + n = ground arith in
                  (
                    (head_of lib read q, h, mem1, done + n),
                    step
                        ∙ (rw enough
                            (recv_stops f (head_of lib read q) h mem1 size (done + n) over)),
                    inr over,
                  ))
          ])
  ]
