-- ===== src/EtherArp/Deliver.antt =====
-- The loop of `ip_ether_send` ends, and each block that it takes off the chain went in a frame.
use dts_net.Base.{Bool, ℕ, zero, suc, ◌+◌, ◌-◌, ◌*◌, ◌≡◌, ◌≤◌, ◌<◌, refl, arith, inl, inr}
use dts_net.Base.{true, false, some, [], ◌∷◌, ◌==◌, length, Bool-cases, length-append, dec_lt, ◌⊎◌}
use dts_net.Endian.{Buffer}
use dts_net.Dblk.{Chain, Heap, dblk_next, dblk_delete, free_if, malloc, free}
use dts_net.Dblk.AllocLaws.{dblk_delete-dblk_next}
use dts_net.Base.{ap, ◌∙◌, subst, if◌then◌else◌}
use dts_net.Ether.{EtherFrame, Wire, ether_hl_send, ether_type_ip}
use dts_net.Ip.{is_nil}
use dts_net.EtherArp.Defs.{Ether}
use dts_net.EtherArp.Send.{Sent, send_loop, send_to_mac, new_frame}

length-dblk_delete : (ds : Chain) (h : Heap) → length (dblk_delete ds h).0 ≤ length ds - 1
unfolding dblk_delete
length-dblk_delete [] h = omega arith
length-dblk_delete (d ∷ ds) h =
    ground (arith, length-dblk_delete ds (free_if d.node_malloc (free_if d.data_malloc h)))

-- The last `k` frames handed to the interface were refused.
abbrev pub IsRefused : Wire → ℕ → Type 0
IsRefused w k = (j : ℕ) → length w.frames ≤ j + k → j < length w.frames → w.accept j ≡ false

-- How many of the `k` answers from the `i`-th on are yes.
abbrev pub taken : (ℕ → Bool) → ℕ → ℕ → ℕ
taken accept i zero = 0
taken accept i (suc k) = let rest = taken accept (suc i) k in if accept i then suc rest else rest

-- The chain behind its first `n` blocks.
abbrev pub past_blocks : ℕ → Chain → Chain
past_blocks zero ds = ds
past_blocks (suc n) ds = past_blocks n (dblk_next ds)

-- From `wire` to `after`, `rounds` frames are handed to the interface, and what is left of the chain
-- `raw` is what lies behind as many blocks as it took frames.
pub record IsReckoned (wire : Wire) (raw left : Chain) (after : Wire) : Type 0 where
  pub rounds : ℕ
  pub handed : length after.frames ≡ length wire.frames + rounds
  pub answers : after.accept ≡ wire.accept
  pub remains : left ≡ past_blocks (taken wire.accept (length wire.frames) rounds) raw

nothing-IsReckoned : (wire : Wire) (raw : Chain) → IsReckoned wire raw raw wire
nothing-IsReckoned wire raw = record {
  rounds = 0;
  handed = omega arith;
  answers = refl;
  remains = refl;
}

module _ (mac : Buffer) (frame : EtherFrame) (wire : Wire) where
  abbrev after : Wire
  after = (ether_hl_send mac frame wire).1

  one_more : length after.frames ≡ length wire.frames + 1
  unfolding ether_hl_send
  one_more = length-append wire.frames _

  once_more-IsRefused :
      (k : ℕ)
      → (ether_hl_send mac frame wire).2 ≡ false
      → IsRefused wire k
      → IsRefused after (k + 1)
  unfolding ether_hl_send
  once_more-IsRefused k refusal before j from below = elim (dec_lt j (length wire.frames)) [
    | yes old ↦ before j (omega (arith, one_more)) old
    | no new ↦ (let last : j ≡ length wire.frames = omega (arith, one_more) in rw last refusal)
  ]

  -- One frame more, taken or refused.
  taken-IsReckoned :
      (raw left : Chain) (last : Wire)
      → (ether_hl_send mac frame wire).2 ≡ true
      → IsReckoned after (dblk_next raw) left last
      → IsReckoned wire raw left last
  unfolding ether_hl_send
  taken-IsReckoned raw left last yes_taken then_ =
      let next : length after.frames ≡ suc (length wire.frames) = omega (arith, one_more) in
      record {
        rounds = suc then_.rounds;
        handed = omega (arith, then_.handed, one_more);
        answers = then_.answers;
        remains =
            then_.remains
            ∙ (ap (λ i. past_blocks (taken wire.accept i then_.rounds) (dblk_next raw)) next
                ∙ rw yes_taken refl);
      }

  refused-IsReckoned :
      (raw left : Chain) (last : Wire)
      → (ether_hl_send mac frame wire).2 ≡ false
      → IsReckoned after raw left last
      → IsReckoned wire raw left last
  unfolding ether_hl_send
  refused-IsReckoned raw left last refusal then_ =
      let next : length after.frames ≡ suc (length wire.frames) = omega (arith, one_more) in
      record {
        rounds = suc then_.rounds;
        handed = omega (arith, then_.handed, one_more);
        answers = then_.answers;
        remains =
            then_.remains
            ∙ (ap (λ i. past_blocks (taken wire.accept i then_.rounds) raw) next ∙ rw refusal refl);
      }

is_nil-empty : (ds : Chain) → is_nil ds ≡ true → ds ≡ []
is_nil-empty [] e = refl
is_nil-empty (d ∷ ds) e = ground arith

is_nil-nonempty : (ds : Chain) → is_nil ds ≡ false → 0 < length ds
is_nil-nonempty [] e = ground arith
is_nil-nonempty (d ∷ ds) e = ground arith

-- The loop of `ip_ether_send` ends within four rounds for each node of the chain and one for each
-- retry left, with as many blocks taken off the chain as the interface took frames. When it does
-- either no block is left, or the interface refused the last three frames handed to it.
pub send_loop-ends :
    (fuel : ℕ) (eth : Ether) (frame : EtherFrame) (retry : ℕ) (heap : Heap) (wire : Wire)
    → retry ≤ 3
    → IsRefused wire (3 - retry)
    → length frame.payload * 4 + retry < fuel
    → (s : Sent) × (send_loop fuel eth frame retry heap wire ≡ some s)
      × IsReckoned wire frame.payload s.left s.wire
      × ((s.left ≡ []) ⊎ IsRefused s.wire 3)
unfolding send_loop
send_loop-ends zero eth frame retry heap wire l r enough = absurd (omega arith)
send_loop-ends (suc fuel) eth frame retry heap wire l r enough =
    let (f, w, taken) = ether_hl_send eth.mac_address frame wire in
    let (rest, h) = dblk_delete frame.payload heap in
    elim (Bool-cases (is_nil frame.payload)) [
      | inl done ↦ (
        record { left = frame.payload; heap = heap; wire = wire },
        rw done refl,
        nothing-IsReckoned wire frame.payload,
        inl (is_nil-empty frame.payload done),
      )
      | inr left ↦ elim (Bool-cases (retry == 0)) [
        | inl given_up ↦ (
          record { left = frame.payload; heap = heap; wire = wire },
          rw (left, given_up) refl,
          nothing-IsReckoned wire frame.payload,
          inr (λ j from below. r j (ground arith) below),
        )
        | inr tries ↦ elim (Bool-cases taken) [
          | inl yes_taken ↦
              (let (s, e, reckoned, fate) =
                  send_loop-ends fuel eth (record f { payload = rest }) 3 h w (omega arith)
                    (λ j from below. absurd (omega arith))
                    (ground (
                      arith,
                      length-dblk_delete frame.payload heap,
                      is_nil-nonempty frame.payload left,
                    )) in
                let next : rest ≡ dblk_next frame.payload =
                  (dblk_delete-dblk_next frame.payload heap).0 in
                (
                  s,
                  rw (left, tries, yes_taken) e,
                  taken-IsReckoned eth.mac_address frame wire frame.payload s.left s.wire yes_taken
                      (subst (λ ds. IsReckoned w ds s.left s.wire) next reckoned),
                  fate,
                ))
          | inr refusal ↦
              (let more = once_more-IsRefused eth.mac_address frame wire (3 - retry) refusal r in
                let (s, e, reckoned, fate) =
                  send_loop-ends fuel eth (record f { payload = frame.payload }) (retry - 1) heap w
                    (omega arith) (λ j from below. more j (ground arith) below) (ground arith) in
                (
                  s,
                  rw (left, tries, refusal) e,
                  refused-IsReckoned eth.mac_address frame wire frame.payload s.left s.wire refusal
                      reckoned,
                  fate,
                ))
        ]
      ]
    ]

-- Sending a chain to a hardware address ends. What is left of it is what lies behind as many blocks
-- as the interface took of the frames handed to it: a block that is refused stays. Either nothing is
-- left, or the interface refused the last three frames handed to it, or the result is 0 because
-- `malloc` gave no memory.
pub send_to_mac-ends :
    (eth : Ether) (dest : Buffer) (raw : Chain) (heap : Heap) (wire : Wire)
    → (r : Sent × Bool) × (send_to_mac eth dest raw heap wire ≡ some r)
      × IsReckoned wire raw r.0.left r.0.wire
      × ((r.0.left ≡ []) ⊎ (IsRefused r.0.wire 3 ⊎ (r.1 ≡ false)))
unfolding send_to_mac
send_to_mac-ends eth dest raw heap wire =
    let (s, e, reckoned, fate) =
      send_loop-ends (length raw * 4 + 4) eth (new_frame heap.junk 2048 dest ether_type_ip raw) 3
        (malloc heap).1 wire (omega arith) (λ j from below. absurd (omega arith)) (omega arith) in
    elim (Bool-cases (malloc heap).0) [
      | inl got ↦ (
        (record s { heap = free s.heap }, true),
        rw (e, got) refl,
        reckoned,
        (elim fate [ inl sent ↦ inl sent | inr worse ↦ inr (inl worse) ]),
      )
      | inr refused ↦ (
        (record { left = raw; heap = (malloc heap).1; wire = wire }, false),
        rw refused refl,
        nothing-IsReckoned wire raw,
        inr (inr refl),
      )
    ]
