-- ===== src/Dhcp/Search.antt =====
-- The search for an option ends, and what it finds is there.
use dts_net.Base.{ℕ, zero, suc, ◌+◌, ◌-◌, ◌≡◌, ◌≤◌, ◌<◌, arith, Option, none, some, inl, inr}
use dts_net.Base.{ltb, ◌==◌, Bool-cases}
use dts_net.Endian.{Buffer, byte_at, lr32}
use dts_net.Dhcp.Defs.{DhcpMessage}
use dts_net.Dhcp.Options.{find_option, option_at, past_pad, past_option, magic}

-- An answer to the search for `tag`: there is none, or the tag stands at its place before the end.
pub data IsAnswer (b : Buffer) (size tag : ℕ) : Option ℕ → Type 0 where
  nowhere : IsAnswer b size tag none
  there : {p : ℕ} → p < size → byte_at b p ≡ tag → IsAnswer b size tag (some p)

past-moves : (b : Buffer) (p : ℕ) → p + 2 ≤ past_option b (past_pad b p)
past-moves b p = ground arith

find_option-ends :
    (fuel : ℕ) (b : Buffer) (size tag p : ℕ)
    → size - p < fuel
    → (r : Option ℕ) × (find_option fuel b size tag p ≡ some r) × IsAnswer b size tag r
unfolding find_option
find_option-ends zero b size tag p h = absurd (omega arith)
find_option-ends (suc fuel) b size tag p h = elim (Bool-cases (ltb p size)) [
  | inr out ↦ (none, ground arith, nowhere)
  | inl within ↦ elim (Bool-cases (byte_at b p == tag)) [
    | inl found ↦ (some p, ground arith, there (ground arith) (ground arith))
    | inr other ↦ elim (Bool-cases (byte_at b (past_pad b p) == 255)) [
      | inl end ↦ (none, ground arith, nowhere)
      | inr onward ↦
          (let (r, e, answer) =
              find_option-ends fuel b size tag (past_option b (past_pad b p))
                (ground (arith, past-moves b p)) in
            (r, ground (arith, e), answer))
    ]
  ]
]

-- The search for an option ends for every message. What it answers is that there is none, or a
-- place before the end of the options where the tag stands.
pub option_at-ends :
    (msg : DhcpMessage) (tag : ℕ)
    → (r : Option ℕ) × (option_at msg tag ≡ some r) × IsAnswer msg.option msg.option_size tag r
unfolding option_at
option_at-ends msg tag = elim (Bool-cases (lr32 msg.option 0 == magic)) [
  | inl right ↦
      (let (r, e, answer) =
          find_option-ends (suc msg.option_size) msg.option msg.option_size tag 4 (omega arith) in
        (r, ground (arith, e), answer))
  | inr wrong ↦ (none, ground arith, nowhere)
]
