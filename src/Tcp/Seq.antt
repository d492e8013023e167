-- ===== src/Tcp/Seq.antt =====
-- `sncmp`, the comparison of sequence numbers.
use dts_net.Base.{ℕ, ◌+◌, ◌-◌, ◌%◌, ◌^◌, ◌<◌, ◌≤◌, Bool, true, false, not, ◌&&◌, ◌≡◌, arith}
use dts_net.Base.{if◌then◌else◌, ltb, leb, ◌==◌}

-- `SN_LS` and `SN_LE`
pub data SnOp : Type 0 where
  ls le : SnOp

abbrev pub both_le : SnOp → SnOp → Bool
both_le le le = true
both_le _ _ = false

abbrev pub both_ls : SnOp → SnOp → Bool
both_ls ls ls = true
both_ls _ _ = false

-- `min < max`
abbrev pub sncmp_up : ℕ → SnOp → ℕ → SnOp → ℕ → Bool
sncmp_up min ls x ls max = ltb min x && ltb x max
sncmp_up min le x ls max = leb min x && ltb x max
sncmp_up min ls x le max = ltb min x && leb x max
sncmp_up min le x le max = leb min x && leb x max

-- `max < min`: the interval goes round 2 ^ 32
abbrev pub sncmp_round : ℕ → SnOp → ℕ → SnOp → ℕ → Bool
sncmp_round min ls x ls max = not (leb max x && leb x min)
sncmp_round min le x ls max = leb max x && ltb x min
sncmp_round min ls x le max = ltb max x && leb x min
sncmp_round min le x le max = ltb max x && ltb x min

unfoldable pub sncmp : ℕ → SnOp → ℕ → SnOp → ℕ → Bool
sncmp min op1 x op2 max =
    if min == max
    then (x == max) && both_le op1 op2
    else if ltb min max
    then sncmp_up min op1 x op2 max
    else sncmp_round min op1 x op2 max

-- The specification: distances from `min` on the circle of 2 ^ 32 numbers.
abbrev pub distance : ℕ → ℕ → ℕ
distance a b = (b + 2 ^ 32 - a) % 2 ^ 32

abbrev pub lower : SnOp → ℕ → Bool
lower ls d = ltb 0 d
lower le d = true

abbrev pub upper : SnOp → ℕ → ℕ → Bool
upper ls d e = ltb d e
upper le d e = leb d e

abbrev pub in_window : ℕ → SnOp → ℕ → SnOp → ℕ → Bool
in_window min op1 x op2 max =
    lower op1 (distance min x) && upper op2 (distance min x) (distance min max)

-- Where the window does not go round, `sncmp` decides membership in it, with either bound strict
-- or not.
pub sncmp-in_window :
    (op1 op2 : SnOp) (min x max : ℕ)
    → min ≤ max
    → x < 2 ^ 32
    → max < 2 ^ 32
    → sncmp min op1 x op2 max ≡ in_window min op1 x op2 max
unfolding sncmp
sncmp-in_window ls ls min x max h hx hm = ground arith
sncmp-in_window ls le min x max h hx hm = ground arith
sncmp-in_window le ls min x max h hx hm = ground arith
sncmp-in_window le le min x max h hx hm = ground arith

-- Where the window goes round 2 ^ 32 and a bound is not strict, `sncmp` answers the opposite of
-- membership, for every sequence number.
pub sncmp_round_opposite :
    (op1 op2 : SnOp) (min x max : ℕ)
    → both_ls op1 op2 ≡ false
    → max < min
    → x < 2 ^ 32
    → min < 2 ^ 32
    → sncmp min op1 x op2 max ≡ not (in_window min op1 x op2 max)
unfolding sncmp
sncmp_round_opposite ls ls min x max s h hx hm = ground arith
sncmp_round_opposite ls le min x max s h hx hm = ground arith
sncmp_round_opposite le ls min x max s h hx hm = ground arith
sncmp_round_opposite le le min x max s h hx hm = ground arith

-- With both bounds strict `sncmp` is right where the window goes round, too.
pub sncmp_round_strict :
    (min x max : ℕ)
    → max < min
    → x < 2 ^ 32
    → min < 2 ^ 32
    → sncmp min ls x ls max ≡ in_window min ls x ls max
unfolding sncmp
sncmp_round_strict min x max h hx hm = ground arith
