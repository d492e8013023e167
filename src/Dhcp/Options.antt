-- ===== src/Dhcp/Options.antt =====
-- The search for an option. C reads past the end of the options where one is cut short; here the
-- bytes behind the end of the memory are 0.
use dts_net.Base.{ℕ, zero, suc, ◌+◌, ◌*◌, ◌^◌, Option, none, some, if◌then◌else◌, ltb, ◌==◌, not}
use dts_net.Endian.{Buffer, byte_at, lr32}
use dts_net.Dhcp.Defs.{DhcpMessage}
use dts_net.Inet.{ntohl}

-- `DHCP_OPT_MAGIC`, as the host reads the four bytes 99, 130, 83, 99.
abbrev pub magic : ℕ
magic = 99 + 130 * 2 ^ 8 + 83 * 2 ^ 16 + 99 * 2 ^ 24

-- The pointer behind a padding byte, and the one of the option after the one at `q`.
abbrev pub past_pad : Buffer → ℕ → ℕ
past_pad b p = if byte_at b p == 0 then p + 1 else p

abbrev pub past_option : Buffer → ℕ → ℕ
past_option b q = q + (2 + byte_at b (q + 1))

-- Where the loop, at `p`, finds the tag, in at most `fuel` rounds. The inner `none` is the end of
-- the options, the outer one is out of rounds.
unfoldable pub find_option : ℕ → Buffer → ℕ → ℕ → ℕ → Option (Option ℕ)
find_option zero b size tag p = none
find_option (suc fuel) b size tag p =
    let q = past_pad b p in
    let rest = find_option fuel b size tag (past_option b q) in
    if not (ltb p size)
    then some none
    else if byte_at b p == tag
    then some (some p)
    else if byte_at b q == 255
    then some none
    else rest

-- From the magic on; `size` rounds are enough.
unfoldable pub option_at : DhcpMessage → ℕ → Option (Option ℕ)
unfolding find_option
option_at msg tag =
    if lr32 msg.option 0 == magic
    then find_option (suc msg.option_size) msg.option msg.option_size tag 4
    else some none

-- `dhcp_option_message_type`; the inner `none` is -1.
unfoldable pub dhcp_option_message_type : DhcpMessage → Option (Option ℕ)
unfolding option_at
dhcp_option_message_type msg = elim (option_at msg 53) [
  | none ↦ none
  | some none ↦ some none
  | some (some p) ↦ some (some (byte_at msg.option (p + 2)))
]

unfoldable pub dhcp_option_long : DhcpMessage → ℕ → Option (Option ℕ)
unfolding option_at
dhcp_option_long msg code = elim (option_at msg code) [
  | none ↦ none
  | some none ↦ some none
  | some (some p) ↦ some (some (ntohl (lr32 msg.option (p + 2))))
]

unfoldable pub dhcp_option_ip_lease_time : DhcpMessage → Option (Option ℕ)
unfolding dhcp_option_long
dhcp_option_ip_lease_time msg = dhcp_option_long msg 51

unfoldable pub dhcp_option_server_identifier : DhcpMessage → Option (Option ℕ)
unfolding dhcp_option_long
dhcp_option_server_identifier msg = dhcp_option_long msg 54
