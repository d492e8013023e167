-- ===== src/Dhcp/Tests.antt =====
-- The DHCP client on concrete messages and a concrete world.
use dts_net.Base.{
  ℕ, ◌≡◌, ◌≢◌, refl, arith, Bool, true, false, Option, none, some, [], ◌∷◌, ◌++◌, replicate,
}
use dts_net.Endian.{Buffer, lr32}
use dts_net.Dhcp.Defs.{DhcpMessage, dhcp_message_init, dhcp_message_pack, dhcp_message_unpack}
use dts_net.Inet.{htonl, htons}
use dts_net.Dhcp.Options.{dhcp_option_message_type, dhcp_option_server_identifier, option_at}
use dts_net.Dhcp.World.{
  DhcpState, init, selecting, bound, Timer, stopped, started, DhcpClient, World, is_live,
}
use dts_net.Dhcp.Client.{receive_and_free, listen_once}
use dts_net.Dhcp.Client.{dhcp_client_start, dhcp_client_timeout, dhcp_client_received}
use dts_net.Dhcp.Search.{IsAnswer, option_at-ends}
use dts_net.Dhcp.Idle.{idle_rounds, idle_rounds-never_again}
use dts_net.Dhcp.Blocks.{listen_once-balanced, receive_and_free-twice}
use dts_net.Dhcp.Numbers.{AreNarrow}
use dts_net.Dhcp.RoundTrip.{IsComplete, arrived, read_of, dhcp_message_unpack-dhcp_message_pack}
use dts_net.Dhcp.Diagram.{dhcp_events-arrows, start_target, timeout_arrow, message_arrow}

-- The magic, a message type, the server's identifier and the end.
abbrev options : ℕ → Buffer
options kind = 99 ∷ 130 ∷ 83 ∷ 99 ∷ 53 ∷ 1 ∷ kind ∷ 54 ∷ 4 ∷ 10 ∷ 0 ∷ 0 ∷ 1 ∷ 255 ∷ []

-- A reply of 250 bytes.
abbrev reply : ℕ → Buffer
reply kind = 2 ∷ 1 ∷ 6 ∷ 0 ∷ replicate 232 0 ++ options kind

abbrev message : Buffer → ℕ → DhcpMessage
message bytes size = record dhcp_message_init { raw_data = bytes; raw_data_size = size }

abbrev client : DhcpState → DhcpMessage → DhcpClient
client state msg = record {
  state = state;
  rx_sk = 3;
  tx_sk = 4;
  udp_setup = true;
  msg = msg;
  raw = some 0;
  ethaddr = 2 ∷ 0 ∷ 0 ∷ 0 ∷ 0 ∷ 7 ∷ [];
  t1 = started 0 3;
  t2 = stopped;
  start_time = 0;
  lease = 0;
}

-- Every timer that runs has expired.
abbrev runs : ℕ → Timer → Bool
runs now stopped = false
runs now (started since secs) = true

abbrev world : World
world = record {
  now = 9;
  expired = runs;
  grant = λ n. true;
  asked = 1;
  live = 0 ∷ [];
  twice = [];
  junk = 0;
  random = λ n. 77;
  rolls = 0;
  answer = λ n. 250;
  sent = [];
  ips = [];
}

htonl_swaps : htonl 0x01020304 ≡ 0x04030201
unfolding htonl
htonl_swaps = refl

htons_swaps : htons 0x0102 ≡ 0x0201
unfolding htons
htons_swaps = refl

abbrev offer_message : DhcpMessage
offer_message = message (reply 2) 250

abbrev opened : DhcpMessage
opened = (dhcp_message_unpack offer_message).0

offer_type : dhcp_option_message_type opened ≡ some (some 2)
unfolding dhcp_option_message_type dhcp_message_unpack dhcp_message_init lr32
offer_type = refl

offer_server : dhcp_option_server_identifier opened ≡ some (some 0x0a000001)
unfolding dhcp_option_server_identifier dhcp_message_unpack dhcp_message_init htonl lr32
offer_server = refl

-- The padding in front of the message type hides it, since the option behind it is skipped.
padded_type :
    dhcp_option_message_type (record dhcp_message_init {
      option = 99 ∷ 130 ∷ 83 ∷ 99 ∷ 0 ∷ 53 ∷ 1 ∷ 2 ∷ 255 ∷ [];
      option_size = 9;
    })
    ≡ some none
unfolding dhcp_option_message_type dhcp_message_init lr32
padded_type = refl

option_at-ends_example :
    (r : Option ℕ) × (option_at opened 54 ≡ some r) × IsAnswer opened.option opened.option_size 54 r
option_at-ends_example = option_at-ends opened 54

idle_rounds-never_again_example :
    ((idle_rounds (10 ∷ 20 ∷ []) (client selecting offer_message) world).0.state ≡ selecting)
    × ((idle_rounds (10 ∷ 20 ∷ []) (client selecting offer_message) world).1.sent ≡ [])
idle_rounds-never_again_example =
    idle_rounds-never_again (10 ∷ 20 ∷ []) (client selecting offer_message) world refl

bound-selecting : bound ≢ selecting
bound-selecting = ground arith

listen_once-balanced_example :
    ((listen_once (reply 5) 250 (client bound offer_message) world).1.live ≡ 0 ∷ [])
    × ((listen_once (reply 5) 250 (client bound offer_message) world).1.twice ≡ [])
listen_once-balanced_example =
    listen_once-balanced (reply 5) 250 (client bound offer_message) world bound-selecting

receive_and_free-twice_example :
    ((receive_and_free 250 (client selecting offer_message) world).1.live ≡ 0 ∷ [])
    × ((receive_and_free 250 (client selecting offer_message) world).1.twice ≡ 1 ∷ [])
unfolding dhcp_message_unpack dhcp_message_init dhcp_option_server_identifier
    dhcp_option_message_type is_live lr32
receive_and_free-twice_example =
    receive_and_free-twice (client selecting offer_message) world opened (htonl 0x0100000a) refl
      refl refl refl refl 250 (omega arith) refl

dhcp_events-arrows_example :
    ((dhcp_client_start (client init offer_message) world).0.state ≡ start_target init)
    × (timeout_arrow init (dhcp_client_timeout (client init offer_message) world).0.state ≡ true)
    × (message_arrow init (dhcp_client_received (client init offer_message) world).0.state ≡ true)
dhcp_events-arrows_example = dhcp_events-arrows (client init offer_message) world refl

-- A discover message of 250 bytes, in memory for 260.
abbrev discover : DhcpMessage
discover = record {
  op = 1;
  htype = 1;
  hlen = 6;
  hops = 0;
  xid = 0x1234_5678;
  secs = 5;
  flags = 0x8000;
  ciaddr = 0;
  yiaddr = 0x0a00_0001;
  siaddr = 0;
  giaddr = 0xffff_ffff;
  chaddr = 2 ∷ 0 ∷ 0 ∷ 0 ∷ 0 ∷ 7 ∷ replicate 10 0;
  sname = replicate 64 0;
  file = replicate 128 0;
  option = options 1;
  option_size = 14;
  raw_data = replicate 260 7;
  raw_data_size = 260;
}

discover-AreNarrow : AreNarrow discover
discover-AreNarrow = record {
  xid_fits = omega arith;
  ciaddr_fits = omega arith;
  yiaddr_fits = omega arith;
  siaddr_fits = omega arith;
  giaddr_fits = omega arith;
}

discover-IsComplete : IsComplete discover
discover-IsComplete = record {
  chaddr_size = refl;
  sname_size = refl;
  file_size = refl;
  some_options = omega arith;
  options_there = omega arith;
  room = omega arith;
  size_fits = omega arith;
  memory = omega arith;
}

dhcp_message_unpack-dhcp_message_pack_example :
    let (sent, packed) = dhcp_message_pack discover in
    (packed ≡ true)
    × (dhcp_message_unpack (arrived sent dhcp_message_init)
        ≡ (read_of discover dhcp_message_init, true))
dhcp_message_unpack-dhcp_message_pack_example =
    dhcp_message_unpack-dhcp_message_pack discover dhcp_message_init discover-AreNarrow
      discover-IsComplete
