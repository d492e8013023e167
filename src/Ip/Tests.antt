-- ===== src/Ip/Tests.antt =====
-- Two fragments of 1400 bytes and the rest, whose offsets count the headers; a header there and back.
use dts_net.Base.{ℕ, ◌≡◌, refl, arith, true, [], ◌∷◌, replicate}
use dts_net.Dblk.{Node, Chain, dblk_node_init, dblk_size, dblk_node_size}
use dts_net.Ip.Addr.{IpAddr}
use dts_net.Ip.Header.{IpHeader}
use dts_net.Base.{◌++◌, ◌+◌, take}
use dts_net.Endian.{Buffer}
use dts_net.Ip.Header.{ip_header_pack, ip_header_unpack}
use dts_net.Ip.RoundTrip.{Quad, plain_header, IsReadBack, ip_header_unpack-ip_header_pack}
use dts_net.Ip.Send.{Lower, send_fragments}
use dts_net.Ip.Fragments.{offsets, send_fragments-offsets}

abbrev addr : IpAddr
addr = record { version = 4; v4 = 10 ∷ 0 ∷ 0 ∷ 7 ∷ []; netmask = 255 ∷ 0 ∷ 0 ∷ 0 ∷ [] }

abbrev header : IpHeader
header = record {
  version = 4;
  ihl = 5;
  type_of_service = 0;
  total_length = 0;
  identification = 1;
  flags = 0;
  fragment_offset = 0;
  time_to_live = 128;
  protocol = 17;
  checksum_field = 0;
  src = addr;
  dest = addr;
  options = [];
  option_size = 0;
}

-- A node of `size` bytes; only its size matters here.
abbrev piece : ℕ → Node
piece size = dblk_node_init [] size

abbrev three_pieces : Chain
three_pieces = piece 1400 ∷ piece 1400 ∷ piece 200 ∷ []

abbrev low : Lower
low = record { datagrams = []; accept = λ n. true; ident = 0; junk = 0 }

abbrev raw : Node
raw = dblk_node_init (replicate 64 0) 64

-- 1400 bytes are 175 units of eight, and 2800 are 350.
send_fragments-offsets_example :
    (offsets (send_fragments header raw three_pieces low).0 ≡ 0 ∷ 177 ∷ 354 ∷ [])
    × ((send_fragments header raw three_pieces low).1 ≡ true)
unfolding dblk_size dblk_node_size dblk_node_init
send_fragments-offsets_example =
    send_fragments-offsets three_pieces header raw low refl (omega arith) (λ n. refl)

abbrev here : Quad
here = record { a = 10; b = 0; c = 0; d = 1 }

abbrev there : Quad
there = record { a = 10; b = 0; c = 0; d = 9 }

abbrev sent : IpHeader × Buffer × ℕ
sent = ip_header_pack (plain_header header here there) (replicate 64 0xcc) 64

-- The header with three bytes behind it.
ip_header_unpack-ip_header_pack_example :
    let (got, valid) =
      ip_header_unpack header (take sent.2 sent.1 ++ (1 ∷ 2 ∷ 3 ∷ [])) (sent.2 + 3) in
    (sent.2 ≡ 20) × (valid ≡ true) × IsReadBack header got here there sent.0.checksum_field
ip_header_unpack-ip_header_pack_example =
    ip_header_unpack-ip_header_pack header here there (replicate 64 0xcc) (1 ∷ 2 ∷ 3 ∷ []) 64 3
      header (omega arith) (omega arith) (omega arith) (omega arith)
