-- ===== src/Dhcp/Defs.antt =====
-- `dhcp_message_t` with its bytes. The host stores numbers with the low byte first; a pointer to text
-- or options is what lies behind it.
use dts_net.Base.{ℕ, ◌+◌, ◌-◌, ◌%◌, ◌^◌, Bool, true, false, if◌then◌else◌, ltb}
use dts_net.Base.{set, drop, replicate, []}
use dts_net.Endian.{Buffer, byte_at, lr16, lr32, lw16, lw32}
use dts_net.Bytes.{copy_at, slice}
use dts_net.Inet.{htonl, htons, ntohl}

pub record DhcpMessage : Type 0 where
  pub op : ℕ
  pub htype : ℕ
  pub hlen : ℕ
  pub hops : ℕ
  pub xid : ℕ
  pub secs : ℕ
  pub flags : ℕ
  pub ciaddr : ℕ
  pub yiaddr : ℕ
  pub siaddr : ℕ
  pub giaddr : ℕ
  pub chaddr : Buffer
  pub sname : Buffer
  pub file : Buffer
  pub option : Buffer
  pub option_size : ℕ
  pub raw_data : Buffer
  pub raw_data_size : ℕ

-- The numbers before the text.
unfoldable pub write_numbers : DhcpMessage → Buffer → Buffer
write_numbers msg b =
    let b = set (set (set (set b 0 msg.op) 1 msg.htype) 2 msg.hlen) 3 msg.hops in
    let b = (lw32 (htonl msg.xid) b 4).0 in
    let b = (lw16 (htons msg.flags) (lw16 (htons msg.secs) b 8).0 10).0 in
    let b = (lw32 (htonl msg.yiaddr) (lw32 (htonl msg.ciaddr) b 12).0 16).0 in
    (lw32 (htonl msg.giaddr) (lw32 (htonl msg.siaddr) b 20).0 24).0

-- The text and the options.
unfoldable pub write_text : DhcpMessage → Buffer → Buffer
write_text msg b =
    let b = copy_at (copy_at (copy_at b 28 msg.chaddr 16) 44 msg.sname 64) 108 msg.file 128 in
    copy_at b 236 msg.option msg.option_size

-- `option_size` and `raw_data_size` are `size_t`.
unfoldable pub dhcp_message_pack : DhcpMessage → DhcpMessage × Bool
unfolding write_numbers write_text
dhcp_message_pack msg =
    if ltb msg.raw_data_size ((236 + msg.option_size) % 2 ^ 64) then (msg, false) else (
      record msg {
        raw_data = write_text msg (write_numbers msg msg.raw_data);
        raw_data_size = 236 + msg.option_size;
      },
      true,
    )

-- The numbers as they are read; `secs` and `flags` are what `ntohl` makes of 16 bits, cut to 16.
unfoldable pub read_numbers : DhcpMessage → DhcpMessage
read_numbers msg =
    let b = msg.raw_data in
    record msg {
      op = byte_at b 0;
      htype = byte_at b 1;
      hlen = byte_at b 2;
      hops = byte_at b 3;
      xid = ntohl (lr32 b 4);
      secs = ntohl (lr16 b 8) % 2 ^ 16;
      flags = ntohl (lr16 b 10) % 2 ^ 16;
      ciaddr = ntohl (lr32 b 12);
      yiaddr = ntohl (lr32 b 16);
      siaddr = ntohl (lr32 b 20);
      giaddr = ntohl (lr32 b 24);
    }

unfoldable pub dhcp_message_unpack : DhcpMessage → DhcpMessage × Bool
unfolding read_numbers
dhcp_message_unpack msg =
    let b = msg.raw_data in
    if ltb msg.raw_data_size 241 then (msg, false) else (
      record (read_numbers msg) {
        chaddr = slice b 28 16;
        sname = slice b 44 64;
        file = slice b 108 128;
        option = drop 236 b;
        option_size = msg.raw_data_size - 236;
      },
      true,
    )

-- `dhcp_message_init`
unfoldable pub dhcp_message_init : DhcpMessage
dhcp_message_init = record {
  op = 0;
  htype = 0;
  hlen = 0;
  hops = 0;
  xid = 0;
  secs = 0;
  flags = 0;
  ciaddr = 0;
  yiaddr = 0;
  siaddr = 0;
  giaddr = 0;
  chaddr = replicate 16 0;
  sname = replicate 64 0;
  file = replicate 128 0;
  option = [];
  option_size = 0;
  raw_data = [];
  raw_data_size = 0;
}
