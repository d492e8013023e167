-- ===== src/Dhcp/Client.antt =====
-- The client: setting up, sending, and the events start, timeout and received in `dhcp_loop`.
use dts_net.Base.{ℕ, suc, ◌+◌, ◌-◌, ◌*◌, ◌/◌, ◌%◌, ◌^◌, Bool, true, false, Option, none, some}
use dts_net.Base.{[], ◌∷◌, ◌++◌, if◌then◌else◌, ltb, ◌==◌, replicate, length}
use dts_net.Endian.{Buffer, lw32}
use dts_net.Bytes.{copy_at}
use dts_net.Dhcp.Defs.{DhcpMessage, dhcp_message_init, dhcp_message_unpack}
use dts_net.Inet.{htonl}
use dts_net.Dhcp.Options.{
  dhcp_option_message_type, dhcp_option_ip_lease_time, dhcp_option_server_identifier,
}
use dts_net.Dhcp.World.{init, selecting, requesting, bound, renewing, rebinding}
use dts_net.Dhcp.World.{stopped, started, DhcpClient, World, take_block, release, transmit}

-- `dhcp_client_setup`: the two sockets and whether `bind` took the port are inputs.
unfoldable pub dhcp_client_setup : ℕ → ℕ → Bool → Buffer → DhcpClient → World → DhcpClient × Bool
dhcp_client_setup rx_sk tx_sk taken eth c w =
    if taken
    then (
      record c {
        rx_sk = rx_sk;
        tx_sk = tx_sk;
        ethaddr = copy_at c.ethaddr 0 eth 6;
        t1 = stopped;
        t2 = stopped;
        start_time = w.now;
        udp_setup = true;
        state = init;
      },
      true,
    )
    else (c, false)

-- The four bytes of a number in memory.
abbrev pub bytes_of : ℕ → Buffer
bytes_of x = (lw32 x (replicate 4 0) 0).0

abbrev pub discover_options : Buffer
discover_options = 99 ∷ 130 ∷ 83 ∷ 99 ∷ 53 ∷ 1 ∷ 1 ∷ 255 ∷ []

abbrev pub request_options : ℕ → ℕ → Buffer
request_options sid yip =
    99 ∷ 130 ∷ 83 ∷ 99 ∷ 53 ∷ 1 ∷ 3 ∷ 54 ∷ 4 ∷ []
    ++ (bytes_of sid ++ (50 ∷ 4 ∷ [] ++ (bytes_of yip ++ 255 ∷ [])))

-- What both messages have in common.
abbrev fill_in : DhcpClient → World → DhcpMessage → Buffer → ℕ → DhcpMessage
fill_in c w m options size = record m {
  op = 1;
  secs = (w.now + 2 ^ 64 - c.start_time) % 2 ^ 16;
  flags = 1;
  chaddr = copy_at m.chaddr 0 c.ethaddr 6;
  option = options;
  option_size = size;
}

unfoldable pub dhcp_client_send_discover : DhcpClient → World → DhcpClient × World × Bool
unfolding transmit
dhcp_client_send_discover c w =
    let m = record dhcp_message_init { htype = 1; hlen = 6; xid = w.random w.rolls % 2 ^ 32 } in
    transmit 576 (record c { msg = fill_in c w m discover_options 8 })
      (record w { rolls = suc w.rolls })

-- The search does not run out of rounds.
abbrev pub found : Option (Option ℕ) → Option ℕ
found none = none
found (some r) = r

-- The request to the server that the message names, if it names one.
unfoldable pub send_request_to : Option ℕ → DhcpClient → World → DhcpClient × World × Bool
unfolding transmit
send_request_to none c w = (c, w, false)
send_request_to (some sid) c w =
    let options = request_options (htonl sid) (htonl c.msg.yiaddr) in
    transmit 1024 (record c { msg = fill_in c w c.msg options 20 }) w

unfoldable pub dhcp_client_send_request : DhcpClient → World → DhcpClient × World × Bool
unfolding send_request_to
dhcp_client_send_request c w = send_request_to (found (dhcp_option_server_identifier c.msg)) c w

-- `dhcp_client_start`
unfoldable pub dhcp_client_start : DhcpClient → World → DhcpClient × World
dhcp_client_start c w =
    let (c1, w1, sent) = dhcp_client_send_discover c w in
    if c.udp_setup
    then elim c.state [
      | init ↦ (record c1 { t1 = started w.now 3; state = selecting }, w1)
      | _ ↦ (c, w)
    ]
    else (c, w)

-- A message is sent again, and T1 started.
abbrev resend : DhcpClient × World × Bool → DhcpClient × World
resend (c, w, sent) = (record c { t1 = started w.now 5 }, w)

-- `dhcp_client_timeout`; `(1-0.875)*lease` cut to an integer.
unfoldable pub dhcp_client_timeout : DhcpClient → World → DhcpClient × World
dhcp_client_timeout c w =
    let again = resend (dhcp_client_send_request c w) in
    let rebind = record c {
      t1 = started w.now 1;
      t2 = started w.now (c.lease / 8);
      state = rebinding;
    } in
    if c.udp_setup
    then elim c.state [
      | init ↦ resend (dhcp_client_send_discover c w)
      | requesting ↦ again
      | bound ↦ (record c { t1 = started w.now 1; state = renewing }, w)
      | renewing ↦ if w.expired w.now c.t2 then (rebind, w) else again
      | rebinding ↦
          if w.expired w.now c.t2
          then (record c { t1 = stopped; t2 = stopped; state = init }, w)
          else again
      | _ ↦ (c, w)
    ]
    else (c, w)

-- Whether a reply carries the message type.
abbrev pub is_reply : DhcpMessage → ℕ → Bool
is_reply m kind = elim (found (dhcp_option_message_type m)) [
  | none ↦ false
  | some k ↦ if m.op == 2 then k == kind else false
]

abbrev take_offer : DhcpClient → World → DhcpClient × World
take_offer c w =
    let (c1, w1) = resend (
      dhcp_client_send_request c
        (record w { ips = w.ips ++ (bytes_of (htonl c.msg.yiaddr) ∷ []) })) in
    (record c1 { state = requesting }, w1)

-- `0.5*lease` and `0.875*lease` cut to integers.
abbrev pub take_lease : Option ℕ → DhcpClient → World → DhcpClient
take_lease none c w = record c { state = bound }
take_lease (some lease) c w = record c {
  lease = lease;
  t1 = started w.now (lease / 2);
  t2 = started w.now (lease * 7 / 8);
  state = bound;
}

-- `dhcp_client_received`
unfoldable pub dhcp_client_received : DhcpClient → World → DhcpClient × World
dhcp_client_received c w =
    let (m, valid) = dhcp_message_unpack c.msg in
    let c1 = record c { msg = m } in
    let wait : DhcpClient × World = (record c1 { t1 = started w.now 5 }, w) in
    let acked : DhcpClient × World =
      if valid
      then (if is_reply m 5
          then (take_lease (found (dhcp_option_ip_lease_time m)) c1 w, w)
          else wait)
      else (c1, w) in
    elim c.state [
      | selecting ↦ if valid then (if is_reply m 2 then take_offer c1 w else wait) else (c1, w)
      | requesting ↦ acked
      | renewing ↦ acked
      | rebinding ↦ acked
      | _ ↦ (c, w)
    ]

-- A round of `dhcp_loop` for each timer.
abbrev pub fire_t1 : DhcpClient → World → DhcpClient × World
fire_t1 c w =
    if w.expired w.now c.t1 then dhcp_client_timeout (record c { t1 = stopped }) w else (c, w)

abbrev pub fire_t2 : DhcpClient → World → DhcpClient × World
fire_t2 c w =
    if w.expired w.now c.t2 then dhcp_client_timeout (record c { t2 = stopped }) w else (c, w)

-- `received`, where something has arrived, and `free` of what `msg.raw_data` then points to.
unfoldable pub receive_and_free : ℕ → DhcpClient → World → DhcpClient × World
unfolding release
receive_and_free size c w =
    let (c1, w1) = if ltb 0 size then dhcp_client_received c w else (c, w) in
    (c1, release c1.raw w1)

-- The last part: `bytes` is what `recvfrom` wrote into the 1024 bytes, `size` what it returned.
unfoldable pub listen_once : Buffer → ℕ → DhcpClient → World → DhcpClient × World
unfolding take_block receive_and_free
listen_once bytes size c w =
    let (block, w1) = take_block w in
    let c1 = record c {
      raw = block;
      msg = record c.msg {
        raw_data = copy_at (replicate 1024 w.junk) 0 bytes (length bytes);
        raw_data_size = size;
      };
    } in
    if w.grant w.asked
    then receive_and_free size c1 w1
    else (record c { raw = none; msg = record c.msg { raw_data = [] } }, w1)

unfoldable pub dhcp_loop : Buffer → ℕ → DhcpClient → World → DhcpClient × World
unfolding listen_once
dhcp_loop bytes size c w =
    let (c1, w1) = fire_t1 c w in
    let (c2, w2) = fire_t2 c1 w1 in if c2.udp_setup then listen_once bytes size c2 w2 else (c2, w2)

-- `dhcp_client_completed`
unfoldable pub dhcp_client_completed : DhcpClient → Bool
dhcp_client_completed c = elim c.state [
  | bound ↦ true
  | renewing ↦ true
  | rebinding ↦ true
  | _ ↦ false
]
