-- ===== src/Dhcp/Blocks.antt =====
-- What the last part of `dhcp_loop` does to the heap.
use dts_net.Base.{ℕ, suc, ◌≡◌, ◌≢◌, ◌<◌, refl, arith, true, false, Option, none, some, ltb}
use dts_net.Base.{List, [], ◌∷◌, ◌++◌, length, replicate, ap, ◌∙◌, Bool-cases, inl, inr}
use dts_net.Endian.{Buffer}
use dts_net.Bytes.{copy_at}
use dts_net.Dhcp.Defs.{DhcpMessage, dhcp_message_unpack}
use dts_net.Inet.{htonl}
use dts_net.Dhcp.Options.{dhcp_option_server_identifier}
use dts_net.Dhcp.World.{
  selecting, DhcpClient, World, take_block, release, is_live, remove_block, transmit,
}
use dts_net.Dhcp.Client.{
  dhcp_client_received, bytes_of, receive_and_free, dhcp_client_send_request, send_request_to,
  found, is_reply, listen_once, take_lease,
}

take_lease-raw :
    (lease : Option ℕ) (c : DhcpClient) (w : World) → (take_lease lease c w).raw ≡ c.raw
take_lease-raw none c w = refl
take_lease-raw (some lease) c w = refl

-- Outside SELECTING a message changes neither the heap nor the block of the message.
received-same :
    (c : DhcpClient) (w : World)
    → c.state ≢ selecting
    → ((dhcp_client_received c w).0.raw ≡ c.raw) × ((dhcp_client_received c w).1 ≡ w)
unfolding dhcp_client_received
received-same c w other = (ground arith, ground arith)

-- A block that was just taken is freed again.
release-last :
    (i : ℕ) (w : World) (js : List ℕ)
    → w.live ≡ i ∷ js
    → ((release (some i) w).live ≡ js) × ((release (some i) w).twice ≡ w.twice)
unfolding release is_live remove_block
release-last i w js e = ground (arith, e)

-- Freeing the block that a message was received in.
receive_and_free-last :
    (size i : ℕ) (c : DhcpClient) (w : World) (js : List ℕ)
    → c.state ≢ selecting
    → c.raw ≡ some i
    → w.live ≡ i ∷ js
    → ((receive_and_free size c w).1.live ≡ js) × ((receive_and_free size c w).1.twice ≡ w.twice)
unfolding receive_and_free
receive_and_free-last size i c w js other r e =
    let last = release-last i w js e in
    let same = received-same c w other in
    elim (Bool-cases (ltb 0 size)) [
      | inl some_bytes ↦ rw (some_bytes, same.0, same.1, r) last
      | inr no_bytes ↦ rw (no_bytes, r) last
    ]

-- In every state but SELECTING, the last part of `dhcp_loop` leaves the blocks that are allocated as
-- they were, whatever arrives and whether or not memory is granted, and frees nothing twice.
pub listen_once-balanced :
    (bytes : Buffer) (size : ℕ) (c : DhcpClient) (w : World)
    → c.state ≢ selecting
    → ((listen_once bytes size c w).1.live ≡ w.live)
      × ((listen_once bytes size c w).1.twice ≡ w.twice)
unfolding listen_once take_block
listen_once-balanced bytes size c w other = ground (
  arith,
  receive_and_free-last size w.asked
      (record c {
        raw = some w.asked;
        msg = record c.msg {
          raw_data = copy_at (replicate 1024 w.junk) 0 bytes (length bytes);
          raw_data_size = size;
        };
      })
      (record w { asked = suc w.asked; live = w.asked ∷ w.live }) w.live other refl refl,
)

-- Sending frees its block, and the message goes on pointing to it.
send_request_to-blocks :
    (sid : ℕ) (c : DhcpClient) (w : World)
    → w.grant w.asked ≡ true
    → ((send_request_to (some sid) c w).0.raw ≡ some w.asked)
      × ((send_request_to (some sid) c w).1.live ≡ w.live)
      × ((send_request_to (some sid) c w).1.twice ≡ w.twice)
unfolding send_request_to transmit take_block release is_live remove_block
send_request_to-blocks sid c w granted = (ground arith, ground arith, ground arith)

release-dead :
    (i : ℕ) (w : World)
    → is_live i w.live ≡ false
    → ((release (some i) w).live ≡ w.live) × ((release (some i) w).twice ≡ i ∷ w.twice)
unfolding release
release-dead i w e = rw e (refl, refl)

module _ (c : DhcpClient) (w : World) (m : DhcpMessage) (sid : ℕ) (waiting : c.state ≡ selecting)
    (valid : dhcp_message_unpack c.msg ≡ (m, true)) (offer : is_reply m 2 ≡ true)
    (server : found (dhcp_option_server_identifier m) ≡ some sid)
    (granted : w.grant w.asked ≡ true) where
  -- The request to the server that an offer names leaves its own block behind, already freed.
  received-offer :
      ((dhcp_client_received c w).0.raw ≡ some w.asked)
      × ((dhcp_client_received c w).1.live ≡ w.live)
      × ((dhcp_client_received c w).1.twice ≡ w.twice)
  unfolding dhcp_client_received dhcp_client_send_request
  received-offer =
      let after =
        send_request_to-blocks sid (record c { msg = m })
          (record w { ips = w.ips ++ (bytes_of (htonl m.yiaddr) ∷ []) }) granted in
      (ground (arith, after.0), ground (arith, after.1), ground (arith, after.2))

  -- In SELECTING, let an offer arrive that names a server, and let the block of the request be
  -- granted and be none of the live ones. Then the block of the request is freed twice, and all
  -- that was live before, the block of the message with it, stays so.
  pub receive_and_free-twice :
      (size : ℕ)
      → 0 < size
      → is_live w.asked w.live ≡ false
      → ((receive_and_free size c w).1.live ≡ w.live)
        × ((receive_and_free size c w).1.twice ≡ w.asked ∷ w.twice)
  unfolding receive_and_free
  receive_and_free-twice size some_bytes fresh =
      let (raw, live, twice) = received-offer in
      let dead =
        release-dead w.asked (dhcp_client_received c w).1 (ap (is_live w.asked) live ∙ fresh) in
      let arrived : ltb 0 size ≡ true = ground arith in
      rw (arrived, raw) (dead.0 ∙ live, dead.1 ∙ ap (◌∷◌ w.asked) twice)
