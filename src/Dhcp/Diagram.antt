-- ===== src/Dhcp/Diagram.antt =====
-- The state diagram of the client.
use dts_net.Base.{ℕ, ◌≡◌, refl, arith, Bool, true, false, Option, none, some}
use dts_net.Dhcp.World.{
  DhcpState, init_reboot, rebooting, init, selecting, requesting, bound, renewing, rebinding,
}
use dts_net.Dhcp.World.{DhcpClient, World, transmit}
use dts_net.Dhcp.Client.{
  dhcp_client_send_discover, dhcp_client_send_request, dhcp_client_start, dhcp_client_timeout,
}
use dts_net.Dhcp.Client.{dhcp_client_received, send_request_to, take_lease}

-- Where a timeout leads, and where a message does.
abbrev pub timeout_arrow : DhcpState → DhcpState → Bool
timeout_arrow bound renewing = true
timeout_arrow renewing renewing = true
timeout_arrow renewing rebinding = true
timeout_arrow rebinding rebinding = true
timeout_arrow rebinding init = true
timeout_arrow init init = true
timeout_arrow init_reboot init_reboot = true
timeout_arrow rebooting rebooting = true
timeout_arrow selecting selecting = true
timeout_arrow requesting requesting = true
timeout_arrow _ _ = false

abbrev pub message_arrow : DhcpState → DhcpState → Bool
message_arrow selecting requesting = true
message_arrow requesting bound = true
message_arrow renewing bound = true
message_arrow rebinding bound = true
message_arrow init init = true
message_arrow init_reboot init_reboot = true
message_arrow rebooting rebooting = true
message_arrow selecting selecting = true
message_arrow requesting requesting = true
message_arrow bound bound = true
message_arrow renewing renewing = true
message_arrow rebinding rebinding = true
message_arrow _ _ = false

send_discover-state :
    (c : DhcpClient) (w : World) → (dhcp_client_send_discover c w).0.state ≡ c.state
unfolding dhcp_client_send_discover transmit
send_discover-state c w = ground arith

send_request_to-state :
    (sid : Option ℕ) (c : DhcpClient) (w : World) → (send_request_to sid c w).0.state ≡ c.state
unfolding send_request_to transmit
send_request_to-state none c w = refl
send_request_to-state (some sid) c w = ground arith

send_request-state : (c : DhcpClient) (w : World) → (dhcp_client_send_request c w).0.state ≡ c.state
unfolding dhcp_client_send_request
send_request-state c w = send_request_to-state _ c w

take_lease-state :
    (lease : Option ℕ) (c : DhcpClient) (w : World) → (take_lease lease c w).state ≡ bound
take_lease-state none c w = refl
take_lease-state (some lease) c w = refl

timeout-arrow :
    (c : DhcpClient) (w : World)
    → c.udp_setup ≡ true
    → timeout_arrow c.state (dhcp_client_timeout c w).0.state ≡ true
unfolding dhcp_client_timeout
timeout-arrow c w h = ground (arith, send_request-state c w, send_discover-state c w)

received-arrow :
    (c : DhcpClient) (w : World) → message_arrow c.state (dhcp_client_received c w).0.state ≡ true
unfolding dhcp_client_received
received-arrow c w = ground arith

-- Starting leads from INIT to SELECTING, and from nowhere else.
abbrev pub start_target : DhcpState → DhcpState
start_target init = selecting
start_target s = s

start-target :
    (c : DhcpClient) (w : World)
    → c.udp_setup ≡ true
    → (dhcp_client_start c w).0.state ≡ start_target c.state
unfolding dhcp_client_start
start-target c w h = ground arith

-- For a client that is set up, a start, a timeout and a received message each follow their arrows of
-- the state diagram.
pub dhcp_events-arrows :
    (c : DhcpClient) (w : World)
    → c.udp_setup ≡ true
    → ((dhcp_client_start c w).0.state ≡ start_target c.state)
      × (timeout_arrow c.state (dhcp_client_timeout c w).0.state ≡ true)
      × (message_arrow c.state (dhcp_client_received c w).0.state ≡ true)
dhcp_events-arrows c w h = (start-target c w h, timeout-arrow c w h, received-arrow c w)
