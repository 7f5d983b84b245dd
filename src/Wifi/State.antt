-- ===== src/Wifi/State.antt =====
-- The state of src/ob_wifi.c and the network stack it drives. The configuration is
-- CONFIG_ONBOARDING_WIFI_AP with CONFIG_NET_DHCPV4_SERVER.
use onboarding.Base.{Bool, true, Option, List, ℤ, Bytes}
use onboarding.Wifi.Ssids.{Ssid}

-- The network management calls, over the state `W` of the world, with the registered callbacks
-- `C`: each returns the result that the code reads.
pub record Stack (C W : Type 0) : Type 0 where
  -- the interfaces are not NULL
  pub has_sta : W → Bool
  pub has_sap : W → Bool
  pub request_scan : W → ℤ × W
  -- NET_REQUEST_WIFI_CONNECT with the SSID, its length, the PSK and its length
  pub request_connect : Bytes → ℤ → Bytes → ℤ → W → ℤ × W
  pub request_disconnect : W → ℤ × W
  -- NET_REQUEST_WIFI_AP_ENABLE with `wifi_ap_ssid`; its other parameters are constants
  pub request_ap_enable : Bytes → W → ℤ × W
  pub request_ap_disable : W → ℤ × W
  pub dhcpv4_start : W → W
  -- `net_addr_pton` of `wifi_ap_address` succeeds
  pub is_address : W → Bool
  pub addr_add : W → Bool × W
  pub addr_rm : W → Bool × W
  pub set_netmask : W → Bool × W
  pub server_start : W → ℤ × W
  pub server_stop : W → ℤ × W
  pub set_default : W → W
  pub sleep : W → W
  pub call_done : C → List Ssid → W → W
  pub call_address_add : C → W → W

-- The file's variables. A semaphore of limit 1 is whether it has its token.
pub record Wifi (C W : Type 0) : Type 0 where
  pub wifi_inited : Bool
  pub wifi_connect_status_succeded : Bool
  pub wifi_connect_sem : Bool
  pub wifi_ap_sem : Bool
  pub wifi_deinit_sem : Bool
  pub ssids : List Ssid
  pub has_ap : Bool
  pub ssid : Bytes
  pub ssid_len : ℤ
  pub psk : Bytes
  pub psk_len : ℤ
  pub ap_ssid : Bytes
  -- the work item `start_ap_work` is scheduled
  pub ap_work : Bool
  pub done_callback : Option C
  pub address_add_callback : Option C
  pub world : W

module _ {C W : Type 0} where
  unfoldable pub set_scan_done_callback : Option C → Wifi C W → Wifi C W
  set_scan_done_callback callback s = record s { done_callback = callback }

  pub set_address_add_callback : Option C → Wifi C W → Wifi C W
  set_address_add_callback callback s = record s { address_add_callback = callback }

  -- `k_sem_give(&wifi_connect_sem)`, with the flag that says how the connection ended
  abbrev pub settle : Bool → Wifi C W → Wifi C W
  settle succeded s = record s { wifi_connect_status_succeded = succeded; wifi_connect_sem = true }
