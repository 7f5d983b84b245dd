-- ===== src/Tests/Station.antt =====
-- Concrete scans and connections for src/ob_wifi.c.
use onboarding.Base.{
  ℕ, ◌≡◌, refl, true, false, none, some, List, [], ◌∷◌, ◌++◌, map, ℤ, pos, negsuc, minus_one,
  is_zero, Bytes, codes, length,
}
use onboarding.Wifi.Ssids.{Ssid, ScanResult, scanned}
use onboarding.Wifi.Listing.{IsFresh, scanned-IsFresh}
use onboarding.Wifi.State.{Stack, Wifi}
use onboarding.Wifi.Events.{
  scan_result, scan_done, disconnect_result, dhcp_bound, other, work, deliver, deliver_all,
}
use onboarding.Wifi.Connect.{returned, ob_wifi_connect, try_connect}
use onboarding.Wifi.Outcome.{ob_wifi_connect_first, ob_wifi_connect_stale, ob_wifi_connect_refused}
use onboarding.Wifi.Lifecycle.{ob_wifi_scan}
use onboarding.Wifi.Scan.{scan_callback}

abbrev result : Bytes → ScanResult
result name = record {
  ssid = name;
  ssid_length = length name;
  is_open = false;
  rssi = negsuc 59;
  item_allocated = true;
  ssid_allocated = true;
}

abbrev pub results : List ScanResult
results = result (codes "cafe-guest") ∷ result (codes "cafe") ∷ result (codes "home") ∷ []

abbrev pub guest : Ssid
guest = record { ssid = codes "cafe-guest"; len = 10; security = true; signal_strength = pos 70 }

scanned-IsFresh_example : IsFresh (scanned results [])
scanned-IsFresh_example = scanned-IsFresh results [] tt

-- The world counts the connect requests and holds the networks that were reported.
abbrev pub stack_of : ℤ → Stack ℕ (List Ssid)
stack_of answer = record {
  has_sta = λ w. true;
  has_sap = λ w. true;
  request_scan = λ w. (pos 0, w);
  request_connect = λ a n p m w. (answer, w);
  request_disconnect = λ w. (pos 0, w);
  request_ap_enable = λ n w. (pos 0, w);
  request_ap_disable = λ w. (pos 0, w);
  dhcpv4_start = λ w. w;
  is_address = λ w. true;
  addr_add = λ w. (true, w);
  addr_rm = λ w. (true, w);
  set_netmask = λ w. (true, w);
  server_start = λ w. (pos 0, w);
  server_stop = λ w. (pos 0, w);
  set_default = λ w. w;
  sleep = λ w. w;
  call_done = λ c items w. items;
  call_address_add = λ c w. w;
}

abbrev pub accepting : Stack ℕ (List Ssid)
accepting = stack_of (pos 0)

abbrev pub ready : Wifi ℕ (List Ssid)
ready = record {
  wifi_inited = true;
  wifi_connect_status_succeded = false;
  wifi_connect_sem = false;
  wifi_ap_sem = false;
  wifi_deinit_sem = false;
  ssids = guest ∷ [];
  has_ap = true;
  ssid = codes "home";
  ssid_len = pos 4;
  psk = codes "12345678";
  psk_len = pos 8;
  ap_ssid = [];
  ap_work = false;
  done_callback = some 1;
  address_add_callback = none;
  world = [];
}

scan_callback_example :
    deliver_all accepting
      (map scan_result results ++ scan_done ∷ [])
      (ob_wifi_scan accepting ready).1
    ≡ record ready { ssids = []; world = scanned results [] }
scan_callback_example = scan_callback accepting results ready 1 refl refl

first_example :
    (u : Wifi ℕ (List Ssid)) × (ob_wifi_connect accepting
        (λ n. [])
        (other ∷ dhcp_bound (pos 0) ∷ work ∷ [])
        ready
      ≡ returned (pos 0) u (work ∷ []))
    × (u.wifi_connect_status_succeded ≡ true)
unfolding try_connect
first_example =
    ob_wifi_connect_first accepting (λ n. []) ready ready (other ∷ []) (dhcp_bound (pos 0))
      (work ∷ []) true refl refl refl refl (refl, tt) refl

stale_example :
    (u : Wifi ℕ (List Ssid)) × (ob_wifi_connect accepting
        (λ n. [])
        (dhcp_bound (pos 0) ∷ [])
        (deliver accepting disconnect_result ready)
      ≡ returned minus_one u (dhcp_bound (pos 0) ∷ []))
stale_example =
    ob_wifi_connect_stale accepting (λ n. []) (dhcp_bound (pos 0) ∷ []) ready refl refl refl

refused_example :
    (r : ℤ) × (u : Wifi ℕ (List Ssid)) × (ob_wifi_connect
        (stack_of minus_one)
        (λ n. [])
        (other ∷ [])
        ready
      ≡ returned r u (other ∷ []))
    × (is_zero r ≡ false)
refused_example =
    ob_wifi_connect_refused (stack_of minus_one) (λ n. []) (other ∷ []) ready (λ a n p m w. refl)
