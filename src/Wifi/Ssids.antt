-- ===== src/Wifi/Ssids.antt =====
-- The list of scanned networks, src/ob_wifi.c: `ssid_add_item`, `ssid_init_list` and
-- `handle_wifi_scan_result`. The chain from `ssid_head` to `ssid_tail` is a list.
use onboarding.Base.{
  ℕ, ◌-◌, Bool, false, ◌||◌, not, List, [], ◌∷◌, ◌++◌, ℤ, pos, negsuc, ltb, Bytes, take,
  if◌then◌else◌, strn_eq,
}

-- `ssid_item_t`
pub record Ssid : Type 0 where
  pub ssid : Bytes
  pub len : ℕ
  pub security : Bool
  pub signal_strength : ℤ

-- `struct wifi_scan_result`, with whether the two allocations of `ssid_add_item` succeed.
pub record ScanResult : Type 0 where
  pub ssid : Bytes
  pub ssid_length : ℕ
  -- the security is WIFI_SECURITY_TYPE_NONE
  pub is_open : Bool
  pub rssi : ℤ
  pub item_allocated : Bool
  pub ssid_allocated : Bool

-- The search loop of `ssid_add_item`: `0 == strncmp(ssid, it->ssid, ssid_length)`.
unfoldable pub is_listed : Bytes → ℕ → List Ssid → Bool
is_listed ssid ssid_length [] = false
is_listed ssid ssid_length (it ∷ items) =
    strn_eq ssid_length ssid it.ssid || is_listed ssid ssid_length items

unfoldable pub ssid_add_item :
    Bytes → ℕ → Bool → ℤ → (item_allocated ssid_allocated : Bool) → List Ssid → List Ssid
ssid_add_item ssid ssid_length security signal_strength item_allocated ssid_allocated items =
    if is_listed ssid ssid_length items
    then items
    else if not item_allocated
    then items
    else if not ssid_allocated
    then items
    else items
      ++ (record {
        ssid = take ssid_length ssid;
        len = ssid_length;
        security = security;
        signal_strength = signal_strength;
      }
          ∷ [])

-- `rssi + 130`, at most 100
unfoldable pub strength : ℤ → ℤ
strength (pos n) = pos 100
strength (negsuc n) =
    if ltb n 29 then pos 100 else if ltb n 130 then pos (129 - n) else negsuc (n - 130)

unfoldable pub handle_wifi_scan_result : ScanResult → List Ssid → List Ssid
handle_wifi_scan_result entry items =
    ssid_add_item entry.ssid entry.ssid_length (not entry.is_open) (strength entry.rssi)
      entry.item_allocated entry.ssid_allocated items

-- A scan: its results, in the order of their events.
abbrev pub scanned : List ScanResult → List Ssid → List Ssid
scanned [] items = items
scanned (r ∷ results) items = scanned results (handle_wifi_scan_result r items)
