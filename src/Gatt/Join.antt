-- ===== src/Gatt/Join.antt =====
-- The network that a peer sets: `read_current_ap`, `write_current_ap` and `ob_join_network` of
-- src/ob_bluetooth_gatt.c.
use onboarding.Base.{
  ℕ, ◌+◌, ◌*◌, ◌/◌, ◌%◌, ℤ, pos, negsuc, is_neg, is_zero, Option, none, some, Bool, ◌&&◌, List, [],
  ◌++◌, Bytes, codes, ltb, if◌then◌else◌, length, take, drop, c_str, store,
}
use onboarding.Nvs.{Settings, data_write}
use onboarding.Portal.Setup.{settings_id_wifi_ssid, settings_id_wifi_psk}
use onboarding.Wifi.State.{Stack, Wifi}
use onboarding.Wifi.Events.{Event}
use onboarding.Wifi.Connect.{Connected, returned, waiting, ob_wifi_connect}

-- The state that a write changes. The world is that of `wifi`.
pub record Gatt (C D W : Type 0) : Type 0 where
  pub wifi : Wifi C W
  pub nvs_data_inited : Bool
  pub mirror_callback : Option D
  -- the text of `current_ap_data`
  pub current_ap_data : Bytes
  pub tmp_write_buffer : Bytes

-- What `json_obj_parse` reports, with the fields of `ob_set_ap` that it has set; the others are
-- not initialised.
pub record Parsed : Type 0 where
  pub result : ℤ
  pub ssid : Option Bytes
  pub passcode : Option Bytes

-- The libraries that a write calls.
pub record Peer (W : Type 0) : Type 0 where
  pub parse : Bytes → Parsed
  -- `json_obj_encode_buf` of a SSID and an error, over the text before
  pub encode : Bytes → Bytes → Bytes → Bytes
  -- `bt_gatt_notify`, whose result is not looked at
  pub notify : Bytes → W → W
  -- `bt_gatt_attr_read` of a value, from an offset on and of a length at most
  pub attr_read : ℕ → ℕ → Bytes → ℤ × Bytes

-- WIFI_SSID_MAX_LEN and WIFI_PSK_MAX_LEN, the sizes of `gSSID` and `gPSK`
abbrev pub wifi_ssid_max_len : ℕ
wifi_ssid_max_len = 32

abbrev pub wifi_psk_max_len : ℕ
wifi_psk_max_len = 64

-- The call returned, with the events that are left; its thread waits; or it writes past a buffer
-- or uses a field that is not initialised.
pub data Written (C D W : Type 0) : Type 0 where
  wrote : ℤ → Gatt C D W → List Event → Written C D W
  waits : Written C D W
  fault : Written C D W

-- `strcpy` to `gSSID` and `gPSK`, and their lengths
abbrev pub set_network : {C W : Type 0} → Bytes → Bytes → Wifi C W → Wifi C W
set_network ssid passcode wifi = record wifi {
  ssid = ssid;
  ssid_len = pos (length ssid);
  psk = passcode;
  psk_len = pos (length passcode);
}

-- `memcpy(tmp_write_buffer + offset, buf, len)`
abbrev pub copy_at : ℕ → Bytes → Bytes → Bytes
copy_at offset buf buffer = take offset buffer ++ (buf ++ drop (offset + length buf) buffer)

-- `flags | BT_GATT_WRITE_FLAG_EXECUTE | BT_GATT_WRITE_FLAG_CMD`, the bits 4 and 2
abbrev pub joins : ℕ → Bool
joins flags = ltb 0 (flags / 8 * 8 + 6 + flags % 2)

module _ {C D W : Type 0} (stack : Stack C W) (settings : Settings W) (peer : Peer W) where
  unfoldable pub write_setting : Bytes → Bytes → Gatt C D W → Gatt C D W
  unfolding data_write
  write_setting name value s =
      let (rc, n) = data_write settings name value (record {
        nvs_data_inited = s.nvs_data_inited;
        mirror_callback = s.mirror_callback;
        world = s.wifi.world;
      }) in
      record s { wifi = record s.wifi { world = n.world } }

  -- What `connect_rc` is answered with: the two settings, or the error.
  unfoldable pub keep : ℤ → Bytes → Bytes → Gatt C D W → Gatt C D W
  unfolding write_setting
  keep connect_rc ssid passcode s =
      if is_zero connect_rc
      then write_setting settings_id_wifi_psk passcode (write_setting settings_id_wifi_ssid ssid s)
      else record s {
        current_ap_data = peer.encode ssid (codes "Failed to connect.") s.current_ap_data;
      }

  unfoldable pub notify_current : Gatt C D W → Gatt C D W
  notify_current s = record s {
    wifi = record s.wifi { world = peer.notify s.current_ap_data s.wifi.world };
  }

  -- `ob_join_network` behind `ob_wifi_connect`
  unfoldable pub joined : ℤ → Bytes → Bytes → Gatt C D W → Connected C W → Written C D W
  unfolding keep notify_current
  joined result ssid passcode s (returned ret u rest) =
      wrote result (notify_current (keep ret ssid passcode (record s { wifi = u }))) rest
  joined result ssid passcode s (waiting u) = waits

  -- The text of `current_ap_data` while the connection is tried
  abbrev pub announce : Bytes → Gatt C D W → Gatt C D W
  announce ssid s = record s { current_ap_data = peer.encode ssid [] s.current_ap_data }

  -- `ob_join_network`; the result is that of the write that calls it. `strcpy` also writes a NUL.
  unfoldable pub ob_join_network :
      (ℕ → List Event) → List Event → ℤ → Bytes → Bytes → Gatt C D W → Written C D W
  unfolding joined
  ob_join_network arrive events result ssid passcode s =
      if ltb (length ssid) wifi_ssid_max_len && ltb (length passcode) wifi_psk_max_len
      then joined result ssid passcode (announce ssid s)
          (ob_wifi_connect stack arrive events (set_network ssid passcode s.wifi))
      else fault

  -- The network of a text that was parsed
  unfoldable pub parsed : (ℕ → List Event) → List Event → ℕ → Parsed → Gatt C D W → Written C D W
  unfolding ob_join_network
  parsed arrive events len p s =
      if is_neg p.result then wrote (negsuc 18) s events else elim p.ssid [
        | none ↦ fault
        | some ssid ↦ elim p.passcode [
          | none ↦ fault
          | some passcode ↦ ob_join_network arrive events (pos len) ssid passcode s
        ]
      ]

  unfoldable pub stored :
      (ℕ → List Event) → List Event → ℕ → ℕ → Option Bytes → Gatt C D W → Written C D W
  unfolding parsed
  stored arrive events len flags none s = fault
  stored arrive events len flags (some buffer) s =
      let t = record s { tmp_write_buffer = buffer } in
      if joins flags
      then parsed arrive events len (peer.parse (c_str buffer)) t
      else wrote (pos len) t events

  -- `write_current_ap`. BT_ATT_ERR_INVALID_OFFSET is 7, BT_ATT_ERR_VALUE_NOT_ALLOWED 19.
  unfoldable pub write_current_ap :
      (ℕ → List Event) → List Event → Bytes → ℕ → ℕ → Gatt C D W → Written C D W
  unfolding stored
  write_current_ap arrive events buf offset flags s =
      if ltb (length s.tmp_write_buffer) (offset + length buf)
      then wrote (negsuc 6) s events
      else stored arrive events (length buf) flags
          (store (copy_at offset buf s.tmp_write_buffer) (offset + length buf) 0) s

  -- `read_current_ap`
  unfoldable pub read_current_ap : ℕ → ℕ → Gatt C D W → ℤ × Bytes
  read_current_ap len offset s = peer.attr_read len offset s.current_ap_data
