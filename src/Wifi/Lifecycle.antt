-- ===== src/Wifi/Lifecycle.antt =====
-- Start, scan and shutdown of the Wi-Fi module, src/ob_wifi.c: `ob_wifi_init` from its access
-- point on, `ob_wifi_scan` and `ob_wifi_deinit`.
use onboarding.Base.{
  ℕ, true, false, not, ◌||◌, none, Option, some, List, [], ℤ, pos, minus_one, is_neg, is_pos, Bytes,
  if◌then◌else◌,
}
use onboarding.Wifi.Mac.{ap_ssid}
use onboarding.Wifi.State.{Stack, Wifi}
use onboarding.Wifi.Ap.{ob_wifi_ap_disable, ob_wifi_ap_enable}
use onboarding.Wifi.Events.{Event, take_sem}
use onboarding.Wifi.Connect.{returned, waiting, ob_wifi_connect}

-- The start returned, or its thread still waits for a semaphore.
pub data Started (C W : Type 0) : Type 0 where
  started : ℤ → Wifi C W → List Event → Started C W
  waits : Wifi C W → Started C W
  -- the link address has fewer than 6 octets, or an array without a NUL is read as a string
  fault : Started C W

module _ {C W : Type 0} (stack : Stack C W) where
  unfoldable pub ob_wifi_scan : Wifi C W → ℤ × Wifi C W
  ob_wifi_scan s =
      if not s.wifi_inited
      then (minus_one, s)
      else (pos 0, record s { ssids = []; world = (stack.request_scan s.world).1 })

  -- `wifi_ap_sem`, taken with K_FOREVER
  unfoldable pub wait_ap : List Event → Wifi C W → Started C W
  wait_ap events s =
      let (taken, t, rest) =
        take_sem stack (λ t. t.wifi_ap_sem) (λ t. record t { wifi_ap_sem = false }) events s in
      if taken then started (pos 0) t rest else waits t

  -- The end of `ob_wifi_init`, with the results and the buffers of the reads of the SSID and the
  -- PSK.
  unfoldable pub join_network :
      ℤ × Bytes → ℤ × Bytes → (ℕ → List Event) → List Event → Wifi C W → Started C W
  unfolding wait_ap
  join_network (ssid_len, ssid) (psk_len, psk) arrive events s =
      let t = record s { ssid = ssid; ssid_len = ssid_len; psk = psk; psk_len = psk_len } in
      if not (is_pos ssid_len) || not (is_pos psk_len)
      then wait_ap events t
      else elim (ob_wifi_connect stack arrive events t) [
        | returned ret u rest ↦ started (pos 0) u rest
        | waiting u ↦ waits u
      ]

  -- `ob_wifi_init`, with CONFIG_ONBOARDING_WIFI_AP_SSID, the link address of the interface of the
  -- access point, where there is one, the result of `ob_nvs_data_init`, and the two reads.
  unfoldable pub ob_wifi_init :
      (configured : Bytes) (linkaddr : Option Bytes)
      → ℤ
      → ℤ × Bytes
      → ℤ × Bytes
      → (ℕ → List Event)
      → List Event
      → Wifi C W
      → Started C W
  unfolding join_network ob_wifi_ap_enable
  ob_wifi_init configured linkaddr init ssid psk arrive events s =
      if is_neg init then started minus_one s events else elim (ap_ssid configured linkaddr) [
        | none ↦ fault
        | some name ↦
            join_network ssid psk arrive events
              (ob_wifi_ap_enable stack (record s { wifi_inited = true; ap_ssid = name }))
      ]

  -- `ob_wifi_deinit`; the events are those of the 5 seconds it waits at most.
  unfoldable pub ob_wifi_deinit : List Event → Wifi C W → Wifi C W
  ob_wifi_deinit events s =
      let t = record s { wifi_deinit_sem = false } in
      let u = if t.has_ap then ob_wifi_ap_disable stack t else t in
      let v = record u { world = (stack.request_disconnect u.world).1 } in
      let (taken, x, rest) =
        take_sem stack (λ t. t.wifi_deinit_sem) (λ t. record t { wifi_deinit_sem = false }) events
          v in
      record x { wifi_inited = false }
