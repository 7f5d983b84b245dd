-- ===== src/Wifi/Config.antt =====
-- The parts of `ob_wifi_init` of src/ob_wifi.c that depend on the configuration: the host name,
-- with CONFIG_NET_HOSTNAME_DYNAMIC, and the network of CONFIG_ONBOARDING_PRECONFIG_WIFI.
use onboarding.Base.{
  ℕ, suc, ◌≤◌, ◌<◌, ◌≡◌, refl, true, Option, none, some, List, ◌++◌, ℤ, pos, negsuc, is_neg, is_pos,
  minus_one, arith, Bytes, length, drop, c_str, c_str-text, length-append, IsText, if◌then◌else◌,
  printed, strncpy, printed-strncpy, printed-strncpy_long,
}
use onboarding.Wifi.State.{Stack, Wifi}
use onboarding.Wifi.Events.{Event}
use onboarding.Wifi.Connect.{returned, waiting, ob_wifi_connect}
use onboarding.Wifi.Lifecycle.{Started, started, waits, fault, ob_wifi_init}

-- The host name: the result and the value of its read, what the array holds before, and the call
-- of `net_hostname_set`, whose result is only logged. `none`: the array has no NUL.
unfoldable pub set_hostname :
    {W : Type 0}
    → (hostname_set : Bytes → W → ℤ × W) → ℤ × Bytes
    → (hostname : Bytes) → W
    → Option W
set_hostname hostname_set (len, value) hostname w =
    if is_pos len
    then elim (printed (value ++ drop (length value) hostname)) [
      | none ↦ none
      | some name ↦ some (hostname_set name w).1
    ]
    else some w

-- One of the two values of a network: the one that was read, or else the configured one, with
-- its length.
unfoldable pub preconfigured : (max : ℕ) → (configured : Bytes) → ℤ × Bytes → Option (ℤ × Bytes)
preconfigured max configured (len, value) =
    if is_pos len then some (len, value) else elim (printed (strncpy max configured)) [
      | none ↦ none
      | some text ↦ some (pos (length text), strncpy max configured)
    ]

module _ {C W : Type 0} (stack : Stack C W) where
  -- The end of `ob_wifi_init` with CONFIG_ONBOARDING_PRECONFIG_WIFI, where `needSTA` stays false
  unfoldable pub join_preconfigured :
      Option (ℤ × Bytes)
      → Option (ℤ × Bytes)
      → (ℕ → List Event)
      → List Event
      → Wifi C W
      → Started C W
  join_preconfigured none psk arrive events s = fault
  join_preconfigured (some ssid) none arrive events s = fault
  join_preconfigured (some (ssid_len, ssid)) (some (psk_len, psk)) arrive events s =
      elim (ob_wifi_connect stack arrive events
        (record s { ssid = ssid; ssid_len = ssid_len; psk = psk; psk_len = psk_len })) [
          | returned ret u rest ↦ started (pos 0) u rest
          | waiting u ↦ waits u
        ]

  -- `ob_wifi_init` with CONFIG_NET_HOSTNAME_DYNAMIC, without a preconfigured network
  unfoldable pub ob_wifi_init_host :
      (hostname_set : Bytes → W → ℤ × W) (host : ℤ × Bytes) (hostname : Bytes)
      → (configured : Bytes) (linkaddr : Option Bytes) → ℤ
      → ℤ × Bytes
      → ℤ × Bytes
      → (ℕ → List Event)
      → List Event
      → Wifi C W
      → Started C W
  unfolding set_hostname ob_wifi_init
  ob_wifi_init_host hostname_set host hostname configured linkaddr init ssid psk arrive events s =
      if is_neg init
      then started minus_one s events
      else elim (set_hostname hostname_set host hostname s.world) [
        | none ↦ fault
        | some w ↦
            ob_wifi_init stack configured linkaddr init ssid psk arrive events
              (record s { world = w })
      ]

  -- A device that has no network stored joins the configured one, when the name has fewer than
  -- 32 bytes and the password fewer than 64.
  join_preconfigured_blank :
      (name word buffer other : Bytes) (e f : ℕ) (arrive : ℕ → List Event) (events : List Event)
      (s : Wifi C W)
      → IsText name
      → IsText word
      → length name < 32
      → length word < 64
      → join_preconfigured
          (preconfigured 32 name (negsuc e, buffer))
          (preconfigured 64 word (negsuc f, other))
          arrive
          events
          s
        ≡ join_preconfigured
            (some (pos (length name), strncpy 32 name))
            (some (pos (length word), strncpy 64 word))
            arrive
            events
            s
  unfolding preconfigured
  join_preconfigured_blank name word buffer other e f arrive events s tn tw n w =
      rw (printed-strncpy 32 name n tn, printed-strncpy 64 word w tw) refl

  -- A configured name of 32 bytes, which is allowed, leaves gSSID without a NUL.
  join_preconfigured_long :
      (name buffer : Bytes) (e : ℕ) (psk : Option (ℤ × Bytes)) (arrive : ℕ → List Event)
      (events : List Event) (s : Wifi C W)
      → IsText name
      → 32 ≤ length name
      → join_preconfigured (preconfigured 32 name (negsuc e, buffer)) psk arrive events s ≡ fault
  unfolding preconfigured join_preconfigured
  join_preconfigured_long name buffer e psk arrive events s t h =
      rw (printed-strncpy_long 32 name h t) refl

-- The value of the host name is read without a NUL behind it: the name that is set goes on with
-- the bytes that the array held before.
module _ {W : Type 0} (hostname_set : Bytes → W → ℤ × W) where
  tail_printed :
      (value rest : Bytes)
      → IsText value
      → length (c_str rest) < length rest
      → printed (value ++ rest) ≡ some (value ++ c_str rest)
  tail_printed value rest t h =
      rw (c_str-text value rest t, length-append value (c_str rest), length-append value rest)
        (ground arith)

  set_hostname_tail :
      (value hostname : Bytes) (n : ℕ) (w : W)
      → IsText value
      → length value ≡ suc n
      → length (c_str (drop (length value) hostname)) < length (drop (length value) hostname)
      → set_hostname hostname_set (pos (length value), value) hostname w
        ≡ some (hostname_set (value ++ c_str (drop (length value) hostname)) w).1
  unfolding set_hostname
  set_hostname_tail value hostname n w t e h =
      rw (is_pos-pos (length value) n e, tail_printed value (drop (length value) hostname) t h) refl
    where
      is_pos-pos : (m k : ℕ) → m ≡ suc k → is_pos (pos m) ≡ true
      is_pos-pos m k q = ground arith
