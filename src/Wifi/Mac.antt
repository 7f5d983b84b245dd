-- ===== src/Wifi/Mac.antt =====
-- The hardware address and the name of the device's access point, src/ob_wifi.c: `Mac2String`,
-- `get_mac_address` and the suffix that `ob_wifi_init` appends.
use onboarding.Base.{
  ℕ, ◌≡◌, refl, ◌/◌, ◌%◌, ◌+◌, Option, none, some, [], ◌∷◌, ◌++◌, ltb, Bytes, get_elem?, take,
  codes, if◌then◌else◌, ◌>>=◌,
}

-- A digit of `%x`.
unfoldable pub hex_digit : ℕ → ℕ
hex_digit d = if ltb d 10 then 48 + d else 87 + d

-- `%02x` of an octet
unfoldable pub hex_octet : ℕ → Bytes
hex_octet b = hex_digit (b / 16) ∷ hex_digit (b % 16) ∷ []

-- `Mac2String`
unfoldable pub mac_to_string : (a b c d e f : ℕ) → Bytes
mac_to_string a b c d e f =
    hex_octet a
    ++ codes ":"
    ++ hex_octet b
    ++ codes ":"
    ++ hex_octet c
    ++ codes ":"
    ++ hex_octet d
    ++ codes ":"
    ++ hex_octet e
    ++ codes ":"
    ++ hex_octet f

-- The address of the interface, where there is one, for a buffer of len bytes.
unfoldable pub get_mac_address : Option Bytes → ℕ → Option Bytes
get_mac_address none len = none
get_mac_address (some linkaddr) len = if ltb len 6 then none else some (take 6 linkaddr)

-- `ssid_suffix` of `ob_wifi_init`
unfoldable pub ssid_suffix : Bytes → Option Bytes
ssid_suffix mad = do
  a ← get_elem? mad 9
  b ← get_elem? mad 10
  c ← get_elem? mad 12
  d ← get_elem? mad 13
  e ← get_elem? mad 15
  f ← get_elem? mad 16
  some (a ∷ b ∷ c ∷ d ∷ e ∷ f ∷ [])

-- `wifi_ap_ssid` of `ob_wifi_init`; the address is formatted from its 6 octets.
unfoldable pub ap_ssid : Bytes → Option Bytes → Option Bytes
unfolding get_mac_address mac_to_string ssid_suffix
ap_ssid configured linkaddr = elim (get_mac_address linkaddr 18) [
  | none ↦ some configured
  | some (a ∷ b ∷ c ∷ d ∷ e ∷ f ∷ []) ↦
      ssid_suffix (mac_to_string a b c d e f) >>= λ suffix. some (configured ++ suffix)
  | some _ ↦ none
]

-- The access point is named by the configured name and the last three octets of the hardware
-- address, in hexadecimal; without an interface it keeps the configured name.
pub ap_ssid_lem :
    (configured : Bytes) (a b c d e f : ℕ)
    → (ap_ssid configured (some (a ∷ b ∷ c ∷ d ∷ e ∷ f ∷ []))
        ≡ some (configured ++ (hex_octet d ++ hex_octet e ++ hex_octet f)))
      × (ap_ssid configured none ≡ some configured)
unfolding ap_ssid get_mac_address mac_to_string ssid_suffix hex_octet
ap_ssid_lem configured a b c d e f = (refl, refl)
