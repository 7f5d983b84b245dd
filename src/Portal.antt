-- ===== src/Portal.antt =====
-- The captive portal, src/ob_captive_portal.c: the list of networks that `client_scan_done`
-- formats, and the page that `ob_cp_init` registers.
pub mod Setup
pub mod Page
pub mod Shown
pub mod Home
pub mod Restart
pub mod Request
pub mod Joined
pub mod Race
pub mod Forms
pub mod Buffers
pub mod Alone
pub mod Received
pub mod Rivals
use onboarding.Base.{
  ℕ, ◌≡◌, refl, ◌≤◌, ◌+◌, ◌*◌, ◌-◌, Bool, true, false, List, [], ◌∷◌, ◌++◌, arith, Bytes, length,
  length-append, codes, ltb, if◌then◌else◌,
}
use onboarding.Wifi.Ssids.{Ssid}

-- `sprintf` of `option_fmt` with the name twice.
unfoldable pub option : Bytes → Bytes
option ssid = codes "<option value=\"" ++ ssid ++ codes "\">" ++ ssid ++ codes "</option>"

-- `sizeof(option_fmt)`, with its NUL
abbrev pub option_fmt_size : ℕ
option_fmt_size = 31

-- The length that the first loop of `client_scan_done` adds up.
unfoldable pub scan_len : List Ssid → ℕ
scan_len [] = 0
scan_len (it ∷ items) = length it.ssid * 2 + (option_fmt_size - 4) + scan_len items

-- The text that the second loop builds with `strcat`.
unfoldable pub scan_text : List Ssid → Bytes
scan_text [] = []
scan_text (it ∷ items) = option it.ssid ++ scan_text items

-- `client_scan_done`, with whether `malloc` succeeds: `content_wifi_body_ssid` and whether
-- `scan_done_sem` is given. The buffer holds the text and its NUL, or is overrun.
pub data ScanDone : Type 0 where
  no_memory : ScanDone
  formatted : Bytes → ScanDone
  overrun : ScanDone

unfoldable pub client_scan_done : Bool → List Ssid → ScanDone
client_scan_done false items = no_memory
client_scan_done true items =
    if ltb (length (scan_text items)) (scan_len items) then formatted (scan_text items) else overrun

length-option : (ssid : Bytes) → length (option ssid) ≡ 26 + length ssid * 2
unfolding option
length-option ssid = simp (length-append) (omega arith)

length-scan_text : (items : List Ssid) → length (scan_text items) + length items ≡ scan_len items
unfolding scan_text scan_len
length-scan_text [] = refl
length-scan_text (it ∷ items) = omega (
  arith,
  length-append (option it.ssid) (scan_text items),
  length-option it.ssid,
  length-scan_text items,
)

room :
    (items : List Ssid) → 1 ≤ length items → ltb (length (scan_text items)) (scan_len items) ≡ true
room items h = ground (arith, length-scan_text items)

-- When the allocation succeeds and a network was found, the buffer that `client_scan_done`
-- allocates holds the options of all networks and the NUL; with no network it has no room for
-- the NUL.
pub client_scan_done_fits :
    (it : Ssid) (items : List Ssid)
    → (client_scan_done true (it ∷ items) ≡ formatted (scan_text (it ∷ items)))
      × (client_scan_done true [] ≡ overrun)
unfolding client_scan_done scan_text scan_len
client_scan_done_fits it items = (rw (room (it ∷ items) (omega arith)) refl, refl)
