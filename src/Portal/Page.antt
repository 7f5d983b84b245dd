-- ===== src/Portal/Page.antt =====
-- The page of the captive portal: `client_scan_done`, as it leaves its buffer behind, and
-- `display_wifi_setup_page` of src/ob_captive_portal.c, in the configuration without Golioth.
use onboarding.Base.{
  ℕ, ◌+◌, Bool, true, false, Option, none, some, List, ℤ, minus_one, Bytes, codes, length, ◌>>=◌,
}
use onboarding.Portal.{ScanDone, no_memory, formatted, overrun, client_scan_done}
use onboarding.Wifi.Ssids.{Ssid}
use onboarding.Wifi.State.{Stack, Wifi, set_scan_done_callback}
use onboarding.Wifi.Lifecycle.{ob_wifi_scan}
use onboarding.Web.Register.{register_web_page}
use onboarding.Web.Net.{Net}
use onboarding.Web.Page.{Page}
use onboarding.Web.Send.{sendall}
use onboarding.Web.Menu.Build.{Built, text, null, overflow, create_header200}

abbrev pub body_start : Bytes
body_start =
    codes
      "<form method=\"post\" enctype=\"text/plain\" action=\"/setwifi.html\"><div><label for=\"ssid\">Select a SSID:</label><select name=\"ssid\" id=\"ssid\"> "

abbrev pub body_tail : Bytes
body_tail =
    codes
      "</select></div><div><label for=\"pass\">Password (8 characters minimum):</label><input type=\"password\" id=\"pass\" name=\"password\" minlength=\"8\" required /></div><input type=\"submit\" value=\"Configure\" /></form></body></html>\r\n\r\n"

-- `content_wifi_body_ssid`: NULL, an allocated buffer with its text, or one that was freed.
pub data Content : Type 0 where
  nothing freed : Content
  allocated : Bytes → Content

pub record Portal : Type 0 where
  pub content : Content
  pub scan_done_sem : Bool

-- What `client_scan_done` leaves. `none`: it wrote past its buffer.
unfoldable pub left_by : ScanDone → Portal → Option Portal
left_by no_memory p = some (record p { content = nothing })
left_by (formatted t) p = some (record { content = allocated t; scan_done_sem = true })
left_by overrun p = none

abbrev pub scan_finished : Bool → List Ssid → Portal → Option Portal
scan_finished malloc items p = left_by (client_scan_done malloc items) p

module _ {C W : Type 0} (net : Net W) (pages : List (Page C)) (client : ℕ) where
  -- The four calls of `sendall`. The result of each but the last is only logged.
  unfoldable pub send_page : Bytes → Bytes → W → Option (ℤ × W)
  send_page header ssids w = sendall net client header w >>= λ (_, w1).
      sendall net client body_start w1 >>= λ (_, w2).
      sendall net client ssids w2 >>= λ (_, w3). sendall net client body_tail w3

  -- What follows the call of `CreateHeader200`
  unfoldable pub send_built : Built → Bytes → W → Option (ℤ × W)
  unfolding send_page
  send_built (text header) ssids w = send_page header ssids w
  send_built null ssids w = some (minus_one, w)
  send_built overflow ssids w = none

  -- The body of `do … while(0)`, where the buffer is there.
  unfoldable pub show_page : Bytes → W → Option (ℤ × W)
  unfolding send_built
  show_page ssids w =
      send_built
        (create_header200 pages (length body_start + length ssids + length body_tail)
          (codes "Wifi setup"))
        ssids w

  -- `display_wifi_setup_page` from where it has taken `scan_done_sem`. `none`: it reads or frees
  -- a buffer that was freed, writes past a buffer, or its `sendall` does not end.
  unfoldable pub display_wifi_setup_page : Portal → W → Option (ℤ × Portal × W)
  unfolding show_page
  display_wifi_setup_page p w = elim p.content [
    | nothing ↦ some (minus_one, record p { scan_done_sem = false }, w)
    | freed ↦ none
    | allocated ssids ↦ show_page ssids w >>= λ (rc, w').
        some (rc, record { content = freed; scan_done_sem = false }, w')
  ]

module _ {C : Type 0} where
  -- `ob_cp_init`, with whether the allocation of the page succeeds and the two callbacks; the
  -- flags are those of the captive portal and of the home page.
  unfoldable pub ob_cp_init : Bool → (display post : C) → List (Page C) → ℤ × List (Page C)
  ob_cp_init malloc display post pages =
      register_web_page malloc (codes "/setwifi.html") (codes "Wifi setup") (some display)
        (some post) 3 pages

module _ {C W : Type 0} (stack : Stack C W) where
  -- The start of `display_wifi_setup_page`: `client_scan_done` is set as the callback, and a scan
  -- is requested, whose result is not looked at.
  unfoldable pub request_networks : C → Wifi C W → Wifi C W
  unfolding ob_wifi_scan
  request_networks client_scan_done s =
      (ob_wifi_scan stack (set_scan_done_callback (some client_scan_done) s)).1
