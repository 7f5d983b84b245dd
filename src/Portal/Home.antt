-- ===== src/Portal/Home.antt =====
-- The captive portal of src/ob_captive_portal.c in the device: its page is the one for `/`, and
-- the networks of its own scan are those that it is handed.
use onboarding.Base.{◌≡◌, refl, Bool, true, false, some, List, [], ◌∷◌, ◌++◌, map, codes}
use onboarding.Web.Page.{Page}
use onboarding.Web.Register.{register_web_page, is_registered, new_page}
use onboarding.Web.Request.Serve.{find_home}
use onboarding.Wifi.Ssids.{ScanResult, scanned}
use onboarding.Wifi.State.{Stack, Wifi, set_scan_done_callback}
use onboarding.Wifi.Events.{scan_result, scan_done, deliver_all}
use onboarding.Wifi.Scan.{scan_callback}
use onboarding.Portal.Page.{ob_cp_init, request_networks}

-- Where it could be registered, the page of the captive portal is the one that answers `/`, in
-- access point mode and out of it, whatever pages were registered before.
pub ob_cp_init-find_home :
    {C : Type 0} (has_ap : Bool) (display post : C) (pages : List (Page C))
    → is_registered (codes "/setwifi.html") pages ≡ false
    → find_home has_ap (ob_cp_init true display post pages).1
      ≡ some (new_page (codes "/setwifi.html") (codes "Wifi setup") (some display) (some post) 3)
unfolding ob_cp_init register_web_page find_home
ob_cp_init-find_home true display post pages h = rw (h) refl
ob_cp_init-find_home false display post pages h = rw (h) refl

-- The page is handed the networks of the scan that it asked for and of no other, whatever
-- callback was set and whatever networks were listed before.
pub request_networks-callback :
    {C W : Type 0} (stack : Stack C W) (callback : C) (results : List ScanResult) (s : Wifi C W)
    → s.wifi_inited ≡ true
    → deliver_all stack
        (map scan_result results ++ scan_done ∷ [])
        (request_networks stack callback s)
      ≡ record s {
        done_callback = some callback;
        ssids = [];
        world = stack.call_done callback (scanned results []) (stack.request_scan s.world).1;
      }
unfolding request_networks set_scan_done_callback
request_networks-callback stack callback results s h =
    scan_callback stack results (record s { done_callback = some callback }) callback h refl
