-- ===== src/Wifi/Scan.antt =====
-- What a scan of src/ob_wifi.c hands to its callback.
use onboarding.Base.{
  ◌≡◌, refl, ap, ◌∙◌, true, not, none, some, List, [], ◌∷◌, ◌++◌, map, ℤ, pos, minus_one,
  if◌then◌else◌,
}
use onboarding.Wifi.Ssids.{ScanResult, scanned, handle_wifi_scan_result}
use onboarding.Wifi.State.{Stack, Wifi}
use onboarding.Wifi.Events.{
  Event, scan_result, scan_done, handle_wifi_scan_done, ob_wifi_mgmt_event_handler, deliver,
  deliver_all,
}
use onboarding.Wifi.Lifecycle.{ob_wifi_scan}

module _ {C W : Type 0} (stack : Stack C W) where
  deliver_results :
      (results : List ScanResult) (s : Wifi C W)
      → deliver_all stack (map scan_result results) s ≡ record s { ssids = scanned results s.ssids }
  unfolding deliver ob_wifi_mgmt_event_handler
  deliver_results [] s = refl
  deliver_results (r ∷ results) s =
      deliver_results results (record s { ssids = handle_wifi_scan_result r s.ssids })

  deliver_all-append :
      (es fs : List Event) (s : Wifi C W)
      → deliver_all stack (es ++ fs) s ≡ deliver_all stack fs (deliver_all stack es s)
  deliver_all-append [] fs s = refl
  deliver_all-append (e ∷ es) fs s = deliver_all-append es fs (deliver stack e s)

  handle_wifi_scan_done-some :
      (s : Wifi C W) (callback : C)
      → s.done_callback ≡ some callback
      → handle_wifi_scan_done stack s
        ≡ record s { ssids = []; world = stack.call_done callback s.ssids s.world }
  unfolding handle_wifi_scan_done
  handle_wifi_scan_done-some s callback h =
      ap
        (λ o. elim o as (λ _. Wifi C W) [
          | some c ↦ record s { world = stack.call_done c s.ssids s.world; ssids = [] }
          | none ↦ record s { ssids = [] }
        ])
        h

  scan_started :
      (s : Wifi C W)
      → s.wifi_inited ≡ true
      → (ob_wifi_scan stack s).1 ≡ record s { ssids = []; world = (stack.request_scan s.world).1 }
  unfolding ob_wifi_scan
  scan_started s h =
      ap
        (λ b.
          (if◌then◌else◌ {A = ℤ × Wifi C W} (not b) (minus_one, s)
            (pos 0, record s { ssids = []; world = (stack.request_scan s.world).1 })).1)
        h

  -- A scan of an initialised module hands to its callback the networks of this scan alone,
  -- whatever an earlier scan left in the list, and leaves the list empty.
  pub scan_callback :
      (results : List ScanResult) (s : Wifi C W) (callback : C)
      → s.wifi_inited ≡ true
      → s.done_callback ≡ some callback
      → deliver_all stack (map scan_result results ++ scan_done ∷ []) (ob_wifi_scan stack s).1
        ≡ record s {
          ssids = [];
          world = stack.call_done callback (scanned results []) (stack.request_scan s.world).1;
        }
  unfolding deliver ob_wifi_mgmt_event_handler
  scan_callback results s callback inited set =
      let t : Wifi C W = record s { ssids = []; world = (stack.request_scan s.world).1 } in
      ap (deliver_all stack (map scan_result results ++ scan_done ∷ [])) (scan_started s inited)
      ∙ deliver_all-append (map scan_result results) (scan_done ∷ []) t
      ∙ ap (handle_wifi_scan_done stack) (deliver_results results t)
      ∙ handle_wifi_scan_done-some (record t { ssids = scanned results [] }) callback set
