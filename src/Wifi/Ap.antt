-- ===== src/Wifi/Ap.antt =====
-- The device's access point, src/ob_wifi.c: `ob_wifi_ap_disable`, `ob_wifi_ap_enable` and
-- `_ob_wifi_ap_enable`.
use onboarding.Base.{true, false, not, is_neg, if◌then◌else◌}
use onboarding.Wifi.State.{Stack, Wifi}

module _ {C W : Type 0} (stack : Stack C W) where
  unfoldable pub ob_wifi_ap_disable : Wifi C W → Wifi C W
  ob_wifi_ap_disable s =
      if not (stack.is_address s.world)
      then s
      else let w1 = (stack.addr_rm s.world).1 in
        let w2 = (stack.server_stop w1).1 in
        let (rc, w) = stack.request_ap_disable w2 in
        if is_neg rc
        then record s { world = w }
        else record s { world = w; wifi_deinit_sem = true; wifi_ap_sem = true }

  -- It schedules the work item.
  unfoldable pub ob_wifi_ap_enable : Wifi C W → Wifi C W
  ob_wifi_ap_enable s = record s { ap_work = true }

  -- `_ob_wifi_ap_enable`, from its request on
  unfoldable pub start_ap : Wifi C W → Wifi C W
  start_ap s =
      let (rc, w) = stack.request_ap_enable s.ap_ssid s.world in
      if is_neg rc
      then record s { world = w }
      else let (started, w') = stack.server_start w in
        if is_neg started
        then record s { world = w' }
        else record s { world = w'; has_ap = true; wifi_ap_sem = true }

  -- `_ob_wifi_ap_enable`, which `bws_start_ap_work` calls
  unfoldable pub bws_start_ap_work : Wifi C W → Wifi C W
  unfolding start_ap
  bws_start_ap_work t =
      let s = record t { ap_work = false } in
      if not (stack.has_sap s.world)
      then s
      else if not (stack.is_address s.world)
      then s
      else let (added, w1) = stack.addr_add s.world in
        if not added
        then record s { world = w1 }
        else let (masked, w2) = stack.set_netmask w1 in
          if not masked then record s { world = w2 } else start_ap (record s { world = w2 })
