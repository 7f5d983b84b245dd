-- ===== src/Wifi/AccessPoint.antt =====
-- The flag and the semaphore of the device's access point, src/ob_wifi.c.
use onboarding.Base.{
  ℕ, ◌≡◌, refl, ◌∙◌, Bool, true, false, Option, some, List, [], ◌∷◌, ℤ, pos, is_neg, is_pos, arith,
  Bytes, if◌then◌else◌,
}
use onboarding.Wifi.Mac.{ap_ssid}
use onboarding.Wifi.State.{Stack, Wifi}
use onboarding.Wifi.Ap.{ob_wifi_ap_disable, ob_wifi_ap_enable, bws_start_ap_work, start_ap}
use onboarding.Wifi.Events.{
  Event, connect_result, work, handle_wifi_scan_done, ob_wifi_mgmt_event_handler,
  ipv4_mgmt_event_handler, ethernet_mgmt_event_handler, deliver, deliver_all, take_sem,
  take_sem-held, take_sem-next,
}
use onboarding.Wifi.Lifecycle.{started, wait_ap, join_network, ob_wifi_init, ob_wifi_deinit}

module _ {C W : Type 0} (stack : Stack C W) where
  ap_disable-has_ap : (s : Wifi C W) → (ob_wifi_ap_disable stack s).has_ap ≡ s.has_ap
  unfolding ob_wifi_ap_disable
  ap_disable-has_ap s = ground arith

  deliver-has_ap : (e : Event) (s : Wifi C W) → s.has_ap ≡ true → (deliver stack e s).has_ap ≡ true
  unfolding deliver ob_wifi_mgmt_event_handler ipv4_mgmt_event_handler ethernet_mgmt_event_handler
      handle_wifi_scan_done bws_start_ap_work start_ap
  deliver-has_ap (connect_result status) s h =
      ground (arith, ap_disable-has_ap (record s { world = stack.dhcpv4_start s.world }))
  deliver-has_ap e s h = ground arith

  take_sem-has_ap :
      (get : Wifi C W → Bool) (clear : Wifi C W → Wifi C W) (es : List Event) (s : Wifi C W)
      → ((t : Wifi C W) → (clear t).has_ap ≡ t.has_ap)
      → s.has_ap ≡ true
      → (take_sem stack get clear es s).1.has_ap ≡ true
  unfolding take_sem
  take_sem-has_ap get clear [] s c h = ground (arith, c s, h)
  take_sem-has_ap get clear (e ∷ es) s c h =
      ground (arith, c s, take_sem-has_ap get clear es (deliver stack e s) c (deliver-has_ap e s h))

  deliver_all-has_ap :
      (es : List Event) (s : Wifi C W) → s.has_ap ≡ true → (deliver_all stack es s).has_ap ≡ true
  deliver_all-has_ap [] s h = h
  deliver_all-has_ap (e ∷ es) s h = deliver_all-has_ap es (deliver stack e s) (deliver-has_ap e s h)

  if_disabled-has_ap :
      (b : Bool) (t : Wifi C W) → (if b then ob_wifi_ap_disable stack t else t).has_ap ≡ t.has_ap
  if_disabled-has_ap true t = ap_disable-has_ap t
  if_disabled-has_ap false t = refl

  deinit-has_ap :
      (es : List Event) (s : Wifi C W) → s.has_ap ≡ true → (ob_wifi_deinit stack es s).has_ap ≡ true
  unfolding ob_wifi_deinit
  deinit-has_ap es s h =
      let t : Wifi C W = record s { wifi_deinit_sem = false } in
      let u : Wifi C W = if t.has_ap then ob_wifi_ap_disable stack t else t in
      take_sem-has_ap _ _ es (record u { world = (stack.request_disconnect u.world).1 }) (λ _. refl)
        (if_disabled-has_ap t.has_ap t ∙ h)

  -- Once the access point has started, `ob_wifi_HasAP` answers true for ever: no event clears
  -- the flag, nor does disabling the access point, nor the shutdown.
  pub has_ap_stays :
      (events : List Event) (s : Wifi C W)
      → s.has_ap ≡ true
      → ((deliver_all stack events s).has_ap ≡ true)
        × ((ob_wifi_ap_disable stack s).has_ap ≡ true)
        × ((ob_wifi_deinit stack events s).has_ap ≡ true)
  has_ap_stays events s h =
      (deliver_all-has_ap events s h, ap_disable-has_ap s ∙ h, deinit-has_ap events s h)

  -- The calls that start the access point succeed.
  abbrev pub Starts : Type 0
  Starts =
      (w : W)
      → (stack.has_sap w ≡ true)
        × (stack.is_address w ≡ true)
        × ((stack.addr_add w).0 ≡ true)
        × ((stack.set_netmask w).0 ≡ true)
        × ((n : Bytes) → is_neg (stack.request_ap_enable n w).0 ≡ false)
        × (is_neg (stack.server_start w).0 ≡ false)

  start_ap_lem :
      (s : Wifi C W)
      → Starts
      → ((start_ap stack s).wifi_ap_sem ≡ true) × ((start_ap stack s).has_ap ≡ true)
  unfolding start_ap
  start_ap_lem s h =
      let (_, _, _, _, on, _) = h s.world in
      let (_, _, _, _, _, up) = h (stack.request_ap_enable s.ap_ssid s.world).1 in
      rw (on s.ap_ssid, up) (refl, refl)

  bws_start_ap_work_lem :
      (s : Wifi C W)
      → Starts
      → ((bws_start_ap_work stack s).wifi_ap_sem ≡ true)
        × ((bws_start_ap_work stack s).has_ap ≡ true)
  unfolding bws_start_ap_work
  bws_start_ap_work_lem s h =
      let (sap, address, added, _, _, _) = h s.world in
      let (_, _, _, masked, _, _) = h (stack.addr_add s.world).1 in
      rw (sap, address, added, masked) (start_ap_lem _ h)

  bws_start_ap_work-ap_ssid : (s : Wifi C W) → (bws_start_ap_work stack s).ap_ssid ≡ s.ap_ssid
  unfolding bws_start_ap_work start_ap
  bws_start_ap_work-ap_ssid s = ground arith

  -- `wifi_ap_sem` is given when the access point starts: with no stored SSID, `ob_wifi_init`
  -- returns 0 as soon as the scheduled start of its own access point has succeeded, and does
  -- not wait for the network to be configured. The access point has the name that is made of the
  -- configured one and the link address.
  pub ob_wifi_init_released :
      (configured name : Bytes) (linkaddr : Option Bytes) (ssid psk : ℤ × Bytes)
      (arrive : ℕ → List Event) (rest : List Event) (s : Wifi C W)
      → ap_ssid configured linkaddr ≡ some name
      → is_pos ssid.0 ≡ false
      → s.wifi_ap_sem ≡ false
      → Starts
      → (t : Wifi C W) × (ob_wifi_init stack configured linkaddr
            (pos 0)
            ssid
            psk
            arrive
            (work ∷ rest)
            s
          ≡ started (pos 0) t rest)
        × (t.has_ap ≡ true)
        × (t.ap_ssid ≡ name)
  unfolding ob_wifi_init join_network wait_ap ob_wifi_ap_enable deliver
  ob_wifi_init_released configured name linkaddr ssid psk arrive rest s named unset untaken starts =
      let t : Wifi C W = record s {
        wifi_inited = true;
        ap_work = true;
        ap_ssid = name;
        ssid = ssid.1;
        ssid_len = ssid.0;
        psk = psk.1;
        psk_len = psk.0;
      } in
      let (given, up) = bws_start_ap_work_lem t starts in
      let u : Wifi C W = bws_start_ap_work stack t in
      (
        record u { wifi_ap_sem = false },
        rw
            (
              named,
              unset,
              take_sem-next stack (λ t. t.wifi_ap_sem) (λ t. record t { wifi_ap_sem = false }) work
                  rest t untaken,
              take_sem-held stack (λ t. t.wifi_ap_sem) (λ t. record t { wifi_ap_sem = false }) rest
                  u given,
            )
            refl,
        up,
        bws_start_ap_work-ap_ssid t,
      )
