-- ===== src/Wifi/Events.antt =====
-- The event handlers of src/ob_wifi.c.
use onboarding.Base.{
  ◌≡◌, refl, Bool, true, false, none, some, List, [], ◌∷◌, ℤ, is_zero, if◌then◌else◌,
}
use onboarding.Wifi.Ssids.{ScanResult, handle_wifi_scan_result}
use onboarding.Wifi.State.{Stack, Wifi, settle}
use onboarding.Wifi.Ap.{ob_wifi_ap_disable, bws_start_ap_work}

-- The network management events, with the `status->status` that the handlers read, and the run
-- of the scheduled work item.
pub data Event : Type 0 where
  scan_result : ScanResult → Event
  scan_done : Event
  connect_result : ℤ → Event
  disconnect_result : Event
  ap_enable_result : ℤ → Event
  ap_disable_result : ℤ → Event
  dhcp_bound : ℤ → Event
  address_add : Event
  ethernet : Event
  -- an event that is only logged
  other : Event
  work : Event

module _ {C W : Type 0} (stack : Stack C W) where
  unfoldable pub handle_wifi_scan_done : Wifi C W → Wifi C W
  handle_wifi_scan_done s = elim s.done_callback [
    | some callback ↦ record s { world = stack.call_done callback s.ssids s.world; ssids = [] }
    | none ↦ record s { ssids = [] }
  ]

  unfoldable pub ob_wifi_mgmt_event_handler : Event → Wifi C W → Wifi C W
  unfolding handle_wifi_scan_done
  ob_wifi_mgmt_event_handler (scan_result r) s = record s {
    ssids = handle_wifi_scan_result r s.ssids;
  }
  ob_wifi_mgmt_event_handler scan_done s = handle_wifi_scan_done s
  ob_wifi_mgmt_event_handler (connect_result status) s =
      if is_zero status
      then (let t = record s { world = stack.dhcpv4_start s.world } in
          if t.has_ap then ob_wifi_ap_disable stack t else t)
      else settle false s
  ob_wifi_mgmt_event_handler disconnect_result s = settle false s
  ob_wifi_mgmt_event_handler (ap_disable_result status) s =
      if is_zero status then record s { wifi_deinit_sem = true } else s
  ob_wifi_mgmt_event_handler _ s = s

  unfoldable pub ipv4_mgmt_event_handler : Event → Wifi C W → Wifi C W
  ipv4_mgmt_event_handler (dhcp_bound status) s = if is_zero status then settle true s else s
  ipv4_mgmt_event_handler address_add s = elim s.address_add_callback [
    | some callback ↦ record s { world = stack.call_address_add callback s.world }
    | none ↦ s
  ]
  ipv4_mgmt_event_handler _ s = s

  -- `ethernet_mgmt_event_handler` only logs.
  unfoldable pub ethernet_mgmt_event_handler : Event → Wifi C W → Wifi C W
  ethernet_mgmt_event_handler e s = s

  -- An event goes to the handler that is registered for it.
  unfoldable pub deliver : Event → Wifi C W → Wifi C W
  unfolding ob_wifi_mgmt_event_handler ipv4_mgmt_event_handler ethernet_mgmt_event_handler
  deliver (dhcp_bound status) s = ipv4_mgmt_event_handler (dhcp_bound status) s
  deliver address_add s = ipv4_mgmt_event_handler address_add s
  deliver ethernet s = ethernet_mgmt_event_handler ethernet s
  deliver work s = if s.ap_work then bws_start_ap_work stack s else s
  deliver e s = ob_wifi_mgmt_event_handler e s

  abbrev pub deliver_all : List Event → Wifi C W → Wifi C W
  deliver_all [] s = s
  deliver_all (e ∷ es) s = deliver_all es (deliver e s)

  -- `k_sem_take`: the events are handled until the semaphore that `get` reads has its token,
  -- which is taken; without one, the thread waits, or its timeout ends the wait.
  unfoldable pub take_sem :
      (get : Wifi C W → Bool) (clear : Wifi C W → Wifi C W)
      → List Event
      → Wifi C W
      → Bool × Wifi C W × List Event
  take_sem get clear [] s = if get s then (true, clear s, []) else (false, s, [])
  take_sem get clear (e ∷ es) s =
      let rest = take_sem get clear es (deliver e s) in
      if get s then (true, clear s, e ∷ es) else rest

  -- A token that is there is taken at once.
  pub take_sem-held :
      (get : Wifi C W → Bool) (clear : Wifi C W → Wifi C W) (es : List Event) (s : Wifi C W)
      → get s ≡ true
      → take_sem get clear es s ≡ (true, clear s, es)
  unfolding take_sem
  take_sem-held get clear [] s h = rw (h) refl
  take_sem-held get clear (e ∷ es) s h = rw (h) refl

  pub take_sem-next :
      (get : Wifi C W → Bool) (clear : Wifi C W → Wifi C W) (e : Event) (es : List Event)
      (s : Wifi C W)
      → get s ≡ false
      → take_sem get clear (e ∷ es) s ≡ take_sem get clear es (deliver e s)
  unfolding take_sem
  take_sem-next get clear e es s h = rw (h) refl
