-- ===== src/Wifi/Outcome.antt =====
-- How `ob_wifi_connect` of src/ob_wifi.c ends.
use onboarding.Base.{
  ℕ, zero, suc, ◌≡◌, refl, ◌∙◌, Bool, true, false, Option, none, some, List, [], ◌∷◌, ◌++◌, inl,
  inr, ℤ, pos, minus_one, is_zero, arith, All, if◌then◌else◌, Bool-cases, Bytes,
}
use onboarding.Wifi.State.{Stack, Wifi, settle}
use onboarding.Wifi.Ap.{ob_wifi_ap_disable, bws_start_ap_work, start_ap}
use onboarding.Wifi.Events.{
  Event, scan_result, scan_done, connect_result, disconnect_result, ap_enable_result,
  ap_disable_result, dhcp_bound, address_add, ethernet, other, work, handle_wifi_scan_done,
  ob_wifi_mgmt_event_handler, ipv4_mgmt_event_handler, ethernet_mgmt_event_handler, deliver,
  take_sem-held, take_sem-next,
}
use onboarding.Wifi.Connect.{
  nr_tries, returned, try_connect, conclude, take_connect_sem, ob_wifi_connect,
}

-- How an event settles a connection: it succeeded, it failed, or neither.
abbrev pub settles : Event → Option Bool
settles (dhcp_bound status) = if is_zero status then some true else none
settles (connect_result status) = if is_zero status then none else some false
settles disconnect_result = some false
settles _ = none

-- Neither the token of `wifi_connect_sem` nor the flag it goes with changes.
abbrev Same : {C W : Type 0} → Wifi C W → Wifi C W → Type 0
Same t s =
    (t.wifi_connect_sem ≡ s.wifi_connect_sem)
    × (t.wifi_connect_status_succeded ≡ s.wifi_connect_status_succeded)

module _ {C W : Type 0} (stack : Stack C W) where
  ap_disable-Same : (s : Wifi C W) → Same (ob_wifi_ap_disable stack s) s
  unfolding ob_wifi_ap_disable
  ap_disable-Same s = ground arith

  ap_work-Same : (s : Wifi C W) → Same (bws_start_ap_work stack s) s
  unfolding bws_start_ap_work start_ap
  ap_work-Same s = ground arith

  deliver_quiet : (e : Event) (s : Wifi C W) → settles e ≡ none → Same (deliver stack e s) s
  unfolding deliver ob_wifi_mgmt_event_handler ipv4_mgmt_event_handler ethernet_mgmt_event_handler
      handle_wifi_scan_done
  deliver_quiet (scan_result r) s h = (refl, refl)
  deliver_quiet scan_done s h = ground arith
  deliver_quiet (connect_result status) s h =
      ground (arith, ap_disable-Same (record s { world = stack.dhcpv4_start s.world }))
  deliver_quiet disconnect_result s h = cc
  deliver_quiet (ap_enable_result status) s h = (refl, refl)
  deliver_quiet (ap_disable_result status) s h = ground arith
  deliver_quiet (dhcp_bound status) s h = ground arith
  deliver_quiet address_add s h = ground arith
  deliver_quiet ethernet s h = (refl, refl)
  deliver_quiet other s h = (refl, refl)
  deliver_quiet work s h = ground (arith, ap_work-Same s)

  deliver-settles :
      (e : Event) (s : Wifi C W) (b : Bool)
      → settles e ≡ some b
      → ((deliver stack e s).wifi_connect_sem ≡ true)
        × ((deliver stack e s).wifi_connect_status_succeded ≡ b)
  unfolding deliver ob_wifi_mgmt_event_handler ipv4_mgmt_event_handler
  deliver-settles (connect_result status) s b h = ground arith
  deliver-settles disconnect_result s b h = ground arith
  deliver-settles (dhcp_bound status) s b h = ground arith
  deliver-settles (scan_result r) s b h = cc
  deliver-settles scan_done s b h = cc
  deliver-settles (ap_enable_result status) s b h = cc
  deliver-settles (ap_disable_result status) s b h = cc
  deliver-settles address_add s b h = cc
  deliver-settles ethernet s b h = cc
  deliver-settles other s b h = cc
  deliver-settles work s b h = cc

  take_connect_sem-first :
      (quiet : List Event) (e : Event) (rest : List Event) (s : Wifi C W) (b : Bool)
      → s.wifi_connect_sem ≡ false
      → All (λ q. settles q ≡ none) quiet
      → settles e ≡ some b
      → (t : Wifi C W) × (take_connect_sem stack (quiet ++ e ∷ rest) s ≡ (true, t, rest))
        × (t.wifi_connect_status_succeded ≡ b)
  unfolding take_connect_sem
  take_connect_sem-first [] e rest s b h q d =
      let after = deliver-settles e s b d in
      (
        record (deliver stack e s) { wifi_connect_sem = false },
        take_sem-next stack _ _ e rest s h
            ∙ take_sem-held stack _ _ rest (deliver stack e s) after.0,
        after.1,
      )
  take_connect_sem-first (x ∷ quiet) e rest s b h q d =
      let (t, p, r) =
        take_connect_sem-first quiet e rest (deliver stack x s) b ((deliver_quiet x s q.0).0 ∙ h)
          q.1 d in
      (t, take_sem-next stack _ _ x (quiet ++ e ∷ rest) s h ∙ p, r)

  -- The code of a connection that ended so.
  abbrev pub code_of : Bool → ℤ
  code_of b = if b then pos 0 else minus_one

  conclude_lem :
      (b : Bool) (t : Wifi C W) (rest : List Event)
      → t.wifi_connect_status_succeded ≡ b
      → (u : Wifi C W) × (conclude stack (pos 0) t rest ≡ returned (code_of b) u rest)
        × (u.wifi_connect_status_succeded ≡ b)
  unfolding conclude
  conclude_lem true t rest h = (record t { world = stack.set_default t.world }, rw (h) refl, h)
  conclude_lem false t rest h = (t, rw (h) refl, h)

  ob_wifi_connect-tried :
      (arrive : ℕ → List Event) (events rest : List Event) (s t u : Wifi C W)
      → stack.has_sta s.world ≡ true
      → s.wifi_inited ≡ true
      → try_connect stack nr_tries arrive (pos 0) s ≡ (pos 0, t)
      → take_connect_sem stack events t ≡ (true, u, rest)
      → ob_wifi_connect stack arrive events s ≡ conclude stack (pos 0) u rest
  unfolding ob_wifi_connect
  ob_wifi_connect-tried arrive events rest s t u sta inited tried p =
      rw (sta, tried, p, inited) refl

  try_connect-accepted :
      (n : ℕ) (arrive : ℕ → List Event) (ret : ℤ) (s : Wifi C W)
      → (stack.request_connect s.ssid s.ssid_len s.psk s.psk_len s.world).0 ≡ pos 0
      → try_connect stack (suc n) arrive ret s ≡ (
        pos 0,
        record s { world = (stack.request_connect s.ssid s.ssid_len s.psk s.psk_len s.world).1 },
      )
  unfolding try_connect
  try_connect-accepted n arrive ret s h = rw (h) refl

  -- When a connect request is accepted and no token is left, `ob_wifi_connect` waits for the
  -- first event that settles the connection and for no later one: it returns 0 when that is a
  -- DHCP binding, and -1 when it is a failed connection or a disconnection.
  pub ob_wifi_connect_first :
      (arrive : ℕ → List Event) (s t : Wifi C W) (quiet : List Event) (e : Event)
      (rest : List Event) (b : Bool)
      → stack.has_sta s.world ≡ true
      → s.wifi_inited ≡ true
      → try_connect stack nr_tries arrive (pos 0) s ≡ (pos 0, t)
      → t.wifi_connect_sem ≡ false
      → All (λ q. settles q ≡ none) quiet
      → settles e ≡ some b
      → (u : Wifi C W) × (ob_wifi_connect stack arrive (quiet ++ e ∷ rest) s
          ≡ returned (code_of b) u rest)
        × (u.wifi_connect_status_succeded ≡ b)
  ob_wifi_connect_first arrive s t quiet e rest b sta inited tried h q d =
      let (u, p, r) = take_connect_sem-first quiet e rest t b h q d in
      let (v, o, f) = conclude_lem b u rest r in
      (v, ob_wifi_connect-tried arrive (quiet ++ e ∷ rest) rest s t u sta inited tried p ∙ o, f)

  -- A disconnection that nobody waits for leaves its token: the next `ob_wifi_connect` fails at
  -- once, though its request is accepted, and waits for no event.
  pub ob_wifi_connect_stale :
      (arrive : ℕ → List Event) (events : List Event) (s : Wifi C W)
      → stack.has_sta s.world ≡ true
      → s.wifi_inited ≡ true
      → (stack.request_connect s.ssid s.ssid_len s.psk s.psk_len s.world).0 ≡ pos 0
      → (u : Wifi C W) × (ob_wifi_connect stack arrive events (deliver stack disconnect_result s)
          ≡ returned minus_one u events)
  unfolding conclude take_connect_sem deliver ob_wifi_mgmt_event_handler
  ob_wifi_connect_stale arrive events s sta inited accepted =
      let w = (stack.request_connect s.ssid s.ssid_len s.psk s.psk_len s.world).1 in
      let t : Wifi C W = record (settle false s) { world = w } in
      let u : Wifi C W = record t { wifi_connect_sem = false } in
      (
        u,
        ob_wifi_connect-tried arrive events events (settle false s) t u sta inited
            (try_connect-accepted 19 arrive (pos 0) (settle false s) accepted)
            (take_sem-held stack _ _ events t refl),
      )

  -- No request is accepted.
  abbrev pub Refuses : Type 0
  Refuses =
      (a : Bytes) (n : ℤ) (p : Bytes) (m : ℤ) (w : W)
      → is_zero (stack.request_connect a n p m w).0 ≡ false

  try_connect-refused :
      (n : ℕ) (arrive : ℕ → List Event) (ret : ℤ) (s : Wifi C W)
      → Refuses
      → is_zero ret ≡ false
      → is_zero (try_connect stack n arrive ret s).0 ≡ false
  unfolding try_connect
  try_connect-refused zero arrive ret s h e = e
  try_connect-refused (suc n) arrive ret s h e =
      let refused = h s.ssid s.ssid_len s.psk s.psk_len s.world in
      rw (refused) (try_connect-refused n arrive _ _ h refused)

  try_connect-all :
      (arrive : ℕ → List Event) (s : Wifi C W)
      → Refuses
      → is_zero (try_connect stack nr_tries arrive (pos 0) s).0 ≡ false
  unfolding try_connect
  try_connect-all arrive s h =
      let refused = h s.ssid s.ssid_len s.psk s.psk_len s.world in
      rw (refused) (
        try_connect-refused 19 arrive
          (stack.request_connect s.ssid s.ssid_len s.psk s.psk_len s.world).0 _ h refused)

  conclude-refused :
      (ret : ℤ) (t : Wifi C W) (events : List Event)
      → is_zero ret ≡ false
      → (r : ℤ) × (u : Wifi C W) × (conclude stack ret t events ≡ returned r u events)
        × (is_zero r ≡ false)
  unfolding conclude
  conclude-refused ret t events h = elim (Bool-cases t.wifi_connect_status_succeded) [
    | inl e ↦ (ret, record t { world = stack.set_default t.world }, rw (e) refl, h)
    | inr e ↦ (minus_one, t, rw (e) refl, refl)
  ]

  -- When no request is accepted, `ob_wifi_connect` gives up after its tries without waiting,
  -- and does not return 0.
  pub ob_wifi_connect_refused :
      (arrive : ℕ → List Event) (events : List Event) (s : Wifi C W)
      → Refuses
      → (r : ℤ) × (u : Wifi C W) × (ob_wifi_connect stack arrive events s ≡ returned r u events)
        × (is_zero r ≡ false)
  unfolding ob_wifi_connect
  ob_wifi_connect_refused arrive events s h = elim (Bool-cases (stack.has_sta s.world)) [
    | inr e ↦ (minus_one, s, rw (e) refl, refl)
    | inl e ↦ elim (Bool-cases s.wifi_inited) [
      | inr i ↦ (minus_one, s, rw (e, i) refl, refl)
      | inl i ↦
          let tried = try_connect stack nr_tries arrive (pos 0) s in
          let refused = try_connect-all arrive s h in
          let (r, u, p, q) = conclude-refused tried.0 tried.1 events refused in
          (r, u, simp (e, i, refused) p, q)
    ]
  ]
