-- ===== src/Wifi/Connect.antt =====
-- The connection to the configured network, `ob_wifi_connect` of src/ob_wifi.c. Events that
-- arrive while the thread sleeps or waits are handled as they come.
use onboarding.Base.{
  ℕ, zero, suc, Bool, false, not, List, ℤ, pos, minus_one, is_zero, if◌then◌else◌,
}
use onboarding.Wifi.State.{Stack, Wifi}
use onboarding.Wifi.Events.{Event, deliver_all, take_sem}

-- `nr_tries`
abbrev pub nr_tries : ℕ
nr_tries = 20

-- The call returned, or its thread still waits for `wifi_connect_sem`.
pub data Connected (C W : Type 0) : Type 0 where
  returned : ℤ → Wifi C W → List Event → Connected C W
  waiting : Wifi C W → Connected C W

module _ {C W : Type 0} (stack : Stack C W) where
  -- The request loop, with the tries left and the last result. The events `arrive n` are
  -- handled in the sleep that leaves n tries.
  unfoldable pub try_connect : ℕ → (ℕ → List Event) → ℤ → Wifi C W → ℤ × Wifi C W
  try_connect zero arrive ret s = (ret, s)
  try_connect (suc n) arrive ret s =
      let (r, w) = stack.request_connect s.ssid s.ssid_len s.psk s.psk_len s.world in
      let rest =
        try_connect n arrive r
          (deliver_all stack (arrive n) (record s { world = stack.sleep w })) in
      if is_zero r then (r, record s { world = w }) else rest

  -- The end of `ob_wifi_connect`
  unfoldable pub conclude : ℤ → Wifi C W → List Event → Connected C W
  conclude ret s events =
      if s.wifi_connect_status_succeded
      then returned ret (record s { world = stack.set_default s.world }) events
      else returned minus_one s events

  -- `k_sem_take(&wifi_connect_sem, K_FOREVER)`
  unfoldable pub take_connect_sem : List Event → Wifi C W → Bool × Wifi C W × List Event
  take_connect_sem events s =
      take_sem stack (λ t. t.wifi_connect_sem) (λ t. record t { wifi_connect_sem = false }) events s

  unfoldable pub ob_wifi_connect : (ℕ → List Event) → List Event → Wifi C W → Connected C W
  unfolding conclude take_connect_sem
  ob_wifi_connect arrive events s =
      if not (stack.has_sta s.world)
      then returned minus_one s events
      else if not s.wifi_inited
      then returned minus_one s events
      else let (ret, t) = try_connect nr_tries arrive (pos 0) s in
        if is_zero ret
        then (let (taken, u, rest) = take_connect_sem events t in
            if taken then conclude ret u rest else waiting u)
        else conclude ret t events
