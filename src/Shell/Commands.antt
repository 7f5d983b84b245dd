-- ===== src/Shell/Commands.antt =====
-- The other handlers of src/ob_shell.c, and `ob_reboot` of src/ob_reboot.c.
use onboarding.Base.{
  ℕ, ℤ, pos, negsuc, minus_one, Option, Bool, true, false, List, [], ◌∷◌, Bytes, if◌then◌else◌,
  strncpy, printed,
}
use onboarding.Nvs.{Settings, Nvs, factory_reset}
use onboarding.Ota.{Vtable, ota_reboot}
use onboarding.Wifi.State.{Stack, Wifi}
use onboarding.Wifi.Events.{Event}
use onboarding.Wifi.Ap.{ob_wifi_ap_enable, ob_wifi_ap_disable}
use onboarding.Wifi.Lifecycle.{ob_wifi_deinit}
use onboarding.Web.Life.{System, Build, Server, start_web_server, stop_web_server}

-- The interface of the device and its name, over the state `W` of the world.
pub record Interface (W : Type 0) : Type 0 where
  -- whether `net_if_get_default` gives an interface
  pub has_default : W → Bool
  -- `net_addr_pton`: whether it is an error, and the address
  pub pton : Bytes → Bool × Bytes
  -- `net_if_ipv4_addr_add`: whether it gives an address
  pub ipv4_addr_add : Bytes → W → Bool × W
  pub dhcpv4_start : W → W
  pub dhcpv4_stop : W → W
  pub hostname_set : Bytes → W → ℤ × W

module _ {W : Type 0} (interface : Interface W) where
  -- The end of `setup_iface`; EINVAL is 22.
  unfoldable pub add_address : Bool × Bytes → W → ℤ × W
  add_address (true, addr) w = (negsuc 21, w)
  add_address (false, addr) w =
      let (added, w') = interface.ipv4_addr_add addr w in
      if added then (pos 0, w') else (negsuc 21, w')

  unfoldable pub setup_iface : List Bytes → W → ℤ × W
  unfolding add_address
  setup_iface [] w = (minus_one, w)
  setup_iface (text ∷ more) w = add_address (interface.pton text) w

  unfoldable pub ob_dhcp_start : W → ℤ × W
  ob_dhcp_start w = (pos 0, if interface.has_default w then interface.dhcpv4_start w else w)

  unfoldable pub ob_dhcp_stop : W → ℤ × W
  ob_dhcp_stop w = (pos 0, if interface.has_default w then interface.dhcpv4_stop w else w)

  unfoldable pub wifi_name_handler : List Bytes → W → ℤ × W
  wifi_name_handler [] w = (pos 0, w)
  wifi_name_handler (name ∷ more) w = interface.hostname_set name w

-- The three handlers for UpdateHub, on the call that each of them makes
unfoldable pub updatehub_handler : {W : Type 0} → (call : W → ℤ × W) → W → ℤ × W
updatehub_handler call w = call w

-- WIFI_AP_ADDRESS_SIZE
abbrev pub wifi_ap_address_size : ℕ
wifi_ap_address_size = 16

-- `ap_address_handler`, on the array `wifi_ap_address`: the result, what is printed and the array
unfoldable pub ap_address_handler : List Bytes → Bytes → ℤ × Option Bytes × Bytes
ap_address_handler [] address = (pos 0, printed address, address)
ap_address_handler (text ∷ more) address =
    let set = strncpy wifi_ap_address_size text in (pos 0, printed set, set)

module _ {C W : Type 0} (stack : Stack C W) where
  -- Both branches on the number of arguments make the same call.
  unfoldable pub ob_ap_enable : List Bytes → Wifi C W → ℤ × Wifi C W
  unfolding ob_wifi_ap_enable
  ob_ap_enable [] s = (pos 0, ob_wifi_ap_enable stack s)
  ob_ap_enable (a ∷ more) s = (pos 0, ob_wifi_ap_enable stack s)

  unfoldable pub ob_ap_disable : Wifi C W → ℤ × Wifi C W
  unfolding ob_wifi_ap_disable
  ob_ap_disable s = (pos 0, ob_wifi_ap_disable stack s)

module _ {C W : Type 0} (settings : Settings W) where
  unfoldable pub ob_web_start : System W → Build → Server C W → ℤ × Server C W
  unfolding start_web_server
  ob_web_start system build s = (pos 0, start_web_server settings system build s)

  unfoldable pub cmd_factory_reset : Nvs C W → ℤ × Nvs C W
  unfolding factory_reset
  cmd_factory_reset s = (pos 0, factory_reset settings s)

-- The server and the Wi-Fi module of the device, whose worlds are the same one, that of `wifi`.
pub record Device (C D W : Type 0) : Type 0 where
  pub server : Server D W
  pub wifi : Wifi C W

-- What `ob_reboot` of the build calls: the provider of CONFIG_ONBOARDING_OTA, or both
-- CONFIG_ONBOARDING_WEB_SERVER and CONFIG_ONBOARDING_WIFI without it.
pub data Reboots (W : Type 0) : Type 0 where
  by_ota : Option (Vtable W) → Reboots W
  by_itself : Reboots W

module _ {C D W : Type 0} (system : System W) (stack : Stack C W) (sys_reboot : W → W) where
  unfoldable pub ob_web_stop : Server D W → ℤ × Server D W
  unfolding stop_web_server
  ob_web_stop s = (pos 0, stop_web_server system s)

  -- The calls before `sys_reboot`, without CONFIG_ONBOARDING_OTA
  unfoldable pub shut_down : List Event → Device C D W → Device C D W
  unfolding stop_web_server ob_wifi_deinit
  shut_down events d =
      let server =
        stop_web_server system
          (record d.server { nvs = record d.server.nvs { world = d.wifi.world } }) in
      record {
        server = server;
        wifi = ob_wifi_deinit stack events (record d.wifi { world = server.nvs.world });
      }

  -- `ob_reboot`, with the events of the time that `ob_wifi_deinit` waits
  unfoldable pub ob_reboot : Reboots W → List Event → Device C D W → Device C D W
  unfolding shut_down ota_reboot
  ob_reboot (by_ota vtable) events d = record d {
    wifi = record d.wifi { world = ota_reboot sys_reboot vtable d.wifi.world };
  }
  ob_reboot by_itself events d =
      let t = shut_down events d in
      record t { wifi = record t.wifi { world = sys_reboot t.wifi.world } }

  unfoldable pub cmd_reboot : Reboots W → List Event → Device C D W → ℤ × Device C D W
  unfolding ob_reboot
  cmd_reboot reboots events d = (pos 0, ob_reboot reboots events d)
