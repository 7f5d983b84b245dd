-- ===== src/Shell/Reset.antt =====
-- The command `factory_reset` of src/ob_shell.c and the next start of src/ob_wifi.c.
use onboarding.Base.{ℕ, ◌≡◌, refl, ◌∙◌, true, false, Option, some, List, ℤ, pos, is_pos, Bytes}
use onboarding.Nvs.{
  Settings, Nvs, factory_reset, data_read, Erases, AlwaysDeletes, factory_reset-is_stored,
}
use onboarding.Portal.Setup.{settings_id_wifi_ssid, settings_id_wifi_psk}
use onboarding.Portal.Restart.{ob_wifi_init-named}
use onboarding.Wifi.Mac.{ap_ssid}
use onboarding.Wifi.State.{Stack, Wifi}
use onboarding.Wifi.Events.{Event}
use onboarding.Wifi.Lifecycle.{join_network, wait_ap, ob_wifi_init}
use onboarding.Shell.Commands.{cmd_factory_reset}

-- What `settings_load_one` documents of a key that is not stored: its result is not positive.
pub record Misses {W : Type 0} (settings : Settings W) (h : Erases settings) : Type 0 where
  pub missing :
      (key : Bytes) (n : ℕ) (w : W)
      → h.is_stored key w ≡ false
      → is_pos (settings.load_one key n w).0 ≡ false

join_network-missing :
    {C W : Type 0} (stack : Stack C W) (ssid psk : ℤ × Bytes) (arrive : ℕ → List Event)
    (events : List Event) (s : Wifi C W)
    → is_pos ssid.0 ≡ false
    → join_network stack ssid psk arrive events s
      ≡ wait_ap stack events
          (record s { ssid = ssid.1; ssid_len = ssid.0; psk = psk.1; psk_len = psk.0 })
unfolding join_network
join_network-missing stack (n, v) (k, p) arrive events s h = rw (h) refl

module _ {C D W : Type 0} (settings : Settings W) (h : Erases settings) (misses : Misses settings h)
    (stack : Stack C W) where
  -- After the command has reset the store, with every deletion a success, no key is stored, and
  -- the next start of the device tries no connection: it waits for its access point.
  pub cmd_factory_reset-ob_wifi_init :
      (s : Nvs D W) (configured name : Bytes) (linkaddr : Option Bytes) (init : ℕ)
      (arrive : ℕ → List Event) (events : List Event) (wifi : Wifi C W)
      → AlwaysDeletes settings
      → ap_ssid configured linkaddr ≡ some name
      → let (rc, t) = cmd_factory_reset settings s in
        let ssid = data_read settings settings_id_wifi_ssid 32 t in
        let psk = data_read settings settings_id_wifi_psk 64 t in
        (rc ≡ pos 0)
        × ((key : Bytes) → h.is_stored key t.world ≡ false)
        × (ob_wifi_init stack configured linkaddr (pos init) ssid psk arrive events wifi
            ≡ wait_ap stack events (record wifi {
              wifi_inited = true;
              ap_ssid = name;
              ap_work = true;
              ssid = ssid.1;
              ssid_len = ssid.0;
              psk = psk.1;
              psk_len = psk.0;
            }))
  unfolding cmd_factory_reset data_read
  cmd_factory_reset-ob_wifi_init s configured name linkaddr init arrive events wifi deletes named =
      let gone = λ (key : Bytes). factory_reset-is_stored settings h s key deletes in
      let w = (factory_reset settings s).world in
      let ssid = settings.load_one settings_id_wifi_ssid 32 w in
      let psk = settings.load_one settings_id_wifi_psk 64 w in
      (
        refl,
        gone,
        ob_wifi_init-named stack configured name linkaddr init ssid psk arrive events wifi named
            ∙ join_network-missing stack ssid psk arrive events
                (record wifi { wifi_inited = true; ap_ssid = name; ap_work = true })
                (misses.missing settings_id_wifi_ssid 32 w (gone settings_id_wifi_ssid)),
      )
