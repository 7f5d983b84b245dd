-- ===== src/Gatt/Restart.antt =====
-- The network of a peer of src/ob_bluetooth_gatt.c after a restart: what a write has stored is
-- what `ob_wifi_init` of src/ob_wifi.c reads and joins.
use onboarding.Base.{
  ℕ, suc, ◌<◌, ◌≡◌, refl, ap, ◌∙◌, true, Option, some, List, [], pos, arith, Bytes, length, IsText,
}
use onboarding.Nvs.{Settings}
use onboarding.Portal.Setup.{settings_id_wifi_ssid, settings_id_wifi_psk}
use onboarding.Portal.Restart.{Stores, loaded_both, started_by, ob_wifi_init-stored}
use onboarding.Wifi.Mac.{ap_ssid}
use onboarding.Wifi.State.{Stack, Wifi}
use onboarding.Wifi.Events.{Event}
use onboarding.Wifi.Connect.{returned, ob_wifi_connect}
use onboarding.Wifi.Lifecycle.{ob_wifi_init}
use onboarding.Gatt.Join.{
  Gatt, Peer, wrote, wifi_ssid_max_len, wifi_psk_max_len, set_network, write_current_ap,
}
use onboarding.Gatt.Outcome.{write_current_ap-kept}

module _ {C D W : Type 0} (stack : Stack C W) (settings : Settings W) (stores : Stores settings)
    (peer : Peer W) (arrive : ℕ → List Event) (events : List Event) where
  -- A peer writes a network with a SSID of 1 to 31 bytes and a passcode of 1 to 63, and the
  -- station connects to it. Where both values could be stored and what is stored survives the
  -- notification, the write reports its length, the peer is notified of the text without an
  -- error, and the next start of the device reads both values and hands them to
  -- `ob_wifi_connect`.
  pub write_current_ap-ob_wifi_init :
      (buf v p : Bytes) (flags r i j r0 r1 init : ℕ) (s : Gatt C D W) (u : Wifi C W)
      (rest : List Event) (w1 w2 : W) (configured name : Bytes) (linkaddr : Option Bytes)
      (next_arrive : ℕ → List Event) (next_events : List Event) (next : Wifi C W)
      → IsText buf
      → length buf < length s.tmp_write_buffer
      → peer.parse buf ≡ record { result = pos r; ssid = some v; passcode = some p }
      → length v ≡ suc i
      → length p ≡ suc j
      → length v < wifi_ssid_max_len
      → length p < wifi_psk_max_len
      → ob_wifi_connect stack arrive events (set_network v p s.wifi) ≡ returned (pos 0) u rest
      → settings.save_one settings_id_wifi_ssid v u.world ≡ (pos r0, w1)
      → settings.save_one settings_id_wifi_psk p w1 ≡ (pos r1, w2)
      → ((key : Bytes) (n : ℕ)
          → settings.load_one key n (peer.notify (peer.encode v [] s.current_ap_data) w2)
            ≡ settings.load_one key n w2)
      → ap_ssid configured linkaddr ≡ some name
      → (t : Gatt C D W) × (write_current_ap stack settings peer arrive events buf 0 flags s
          ≡ wrote (pos (length buf)) t rest)
        × (t.current_ap_data ≡ peer.encode v [] s.current_ap_data)
        × (t.wifi.world ≡ peer.notify t.current_ap_data w2)
        × (ob_wifi_init stack configured linkaddr
              (pos init)
              (settings.load_one settings_id_wifi_ssid 32 t.wifi.world)
              (settings.load_one settings_id_wifi_psk 64 t.wifi.world)
              next_arrive
              next_events
              next
            ≡ started_by stack (
                ob_wifi_connect stack next_arrive next_events (record next {
                  wifi_inited = true;
                  ap_ssid = name;
                  ap_work = true;
                  ssid = v;
                  ssid_len = pos (length v);
                  psk = p;
                  psk_len = pos (length p);
                })))
  write_current_ap-ob_wifi_init buf v p flags r i j r0 r1 init s u rest w1 w2 configured name
        linkaddr next_arrive next_events next text room read iv jp lv lp tried e0 e1 survives
        named =
      let (whole, kept) =
        write_current_ap-kept stack settings peer arrive events buf v p flags r s u rest text room
          read lv lp tried in
      let (ssid, psk) =
        loaded_both settings stores v p r0 r1 u.world w1 w2 (omega arith) (omega arith) e0 e1 in
      let t : Gatt C D W = record s {
        tmp_write_buffer = whole;
        current_ap_data = peer.encode v [] s.current_ap_data;
        wifi = record u { world = peer.notify (peer.encode v [] s.current_ap_data) w2 };
      } in
      (
        t,
        kept
            ∙ ap
                (λ w.
                  wrote (pos (length buf))
                    (record t { wifi = record u { world = peer.notify t.current_ap_data w } }) rest)
                (ap (λ w. (settings.save_one settings_id_wifi_psk p w).1) (ap (λ o. o.1) e0)
                  ∙ ap (λ o. o.1) e1),
        refl,
        refl,
        ob_wifi_init-stored stack configured name linkaddr v p i j init _ _ next_arrive next_events
            next iv jp (survives settings_id_wifi_ssid 32 ∙ ssid)
            (survives settings_id_wifi_psk 64 ∙ psk) named,
      )
