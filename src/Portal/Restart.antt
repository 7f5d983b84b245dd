-- ===== src/Portal/Restart.antt =====
-- The network of the form of src/ob_captive_portal.c after a restart: what the store keeps is
-- what `ob_wifi_init` of src/ob_wifi.c reads and joins.
use onboarding.Base.{
  ℕ, suc, ◌≤◌, ◌≡◌, ◌≢◌, refl, ap, ◌∙◌, true, Option, some, List, ℤ, pos, is_pos, arith, Bytes,
  length,
}
use onboarding.Nvs.{Settings, Nvs, data_read, data_write}
use onboarding.Web.Net.{Net}
use onboarding.Web.Page.{Page}
use onboarding.Web.Request.Serve.{Call}
use onboarding.Portal.Setup.{settings_id_wifi_ssid, settings_id_wifi_psk, save_values}
use onboarding.Wifi.Mac.{ap_ssid}
use onboarding.Wifi.State.{Stack, Wifi}
use onboarding.Wifi.Ap.{ob_wifi_ap_enable}
use onboarding.Wifi.Events.{Event}
use onboarding.Wifi.Connect.{Connected, returned, waiting, ob_wifi_connect}
use onboarding.Wifi.Lifecycle.{Started, started, waits, join_network, ob_wifi_init}

-- What the settings subsystem documents of the values that were saved: loading the key gives
-- the value, and other keys keep theirs.
pub record Stores {W : Type 0} (settings : Settings W) : Type 0 where
  pub loaded :
      (name value : Bytes) (n r : ℕ) (w w' : W)
      → settings.save_one name value w ≡ (pos r, w')
      → length value ≤ n
      → settings.load_one name n w' ≡ (pos (length value), value)
  pub kept :
      (name other value : Bytes) (n r : ℕ) (w w' : W)
      → settings.save_one name value w ≡ (pos r, w')
      → name ≢ other
      → settings.load_one other n w' ≡ settings.load_one other n w

keys_differ : settings_id_wifi_psk ≢ settings_id_wifi_ssid
keys_differ e = omega (arith, ap length e)

is_pos-pos : (m n : ℕ) → m ≡ suc n → is_pos (pos m) ≡ true
is_pos-pos m n h = ground arith

module _ {C W : Type 0} (stack : Stack C W) where
  -- The end of `ob_wifi_init` behind a connection
  abbrev pub started_by : Connected C W → Started C W
  started_by (returned ret u rest) = started (pos 0) u rest
  started_by (waiting u) = waits u

  join_network-read :
      (v p : Bytes) (n k : ℕ) (arrive : ℕ → List Event) (events : List Event) (s : Wifi C W)
      → length v ≡ suc n
      → length p ≡ suc k
      → join_network stack (pos (length v), v) (pos (length p), p) arrive events s
        ≡ started_by (
            ob_wifi_connect stack arrive events
              (record s { ssid = v; ssid_len = pos (length v); psk = p; psk_len = pos (length p) }))
  unfolding join_network
  join_network-read v p n k arrive events s lv lp =
      rw (is_pos-pos (length v) n lv, is_pos-pos (length p) k lp) refl

  pub ob_wifi_init-named :
      (configured name : Bytes) (linkaddr : Option Bytes) (init : ℕ) (ssid psk : ℤ × Bytes)
      (arrive : ℕ → List Event) (events : List Event) (wifi : Wifi C W)
      → ap_ssid configured linkaddr ≡ some name
      → ob_wifi_init stack configured linkaddr (pos init) ssid psk arrive events wifi
        ≡ join_network stack ssid psk arrive events
            (record wifi { wifi_inited = true; ap_ssid = name; ap_work = true })
  unfolding ob_wifi_init ob_wifi_ap_enable
  ob_wifi_init-named configured name linkaddr init ssid psk arrive events wifi named =
      rw (named) refl

  -- What is read of a network is what `ob_wifi_connect` is handed.
  pub ob_wifi_init-stored :
      (configured name : Bytes) (linkaddr : Option Bytes) (v p : Bytes) (n k init : ℕ)
      (ssid psk : ℤ × Bytes) (arrive : ℕ → List Event) (events : List Event) (wifi : Wifi C W)
      → length v ≡ suc n
      → length p ≡ suc k
      → ssid ≡ (pos (length v), v)
      → psk ≡ (pos (length p), p)
      → ap_ssid configured linkaddr ≡ some name
      → ob_wifi_init stack configured linkaddr (pos init) ssid psk arrive events wifi
        ≡ started_by (
            ob_wifi_connect stack arrive events (record wifi {
              wifi_inited = true;
              ap_ssid = name;
              ap_work = true;
              ssid = v;
              ssid_len = pos (length v);
              psk = p;
              psk_len = pos (length p);
            }))
  ob_wifi_init-stored configured name linkaddr v p n k init ssid psk arrive events wifi ev ep es eq
        named =
      ap (λ o. ob_wifi_init stack configured linkaddr (pos init) o psk arrive events wifi) es
      ∙ ap
          (λ o.
            ob_wifi_init stack configured linkaddr (pos init) (pos (length v), v) o arrive events
              wifi)
          eq
      ∙ ob_wifi_init-named configured name linkaddr init (pos (length v), v) (pos (length p), p)
          arrive events wifi named
      ∙ join_network-read v p n k arrive events
          (record wifi { wifi_inited = true; ap_ssid = name; ap_work = true }) ev ep

-- Both values are there behind the two writes.
pub loaded_both :
    {W : Type 0} (settings : Settings W)
    → Stores settings
    → (v p : Bytes) (r0 r1 : ℕ) (w w1 w2 : W) → length v ≤ 32
    → length p ≤ 64
    → settings.save_one settings_id_wifi_ssid v w ≡ (pos r0, w1)
    → settings.save_one settings_id_wifi_psk p w1 ≡ (pos r1, w2)
    → (settings.load_one settings_id_wifi_ssid 32 w2 ≡ (pos (length v), v))
      × (settings.load_one settings_id_wifi_psk 64 w2 ≡ (pos (length p), p))
loaded_both settings stores v p r0 r1 w w1 w2 lv lp e0 e1 = (
  stores.kept settings_id_wifi_psk settings_id_wifi_ssid p 32 r1 w1 w2 e1 keys_differ
      ∙ stores.loaded settings_id_wifi_ssid v 32 r0 w w1 e0 lv,
  stores.loaded settings_id_wifi_psk p 64 r1 w1 w2 e1 lp,
)

module _ {C D W : Type 0} (settings : Settings W) (net : Net W) (call : Call C W) (reboot : W → W)
    (pages : List (Page C)) (client : ℕ) (stores : Stores settings) where
  -- Both values are there behind the two writes.
  read_back :
      (v p : Bytes) (s : Nvs D W) (r0 r1 : ℕ) (w1 w2 : W)
      → length v ≤ 32
      → length p ≤ 64
      → settings.save_one settings_id_wifi_ssid v s.world ≡ (pos r0, w1)
      → settings.save_one settings_id_wifi_psk p w1 ≡ (pos r1, w2)
      → let t = (save_values settings net call reboot pages client v p s).1 in
        (data_read settings settings_id_wifi_ssid 32 t ≡ (pos (length v), v))
        × (data_read settings settings_id_wifi_psk 64 t ≡ (pos (length p), p))
  unfolding save_values data_write data_read
  read_back v p s r0 r1 w1 w2 lv lp e0 e1 =
      rw (e0, e1) (loaded_both settings stores v p r0 r1 s.world w1 w2 lv lp e0 e1)

  -- A SSID of 1 to 32 bytes and a password of 1 to 64 bytes that the form has stored are those
  -- that the device joins with when it starts again: `ob_wifi_init` reads them and hands them to
  -- `ob_wifi_connect`, once the start of its access point is scheduled.
  pub save_values-ob_wifi_init :
      {E : Type 0} (stack : Stack E W) (configured name : Bytes) (linkaddr : Option Bytes)
      (v p : Bytes) (n k init r0 r1 : ℕ) (arrive : ℕ → List Event) (events : List Event)
      (s : Nvs D W) (w1 w2 : W) (wifi : Wifi E W)
      → length v ≡ suc n
      → length p ≡ suc k
      → length v ≤ 32
      → length p ≤ 64
      → settings.save_one settings_id_wifi_ssid v s.world ≡ (pos r0, w1)
      → settings.save_one settings_id_wifi_psk p w1 ≡ (pos r1, w2)
      → ap_ssid configured linkaddr ≡ some name
      → let t = (save_values settings net call reboot pages client v p s).1 in
        ob_wifi_init stack configured linkaddr
          (pos init)
          (data_read settings settings_id_wifi_ssid 32 t)
          (data_read settings settings_id_wifi_psk 64 t)
          arrive
          events
          wifi
        ≡ started_by stack (
            ob_wifi_connect stack arrive events (record wifi {
              wifi_inited = true;
              ap_ssid = name;
              ap_work = true;
              ssid = v;
              ssid_len = pos (length v);
              psk = p;
              psk_len = pos (length p);
            }))
  save_values-ob_wifi_init stack configured name linkaddr v p n k init r0 r1 arrive events s w1 w2
        wifi ev ep lv lp e0 e1 named =
      let (ssid, psk) = read_back v p s r0 r1 w1 w2 lv lp e0 e1 in
      ob_wifi_init-stored stack configured name linkaddr v p n k init _ _ arrive events wifi ev ep
        ssid psk named
