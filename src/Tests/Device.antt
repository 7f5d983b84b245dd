-- ===== src/Tests/Device.antt =====
-- Concrete runs of src/ob_nvs_data.c, src/ob_bluetooth.c, src/ob_ota.c and
-- src/ob_captive_portal.c.
use onboarding.Base.{
  ℕ, ◌≡◌, refl, Bool, true, false, none, [], ◌∷◌, ◌++◌, pos, arith, Bytes, codes, if◌then◌else◌,
  ◌==◌, ap,
}
use onboarding.Nvs.{Settings, Nvs, Erases, Listed, here, visit}
use onboarding.Shell.Commands.{cmd_factory_reset}
use onboarding.Shell.Reset.{Misses, cmd_factory_reset-ob_wifi_init}
use onboarding.Portal.Setup.{settings_id_wifi_ssid, settings_id_wifi_psk}
use onboarding.Wifi.Mac.{ap_ssid}
use onboarding.Wifi.Lifecycle.{ob_wifi_init, wait_ap}
use onboarding.Tests.Restarts.{quiet_stack, fresh_in}
use onboarding.Nvs.{data_read}
use onboarding.Bluetooth.Runs.{
  work, enabled, closed, Log, called, logged, advertises, starts, run, started, run-advertises,
  run-early,
}
use onboarding.Bluetooth.{adv_start, Ble, ble_disconnected, ble_waiting, work_rounds}

-- A store that keeps one key or none.
abbrev one_key : Settings Bool
one_key = record {
  subsys_init = λ w. w;
  load_one = λ k n w. (pos 0, []);
  save_one = λ k b w. (pos 0, true);
  delete = λ k w. (pos 0, false);
  load_subtree_direct = λ cb w. visit cb (if w then codes "k" ∷ [] else []) w;
}

abbrev stored_key : Bytes → Bool → Bool
stored_key [] w = false
stored_key (x ∷ []) w = if x == 107 then w else false
stored_key (x ∷ y ∷ k) w = false

key : (x : ℕ) → (if x == 107 then true else false) ≡ true → x ≡ 107
key x e = ground arith

removed_key : (k : Bytes) → stored_key k false ≡ false
removed_key [] = refl
removed_key (x ∷ []) = ground arith
removed_key (x ∷ y ∷ k) = refl

only : (j : Bytes) (w : Bool) → stored_key j w ≡ true → Listed j (if w then codes "k" ∷ [] else [])
only [] w e = cc
only (x ∷ []) true e = here (ap (λ t. t ∷ []) (key x e))
only (x ∷ []) false e = cc (removed_key (x ∷ []))
only (x ∷ y ∷ k) w e = cc

one_key-Erases : Erases one_key
one_key-Erases = record {
  keys = λ w. if w then codes "k" ∷ [] else [];
  is_stored = stored_key;
  listed = only;
  visits = λ cb w. refl;
  removed = λ k w. removed_key k;
  kept = λ k j w e. cc (removed_key j);
}

abbrev stored : Nvs ℕ Bool
stored = record { nvs_data_inited = true; mirror_callback = none; world = true }

abbrev asleep : Ble Log
asleep = record { ble_state = ble_disconnected; ble_work = false; world = [] }

run-advertises_example :
    let t =
      work_rounds logged 4
        (run (work ∷ enabled (pos 0) ∷ closed ∷ work ∷ closed ∷ []) (started asleep)) in
    (t.ble_state ≡ ble_waiting) × (t.ble_work ≡ false) × (advertises t.world ≡ true)
run-advertises_example =
    run-advertises (work ∷ enabled (pos 0) ∷ closed ∷ work ∷ closed ∷ []) asleep

run-early_example :
    (later : Log) × ((run (work ∷ enabled (pos 0) ∷ work ∷ []) (started asleep)).world
      ≡ later ++ called adv_start ∷ [])
    × (starts later ≡ 0)
run-early_example = run-early (enabled (pos 0) ∷ work ∷ []) asleep (refl, (refl, tt))

one_key-Misses : Misses one_key one_key-Erases
one_key-Misses = record { missing = λ key n w e. refl }

reset_example :
    let (rc, t) = cmd_factory_reset one_key stored in
    let ssid = data_read one_key settings_id_wifi_ssid 32 t in
    let psk = data_read one_key settings_id_wifi_psk 64 t in
    (rc ≡ pos 0)
    × ((key : Bytes) → one_key-Erases.is_stored key t.world ≡ false)
    × (ob_wifi_init quiet_stack (codes "ob-") none (pos 0) ssid psk (λ n. []) [] (fresh_in true)
        ≡ wait_ap quiet_stack [] (record (fresh_in true) {
          wifi_inited = true;
          ap_ssid = codes "ob-";
          ap_work = true;
          ssid = ssid.1;
          ssid_len = ssid.0;
          psk = psk.1;
          psk_len = psk.0;
        }))
unfolding ap_ssid
reset_example =
    cmd_factory_reset-ob_wifi_init one_key one_key-Erases one_key-Misses quiet_stack stored
      (codes "ob-") (codes "ob-") none 0 (λ n. []) [] (fresh_in true) (λ k w. refl) refl
