-- ===== src/Tests/Restarts.antt =====
-- A concrete network that is stored and joined after a restart.
use onboarding.Gatt.Join
use onboarding.Gatt.Join.{Gatt, Written, wrote, set_network, write_current_ap}
use onboarding.Gatt.Restart.{write_current_ap-ob_wifi_init}
use onboarding.Wifi.Lifecycle.{ob_wifi_init}
use onboarding.Portal.Restart.{started_by}
use onboarding.Wifi.Mac.{ap_ssid}
use onboarding.Wifi.Events.{dhcp_bound, take_sem, deliver, ipv4_mgmt_event_handler}
use onboarding.Wifi.Connect.{returned, ob_wifi_connect, try_connect, conclude, take_connect_sem}
use onboarding.Portal.Setup.{settings_id_wifi_ssid, settings_id_wifi_psk}
use onboarding.Base.{
  some, replicate, ◌++◌, ℕ, ◌≡◌, ◌≢◌, refl, sym, ap, ◌∙◌, Bool, true, false, ◌&&◌, none, List, [],
  ◌∷◌, ℤ, pos, arith, Bytes, codes, length, if◌then◌else◌, ◌==◌, ==-refl, Bool-cases, inl, inr,
}
use onboarding.Nvs.{Settings, Nvs}
use onboarding.Web.Net.{Net}
use onboarding.Portal.Restart.{Stores}
use onboarding.Wifi.State.{Stack, Wifi}

abbrev pub bytes_eq : Bytes → Bytes → Bool
bytes_eq [] [] = true
bytes_eq [] (y ∷ b) = false
bytes_eq (x ∷ a) [] = false
bytes_eq (x ∷ a) (y ∷ b) = x == y && bytes_eq a b

bytes_eq_refl : (a : Bytes) → bytes_eq a a ≡ true
bytes_eq_refl [] = refl
bytes_eq_refl (x ∷ a) = rw (==-refl x) (bytes_eq_refl a)

bytes_eq_sound : (a b : Bytes) → bytes_eq a b ≡ true → a ≡ b
bytes_eq_sound [] [] h = refl
bytes_eq_sound [] (y ∷ b) h = cc
bytes_eq_sound (x ∷ a) [] h = cc
bytes_eq_sound (x ∷ a) (y ∷ b) h = ground (arith, bytes_eq_sound a b)

-- The saved values, the last one first.
abbrev pub Saved : Type 0
Saved = List (Bytes × Bytes)

abbrev pub value_of : Bytes → Saved → Bytes
value_of name [] = []
value_of name ((key, value) ∷ w) =
    let rest = value_of name w in if bytes_eq key name then value else rest

abbrev pub saved : Settings Saved
saved = record {
  subsys_init = λ w. w;
  load_one = λ name n w. (pos (length (value_of name w)), value_of name w);
  save_one = λ name value w. (pos 0, (name, value) ∷ w);
  delete = λ name w. (pos 0, w);
  load_subtree_direct = λ cb w. (pos 0, w);
}

abbrev reported : ℤ → Saved → ℤ × Saved
reported rc w = (rc, w)

after : (w v w' : Saved) (r : ℕ) → reported (pos 0) v ≡ (pos r, w') → v ≡ w'
after w v w' r e = cc

found : (name value : Bytes) (w : Saved) → value_of name ((name, value) ∷ w) ≡ value
found name value w = rw (bytes_eq_refl name) refl

passed :
    (name other value : Bytes) (w : Saved)
    → name ≢ other
    → value_of other ((name, value) ∷ w) ≡ value_of other w
passed name other value w ne = elim (Bool-cases (bytes_eq name other)) [
  | inl e ↦ absurd (ne (bytes_eq_sound name other e))
  | inr e ↦ rw (e) refl
]

abbrev loads : Bytes → ℤ × Bytes
loads t = (pos (length t), t)

pub saved-Stores : Stores saved
saved-Stores = record {
  loaded = λ name value n r w w' e fits.
      ap (λ u. loads (value_of name u)) (sym (after w ((name, value) ∷ w) w' r e))
      ∙ ap loads (found name value w);
  kept = λ name other value n r w w' e ne.
      ap (λ u. loads (value_of other u)) (sym (after w ((name, value) ∷ w) w' r e))
      ∙ ap loads (passed name other value w ne);
}

abbrev pub quiet_net : Net Saved
quiet_net = record { send = λ sock buf w. (pos (length buf), w); close = λ sock w. w }

abbrev pub quiet_stack : {W : Type 0} → Stack ℕ W
quiet_stack = record {
  has_sta = λ w. true;
  has_sap = λ w. true;
  request_scan = λ w. (pos 0, w);
  request_connect = λ a n p m w. (pos 0, w);
  request_disconnect = λ w. (pos 0, w);
  request_ap_enable = λ n w. (pos 0, w);
  request_ap_disable = λ w. (pos 0, w);
  dhcpv4_start = λ w. w;
  is_address = λ w. true;
  addr_add = λ w. (true, w);
  addr_rm = λ w. (true, w);
  set_netmask = λ w. (true, w);
  server_start = λ w. (pos 0, w);
  server_stop = λ w. (pos 0, w);
  set_default = λ w. w;
  sleep = λ w. w;
  call_done = λ c found w. w;
  call_address_add = λ c w. w;
}

abbrev pub fresh_in : {W : Type 0} → W → Wifi ℕ W
fresh_in w = record {
  wifi_inited = false;
  wifi_connect_status_succeded = false;
  wifi_connect_sem = false;
  wifi_ap_sem = false;
  wifi_deinit_sem = false;
  ssids = [];
  has_ap = false;
  ssid = [];
  ssid_len = pos 0;
  psk = [];
  psk_len = pos 0;
  ap_ssid = [];
  ap_work = false;
  done_callback = none;
  address_add_callback = none;
  world = w;
}

abbrev pub fresh : Wifi ℕ Saved
fresh = fresh_in []

abbrev pub empty_store : Nvs ℕ Saved
empty_store = record { nvs_data_inited = true; mirror_callback = none; world = [] }

-- A peer that writes a network
abbrev quiet_peer : Join.Peer Saved
quiet_peer = record {
  parse = λ text. record {
    result = pos 3;
    ssid = some (codes "home");
    passcode = some (codes "12345678");
  };
  encode = λ v err old. v ++ err;
  notify = λ text w. w;
  attr_read = λ n offset text. (pos 0, []);
}

abbrev gatt : Gatt ℕ ℕ Saved
gatt = record {
  wifi = record fresh { wifi_inited = true };
  nvs_data_inited = true;
  mirror_callback = none;
  current_ap_data = [];
  tmp_write_buffer = replicate 256 0;
}

abbrev joined_wifi : Wifi ℕ Saved
joined_wifi = record (set_network (codes "home") (codes "12345678") gatt.wifi) {
  wifi_connect_status_succeded = true;
}

connected :
    ob_wifi_connect quiet_stack
      (λ n. [])
      (dhcp_bound (pos 0) ∷ [])
      (set_network (codes "home") (codes "12345678") gatt.wifi)
    ≡ returned (pos 0) joined_wifi []
unfolding ob_wifi_connect try_connect conclude take_connect_sem take_sem deliver
    ipv4_mgmt_event_handler
connected = refl

peer_example :
    (t : Gatt ℕ ℕ Saved) × (write_current_ap quiet_stack saved quiet_peer
        (λ n. [])
        (dhcp_bound (pos 0) ∷ [])
        (codes "text")
        0
        0
        gatt
      ≡ wrote (pos 4) t [])
    × (t.current_ap_data ≡ codes "home")
    × (t.wifi.world
        ≡ quiet_peer.notify t.current_ap_data
            ((settings_id_wifi_psk, codes "12345678") ∷ (settings_id_wifi_ssid, codes "home") ∷ []))
    × (ob_wifi_init quiet_stack
          (codes "ob-")
          none
          (pos 0)
          (saved.load_one settings_id_wifi_ssid 32 t.wifi.world)
          (saved.load_one settings_id_wifi_psk 64 t.wifi.world)
          (λ n. [])
          (dhcp_bound (pos 0) ∷ [])
          fresh
        ≡ started_by quiet_stack (
            ob_wifi_connect quiet_stack
              (λ n. [])
              (dhcp_bound (pos 0) ∷ [])
              (record fresh {
                wifi_inited = true;
                ap_ssid = codes "ob-";
                ap_work = true;
                ssid = codes "home";
                ssid_len = pos 4;
                psk = codes "12345678";
                psk_len = pos 8;
              })))
unfolding ap_ssid
peer_example =
    write_current_ap-ob_wifi_init quiet_stack saved saved-Stores quiet_peer (λ n. [])
      (dhcp_bound (pos 0) ∷ []) (codes "text") (codes "home") (codes "12345678") 0 3 3 7 0 0 0 gatt
      joined_wifi [] ((settings_id_wifi_ssid, codes "home") ∷ [])
      ((settings_id_wifi_psk, codes "12345678") ∷ (settings_id_wifi_ssid, codes "home") ∷ [])
      (codes "ob-") (codes "ob-") none (λ n. []) (dhcp_bound (pos 0) ∷ []) fresh
      ((omega arith), ((omega arith), ((omega arith), ((omega arith), tt)))) (omega arith) refl refl
      refl (omega arith) (omega arith) connected refl refl (λ key n. refl) refl
