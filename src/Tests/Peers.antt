-- ===== src/Tests/Peers.antt =====
-- Concrete peers of src/ob_bluetooth_gatt.c and commands of src/ob_shell.c.
use onboarding.Base.{
  ℕ, ◌-◌, ◌≡◌, refl, sym, ap, true, false, none, some, List, [], ◌∷◌, ◌++◌, ℤ, pos, minus_one,
  arith, Bytes, codes, length, replicate, take, take_of_le,
}
use onboarding.Nvs.{Settings, Nvs}
use onboarding.Web.Send.{Delivered}
use onboarding.Wifi.Ssids.{Ssid}
use onboarding.Wifi.State.{Wifi}
use onboarding.Wifi.Events.{other}
use onboarding.Wifi.Connect.{returned, ob_wifi_connect}
use onboarding.Gatt.Notify
use onboarding.Gatt.Notify.{send_ap_list, Notifies, send_ap_list-Delivered}
use onboarding.Gatt.ApList.{Aps, items, Encode, ob_update_ap_list}
use onboarding.Gatt.Networks.{Encodes, ob_update_ap_list-joined}
use onboarding.Gatt.Join
use onboarding.Gatt.Join.{Gatt, Written, wrote, fault, write_current_ap, set_network}
use onboarding.Gatt.Outcome.{write_current_ap-refused}
use onboarding.Shell.Values
use onboarding.Shell.Values.{Keeps, ssid_handler, ssid_handler-set}
use onboarding.Tests.Station.{guest, stack_of, ready}

-- The world is what was notified.
abbrev notified : Notify.Peer Bytes
notified = record {
  mtu = λ w. 23;
  notify = λ chunk w. (pos 0, w ++ chunk);
  sleep = λ w. w;
  yields = λ w. w;
}

abbrev reported : ℤ → Bytes → ℤ × Bytes
reported rc w = (rc, w)

moved : (w value w' : Bytes) (k : ℕ) → reported (pos 0) (w ++ value) ≡ (pos k, w') → w' ≡ w ++ value
moved w value w' k e = cc

notified-Notifies : Notifies notified 20 (λ w. w) (λ w. 0)
notified-Notifies = record {
  queued = λ value w w' k one fits e. (moved w value w' k e, omega arith);
  no_buffer = λ value w w' e. cc;
  failed = λ value w w' e h. cc;
}

send_ap_list_example :
    (r : ℤ × Bytes) × (send_ap_list notified 27 (replicate 27 65) (codes "x") ≡ some r)
    × Delivered (λ w. w) (replicate 27 65) (codes "x") r
send_ap_list_example =
    send_ap_list-Delivered notified (λ w. w) (λ w. 0) 27 (replicate 27 65) (codes "x") (omega arith)
      (omega arith) notified-Notifies (omega arith)

abbrev object : Ssid → Bytes
object it = b'"' ∷ (it.ssid ++ b'"' ∷ [])

abbrev encode : Encode
encode secure it n = take (n - 1) (object it)

encode-Encodes : Encodes encode object
encode-Encodes = record { whole = λ it n h. take_of_le (n - 1) (object it) (omega (arith, h)) }

abbrev aps : Aps
aps = record {
  ssid_list = items (guest ∷ guest ∷ []);
  scan_semaphore = false;
  ap_list_count = 0;
  ap_list_data = codes "[]";
  most_recent_scan_time = 0;
}

update_list_example :
    ob_update_ap_list encode aps
    ≡ some
        (record aps { ap_list_count = 2; ap_list_data = codes "[\"cafe-guest\",\"cafe-guest\"]" })
update_list_example =
    ob_update_ap_list-joined encode object encode-Encodes guest (guest ∷ []) aps refl (omega arith)

-- A name in the world of ob_wifi.c
abbrev named : Bytes → Ssid
named text = record guest { ssid = text }

abbrev settings : Settings (List Ssid)
settings = record {
  subsys_init = λ w. w;
  load_one = λ k n w. (pos 0, []);
  save_one = λ k v w. (pos 0, named v ∷ w);
  delete = λ k w. (pos 0, w);
  load_subtree_direct = λ cb w. (pos 0, w);
}

abbrev peer_of : Bytes → Join.Peer (List Ssid)
peer_of ssid = record {
  parse = λ text. record { result = pos 3; ssid = some ssid; passcode = some (codes "12345678") };
  encode = λ v err old. v ++ err;
  notify = λ text w. named text ∷ w;
  attr_read = λ n offset text. (pos 0, []);
}

abbrev gatt : Gatt ℕ ℕ (List Ssid)
gatt = record {
  wifi = ready;
  nvs_data_inited = true;
  mirror_callback = none;
  current_ap_data = [];
  tmp_write_buffer = replicate 256 0;
}

write_refused_example :
    (ret : ℤ) × (u : Wifi ℕ (List Ssid)) × (whole : Bytes) × (ob_wifi_connect
        (stack_of minus_one)
        (λ n. [])
        (other ∷ [])
        (set_network (codes "home") (codes "12345678") ready)
      ≡ returned ret u (other ∷ []))
    × (write_current_ap
          (stack_of minus_one)
          settings
          (peer_of (codes "home"))
          (λ n. [])
          (other ∷ [])
          (codes "home")
          0
          0
          gatt
        ≡ wrote
            (pos 4)
            (record gatt {
              tmp_write_buffer = whole;
              current_ap_data = codes "homeFailed to connect.";
              wifi = record u { world = named (codes "homeFailed to connect.") ∷ u.world };
            })
            (other ∷ []))
write_refused_example =
    write_current_ap-refused (stack_of minus_one) settings (peer_of (codes "home")) (λ n. [])
      (other ∷ []) (codes "home") (codes "home") (codes "12345678") 0 3 gatt
      ((omega arith), ((omega arith), ((omega arith), ((omega arith), tt)))) (omega arith) refl
      (omega arith) (omega arith) (λ a n p m w. refl)

-- The store holds the last value that was saved.
abbrev last : Settings Bytes
last = record {
  subsys_init = λ w. w;
  load_one = λ k n w. (pos (length w), w);
  save_one = λ k v w. (pos 0, v);
  delete = λ k w. (pos 0, w);
  load_subtree_direct = λ cb w. (pos 0, w);
}

held : (v w w' : Bytes) (r : ℕ) → reported (pos 0) v ≡ (pos r, w') → v ≡ w'
held v w w' r e = cc

last-Keeps : Keeps last
last-Keeps = record {
  loaded = λ name value n r w w' e fits.
      ap {A = Bytes} (λ t. reported (pos (length t)) t) (sym (held value w w' r e));
}

abbrev empty_store : Nvs ℕ Bytes
empty_store = record { nvs_data_inited = false; mirror_callback = none; world = [] }

ssid_handler_example :
    (t : Nvs ℕ Bytes) × (ssid_handler last (codes "home" ∷ []) empty_store
      ≡ Values.returned (pos 0) none t)
    × (ssid_handler last [] t ≡ Values.returned (pos 4) (some (codes "home")) t)
ssid_handler_example =
    ssid_handler-set last last-Keeps (codes "home") 0 3 empty_store (codes "home") refl refl
      (omega arith) ((omega arith), ((omega arith), ((omega arith), ((omega arith), tt))))
