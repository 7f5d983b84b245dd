-- ===== src/Gatt/Outcome.antt =====
-- What a write of a network does, in src/ob_bluetooth_gatt.c.
use onboarding.Base.{
  ℕ, ◌≤◌, ◌<◌, ◌≡◌, refl, ap, ◌∙◌, ℤ, pos, is_zero, some, true, false, List, [], Bytes, codes, ltb,
  length, arith, IsText,
}
use onboarding.Nvs.{Settings, data_write}
use onboarding.Portal.Setup.{settings_id_wifi_ssid, settings_id_wifi_psk}
use onboarding.Wifi.State.{Stack, Wifi}
use onboarding.Wifi.Events.{Event}
use onboarding.Wifi.Connect.{returned, ob_wifi_connect}
use onboarding.Wifi.Outcome.{Refuses, ob_wifi_connect_refused}
use onboarding.Gatt.Join.{
  Gatt, Peer, wrote, fault, write_setting, keep, notify_current, joined, set_network, announce,
  ob_join_network, parsed, write_current_ap, wifi_ssid_max_len, wifi_psk_max_len,
}
use onboarding.Gatt.Buffer.{below, write_current_ap-parsed}

module _ {C D W : Type 0} (stack : Stack C W) (settings : Settings W) (peer : Peer W)
    (arrive : ℕ → List Event) (events : List Event) where
  parsed-joined :
      (len r : ℕ) (v p : Bytes) (s : Gatt C D W)
      → length v < wifi_ssid_max_len
      → length p < wifi_psk_max_len
      → parsed stack settings peer arrive events len
          (record { result = pos r; ssid = some v; passcode = some p })
          s
        ≡ joined stack settings peer
            (pos len)
            v
            p
            (announce stack settings peer v s)
            (ob_wifi_connect stack arrive events (set_network v p s.wifi))
  unfolding parsed ob_join_network
  parsed-joined len r v p s lv lp =
      rw (ltb_of v wifi_ssid_max_len lv, ltb_of p wifi_psk_max_len lp) refl
    where
      ltb_of : (t : Bytes) (n : ℕ) → length t < n → ltb (length t) n ≡ true
      ltb_of t n h = ground arith

  -- What a connection that ended leaves, when it failed and when it is there.
  joined-refused :
      (result ret : ℤ) (v p : Bytes) (s : Gatt C D W) (u : Wifi C W) (rest : List Event)
      → is_zero ret ≡ false
      → joined stack settings peer result v p s (returned ret u rest) ≡ (
          let err = peer.encode v (codes "Failed to connect.") s.current_ap_data in
          wrote result
            (record s {
              current_ap_data = err;
              wifi = record u { world = peer.notify err u.world };
            })
            rest)
  unfolding joined keep notify_current
  joined-refused result ret v p s u rest zero_not = rw (zero_not) refl

  joined-kept :
      (result : ℤ) (v p : Bytes) (s : Gatt C D W) (u : Wifi C W) (rest : List Event)
      → joined stack settings peer result v p s (returned (pos 0) u rest) ≡ (
          let w1 = (settings.save_one settings_id_wifi_ssid v u.world).1 in
          let w2 = (settings.save_one settings_id_wifi_psk p w1).1 in
          wrote result
            (record s { wifi = record u { world = peer.notify s.current_ap_data w2 } })
            rest)
  unfolding joined keep notify_current write_setting data_write
  joined-kept result v p s u rest = refl

  -- A network that the station refuses is not stored: the write reports its length, and what the
  -- attempts left is followed by one notification alone, of the text with the error.
  pub write_current_ap-refused :
      (buf v p : Bytes) (flags r : ℕ) (s : Gatt C D W)
      → IsText buf
      → length buf < length s.tmp_write_buffer
      → peer.parse buf ≡ record { result = pos r; ssid = some v; passcode = some p }
      → length v < wifi_ssid_max_len
      → length p < wifi_psk_max_len
      → Refuses stack
      → let err = peer.encode v (codes "Failed to connect.") (peer.encode v [] s.current_ap_data) in
        (ret : ℤ) × (u : Wifi C W) × (whole : Bytes) × (ob_wifi_connect stack arrive events
            (set_network v p s.wifi)
          ≡ returned ret u events)
        × (write_current_ap stack settings peer arrive events buf 0 flags s
            ≡ wrote
                (pos (length buf))
                (record s {
                  tmp_write_buffer = whole;
                  current_ap_data = err;
                  wifi = record u { world = peer.notify err u.world };
                })
                events)
  write_current_ap-refused buf v p flags r s text room read lv lp refuses =
      let (whole, written, same) =
        write_current_ap-parsed stack settings peer arrive events buf flags s text room in
      let (ret, u, tried, zero_not) =
        ob_wifi_connect_refused stack arrive events (set_network v p s.wifi) refuses in
      let t : Gatt C D W = record s { tmp_write_buffer = whole } in
      (
        ret,
        u,
        whole,
        tried,
        written
            ∙ ap (λ q. parsed stack settings peer arrive events (length buf) q t) read
            ∙ parsed-joined (length buf) r v p t lv lp
            ∙ ap
                (joined stack settings peer (pos (length buf)) v p
                  (announce stack settings peer v t))
                tried
            ∙ joined-refused (pos (length buf)) ret v p (announce stack settings peer v t) u events
                zero_not,
      )

  -- A network that the station connects to is stored, the SSID before the passcode and each
  -- under its key; the peer is then notified of the text without an error. The result of neither
  -- write is looked at.
  pub write_current_ap-kept :
      (buf v p : Bytes) (flags r : ℕ) (s : Gatt C D W) (u : Wifi C W) (rest : List Event)
      → IsText buf
      → length buf < length s.tmp_write_buffer
      → peer.parse buf ≡ record { result = pos r; ssid = some v; passcode = some p }
      → length v < wifi_ssid_max_len
      → length p < wifi_psk_max_len
      → ob_wifi_connect stack arrive events (set_network v p s.wifi) ≡ returned (pos 0) u rest
      → let w1 = (settings.save_one settings_id_wifi_ssid v u.world).1 in
        let w2 = (settings.save_one settings_id_wifi_psk p w1).1 in
        (whole : Bytes) × (write_current_ap stack settings peer arrive events buf 0 flags s
          ≡ wrote
              (pos (length buf))
              (record s {
                tmp_write_buffer = whole;
                current_ap_data = peer.encode v [] s.current_ap_data;
                wifi = record u { world = peer.notify (peer.encode v [] s.current_ap_data) w2 };
              })
              rest)
  write_current_ap-kept buf v p flags r s u rest text room read lv lp tried =
      let (whole, written, same) =
        write_current_ap-parsed stack settings peer arrive events buf flags s text room in
      let t : Gatt C D W = record s { tmp_write_buffer = whole } in
      (
        whole,
        written
            ∙ ap (λ q. parsed stack settings peer arrive events (length buf) q t) read
            ∙ parsed-joined (length buf) r v p t lv lp
            ∙ ap
                (joined stack settings peer (pos (length buf)) v p
                  (announce stack settings peer v t))
                tried
            ∙ joined-kept (pos (length buf)) v p (announce stack settings peer v t) u rest,
      )

  -- A SSID of 32 bytes or more is copied past the end of its array, though 32 bytes are what a
  -- SSID may have.
  write_current_ap_overrun :
      (buf v p : Bytes) (flags r : ℕ) (s : Gatt C D W)
      → IsText buf
      → length buf < length s.tmp_write_buffer
      → peer.parse buf ≡ record { result = pos r; ssid = some v; passcode = some p }
      → wifi_ssid_max_len ≤ length v
      → write_current_ap stack settings peer arrive events buf 0 flags s ≡ fault
  unfolding parsed ob_join_network
  write_current_ap_overrun buf v p flags r s text room read long =
      let (whole, written, same) =
        write_current_ap-parsed stack settings peer arrive events buf flags s text room in
      let t : Gatt C D W = record s { tmp_write_buffer = whole } in
      written
      ∙ ap (λ q. parsed stack settings peer arrive events (length buf) q t) read
      ∙ rw (below wifi_ssid_max_len (length v) long) refl
