-- ===== src/Tests/Browsers.antt =====
-- A concrete browser that posts the form of src/ob_captive_portal.c.
use onboarding.Base.{
  ℕ, ◌≡◌, refl, true, false, none, some, List, [], ◌∷◌, pos, minus_one, arith, Bytes, codes,
  replicate,
}
use onboarding.Nvs.{Nvs, data_read}
use onboarding.Web.Page.{Page}
use onboarding.Web.Register.{display_home}
use onboarding.Web.Request.Serve.{Call, handled, find_page, set_content_length}
use onboarding.Web.Request.Length.{length_bytes, length_byte}
use onboarding.Web.Request.FileName.{post_method}
use onboarding.Web.Request.Replies.{IsRequest}
use onboarding.Portal.Setup.{settings_id_wifi_ssid, settings_id_wifi_psk, wifi_setup_attrib}
use onboarding.Portal.Restart.{started_by}
use onboarding.Portal.Request.{Callback, post_setup, other, ran, handle_request}
use onboarding.Portal.Joined.{form_request, handle_request-ob_wifi_init}
use onboarding.Wifi.Mac.{ap_ssid}
use onboarding.Wifi.Events.{dhcp_bound}
use onboarding.Wifi.Connect.{ob_wifi_connect}
use onboarding.Wifi.Lifecycle.{ob_wifi_init}
use onboarding.Tests.Fixtures.{line_bytes, path_bytes}
use onboarding.Tests.Restarts.{
  Saved, saved, saved-Stores, quiet_net, quiet_stack, fresh, empty_store,
}

abbrev setup_page : Page (Callback ℕ)
setup_page = record {
  pathname = codes "/setwifi.html";
  title = codes "Wifi setup";
  flags = 3;
  content_length = 0;
  get_callback = some (other 7);
  post_callback = some post_setup;
}

abbrev silent_call : Call (Callback ℕ) Saved
silent_call cb client page w = (pos 0, w)

abbrev lines : List Bytes
lines = codes "Content-Length: 30" ∷ []

is_form : IsRequest post_method (codes "/setwifi.html") (codes "HTTP/1.1") lines 30
unfolding length_bytes length_byte
is_form = record {
  lines = (
    (λ e. cc, line_bytes (codes "POST /setwifi.html HTTP/1.1") refl),
    ((λ e. cc, line_bytes (codes "Content-Length: 30") refl), tt),
  );
  path = path_bytes (codes "/setwifi.html") refl;
  ne_nil = λ e. cc;
  fits = omega arith;
  state = record { do_get_length = false; length = 30; ct_index = 0 };
  reads = refl;
  length_is = refl;
}

stored_example :
    (t : Nvs ℕ Saved) × (handle_request saved quiet_net silent_call
        (λ w. w)
        (replicate 32 9)
        (wifi_setup_attrib (replicate 65 0) (replicate 65 0))
        true
        (setup_page ∷ [])
        3
        (form_request
          (codes "/setwifi.html")
          (codes "HTTP/1.1")
          lines
          (codes "home")
          (codes "12345678")
          [])
        (record { nvs = empty_store; progress = ran })
      ≡ handled (record {
        pages = set_content_length 30 (codes "/setwifi.html") (setup_page ∷ []);
        sock = minus_one;
        in_use = false;
        world = record { nvs = t; progress = ran };
      }))
    × (ob_wifi_init quiet_stack
          (codes "ob-")
          none
          (pos 0)
          (data_read saved settings_id_wifi_ssid 32 t)
          (data_read saved settings_id_wifi_psk 64 t)
          (λ n. [])
          (dhcp_bound (pos 0) ∷ [])
          fresh
        ≡ started_by quiet_stack (
            ob_wifi_connect quiet_stack
              (λ n. [])
              (dhcp_bound (pos 0) ∷ [])
              (record fresh {
                wifi_inited = true;
                ap_ssid = codes "ob-";
                ap_work = true;
                ssid = codes "home";
                ssid_len = pos 4;
                psk = codes "12345678";
                psk_len = pos 8;
              })))
unfolding find_page set_content_length display_home ap_ssid
stored_example =
    handle_request-ob_wifi_init saved saved-Stores quiet_net silent_call (λ w. w) (replicate 32 9)
      (replicate 65 0) (replicate 65 0) true (setup_page ∷ []) 3 (codes "/setwifi.html")
      (codes "HTTP/1.1") lines (codes "home") (codes "12345678") [] empty_store 3 7 0 0 0 (pos 0)
      ((settings_id_wifi_ssid, codes "home") ∷ [])
      ((settings_id_wifi_psk, codes "12345678") ∷ (settings_id_wifi_ssid, codes "home") ∷ [])
      ((settings_id_wifi_psk, codes "12345678") ∷ (settings_id_wifi_ssid, codes "home") ∷ [])
      quiet_stack (codes "ob-") (codes "ob-") none (λ n. []) (dhcp_bound (pos 0) ∷ []) fresh refl
      refl refl (omega arith) (omega arith) refl refl (omega arith) is_form refl refl refl refl refl
      (λ key n. refl) refl
