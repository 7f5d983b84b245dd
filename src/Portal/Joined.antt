-- ===== src/Portal/Joined.antt =====
-- A network from the form of src/ob_captive_portal.c to the connection of src/ob_wifi.c: the
-- request, the store, and the restart.
use onboarding.Base.{
  ℕ, suc, ◌≤◌, ◌≡◌, refl, sym, ap, ◌∙◌, Bool, true, false, Option, some, List, ◌++◌, map, ℤ, pos,
  minus_one, is_neg, Bytes, length,
}
use onboarding.Nvs.{Settings, Nvs, data_read}
use onboarding.Web.Net.{Net, Recv, byte}
use onboarding.Web.Page.{Page}
use onboarding.Web.Register.{display_home}
use onboarding.Web.Post.Form.{encode}
use onboarding.Web.Request.FileName.{post_method}
use onboarding.Web.Request.Head.{Head, Why, initial, left, read_head}
use onboarding.Web.Request.Serve.{
  Call, Handled, handled, find_page, set_content_length, client_conn_handler,
}
use onboarding.Web.Request.Replies.{IsRequest, Understood, sent, understood, post_page_good}
use onboarding.Portal.Setup.{
  settings_id_wifi_ssid, settings_id_wifi_psk, wifi_setup_attrib, setup_form, IsValue,
  save_values-stored, post_wifi_setup_page-encode, save_values,
}
use onboarding.Portal.Restart.{Stores, started_by, save_values-ob_wifi_init}
use onboarding.Wifi.Mac.{ap_ssid}
use onboarding.Wifi.State.{Stack, Wifi}
use onboarding.Wifi.Events.{Event}
use onboarding.Wifi.Connect.{ob_wifi_connect}
use onboarding.Wifi.Lifecycle.{ob_wifi_init}
use onboarding.Portal.Request.{
  Callback, post_setup, Site, ran, after_setup, site_net, settled, run_callback, pages_for,
  handle_request,
}

-- The request of a browser that posts the form
abbrev pub form_request :
    (p version : Bytes) (ls : List Bytes) (v w : Bytes) → List Recv → List Recv
form_request p version ls v w rest =
    sent post_method p version ls (map byte (encode (setup_form v w)) ++ rest)

-- What is known of a head that was understood as a POST
pages_for-post :
    {A : Type 0} (h : Head) (n : ℕ) (p : Bytes) (pages : List (Page (Callback A)))
    → Understood post_method p n h
    → pages_for h pages ≡ set_content_length n p pages
pages_for-post h n p pages u = rw (u.type_is, u.file_is, u.length_is) refl

module _ {A D W : Type 0} (settings : Settings W) (net : Net W) (call : Call (Callback A) W)
    (reboot : W → W) (stack : Bytes) (b0 b1 : Bytes) (has_ap : Bool)
    (pages : List (Page (Callback A))) (client : ℕ) where
  -- Behind a head that was read, the request is handled as the model of the handler says.
  handle_request-read :
      (reports rest : List Recv) (h : Head) (n : ℕ) (p : Bytes) (d : Site D W)
      (r : Handled (Callback A) (Site D W)) {why : Why}
      → read_head initial reports ≡ left why h rest
      → Understood post_method p n h
      → client_conn_handler
          (site_net net)
          (run_callback settings net call reboot stack
            (wifi_setup_attrib b0 b1)
            (set_content_length n p pages)
            rest)
          has_ap
          pages
          client
          reports
          d
        ≡ r
      → handle_request settings net call reboot stack
          (wifi_setup_attrib b0 b1)
          has_ap
          pages
          client
          reports
          d
        ≡ settled r
  unfolding handle_request
  handle_request-read reports rest h n p d r read u e =
      let attrs = wifi_setup_attrib b0 b1 in
      rw (read, handle_request)
        (ap
            (λ ps. settled (
              client_conn_handler (site_net net)
                (run_callback settings net call reboot stack attrs ps rest) has_ap pages client
                reports d))
            (pages_for-post h n p pages u)
          ∙ ap settled e)

  -- A POST of the form to the page of the captive portal, received byte by byte: the two values
  -- are stored, the home page is shown, the device reboots and the connection ends.
  handle_request-stored :
      (p version : Bytes) (ls : List Bytes) (v w : Bytes) (rest : List Recv) (s : Nvs D W)
      (r0 r1 shown : ℤ) (w1 w2 w3 : W) {page : Page (Callback A)}
      → length b0 ≡ 65
      → length b1 ≡ 65
      → length stack ≡ 32
      → IsValue v
      → IsValue w
      → IsRequest post_method p version ls (length (encode (setup_form v w)))
      → find_page p pages ≡ some page
      → page.post_callback ≡ some post_setup
      → settings.save_one settings_id_wifi_ssid v s.world ≡ (r0, w1)
      → settings.save_one settings_id_wifi_psk w w1 ≡ (r1, w2)
      → is_neg r1 ≡ false
      → display_home net call
          (set_content_length (length (encode (setup_form v w))) p pages)
          client
          w2
        ≡ some (shown, w3)
      → handle_request settings net call reboot stack
          (wifi_setup_attrib b0 b1)
          has_ap
          pages
          client
          (form_request p version ls v w rest)
          (record { nvs = s; progress = ran })
        ≡ handled (record {
          pages = set_content_length (length (encode (setup_form v w))) p pages;
          sock = minus_one;
          in_use = false;
          world = record {
            nvs = record s { world = net.close client (reboot w3) };
            progress = ran;
          };
        })
  unfolding run_callback
  handle_request-stored p version ls v w rest s r0 r1 shown w1 w2 w3 {page} l0 l1 l hv hw q found
        has e0 e1 good home =
      let n = length (encode (setup_form v w)) in
      let body = map byte (encode (setup_form v w)) ++ rest in
      let pages' = set_content_length n p pages in
      let d : Site D W = record { nvs = s; progress = ran } in
      let attrs = wifi_setup_attrib b0 b1 in
      let (h, read, u) = understood post_method p version ls n body q in
      handle_request-read _ body h n p d _ read u (
        post_page_good (site_net net)
          (run_callback settings net call reboot stack attrs pages' body) has_ap pages client p
          version ls n body d (record d { nvs = record s { world = reboot w3 } }) {page = page}
          {cb = post_setup} {rc = r1} q found has
          (ap (λ o. after_setup o d)
            (post_wifi_setup_page-encode settings net call reboot pages' client v w b0 b1 stack rest
              s r0 r1 shown w1 w2 w3 l0 l1 l hv hw e0 e1 good home))
          good)

module _ {A D W : Type 0} (settings : Settings W) (stores : Stores settings) (net : Net W)
    (call : Call (Callback A) W) (reboot : W → W) (stack : Bytes) (b0 b1 : Bytes) (has_ap : Bool)
    (pages : List (Page (Callback A))) (client : ℕ) where
  read_after :
      (name v w : Bytes) (n : ℕ) (s : Nvs D W) (r0 r1 : ℤ) (w1 w2 w4 : W)
      → settings.save_one settings_id_wifi_ssid v s.world ≡ (r0, w1)
      → settings.save_one settings_id_wifi_psk w w1 ≡ (r1, w2)
      → settings.load_one name n w4 ≡ settings.load_one name n w2
      → data_read settings name n (record s { world = w4 })
        ≡ data_read settings name n (save_values settings net call reboot pages client v w s).1
  unfolding data_read
  read_after name v w n s r0 r1 w1 w2 w4 e0 e1 same =
      same
      ∙ ap (λ o. settings.load_one name n o.1.world)
          (sym (save_values-stored settings net call reboot pages client v w s r0 r1 w1 w2 e0 e1))

  -- From the browser to the station: a form with a SSID of 1 to 32 bytes and a password of 1 to
  -- 64, posted to the page of the captive portal and received byte by byte. Where both values
  -- could be stored and what is stored survives the home page, the reboot and the closing of the
  -- socket, the connection ends, and the next start of the device reads both values and hands
  -- them to `ob_wifi_connect`.
  pub handle_request-ob_wifi_init :
      (p version : Bytes) (ls : List Bytes) (v w : Bytes) (rest : List Recv) (s : Nvs D W)
      (i j init r0 r1 : ℕ) (shown : ℤ) (w1 w2 w3 : W) {E : Type 0} (wifi_stack : Stack E W)
      (configured name : Bytes) (linkaddr : Option Bytes) (arrive : ℕ → List Event)
      (events : List Event) (wifi : Wifi E W) {page : Page (Callback A)}
      → length b0 ≡ 65
      → length b1 ≡ 65
      → length stack ≡ 32
      → IsValue v
      → IsValue w
      → length v ≡ suc i
      → length w ≡ suc j
      → length v ≤ 32
      → IsRequest post_method p version ls (length (encode (setup_form v w)))
      → find_page p pages ≡ some page
      → page.post_callback ≡ some post_setup
      → settings.save_one settings_id_wifi_ssid v s.world ≡ (pos r0, w1)
      → settings.save_one settings_id_wifi_psk w w1 ≡ (pos r1, w2)
      → display_home net call
          (set_content_length (length (encode (setup_form v w))) p pages)
          client
          w2
        ≡ some (shown, w3)
      → ((key : Bytes) (n : ℕ)
          → settings.load_one key n (net.close client (reboot w3)) ≡ settings.load_one key n w2)
      → ap_ssid configured linkaddr ≡ some name
      → (t : Nvs D W) × (handle_request settings net call reboot stack
            (wifi_setup_attrib b0 b1)
            has_ap
            pages
            client
            (form_request p version ls v w rest)
            (record { nvs = s; progress = ran })
          ≡ handled (record {
            pages = set_content_length (length (encode (setup_form v w))) p pages;
            sock = minus_one;
            in_use = false;
            world = record { nvs = t; progress = ran };
          }))
        × (ob_wifi_init wifi_stack configured linkaddr
              (pos init)
              (data_read settings settings_id_wifi_ssid 32 t)
              (data_read settings settings_id_wifi_psk 64 t)
              arrive
              events
              wifi
            ≡ started_by wifi_stack (
                ob_wifi_connect wifi_stack arrive events (record wifi {
                  wifi_inited = true;
                  ap_ssid = name;
                  ap_work = true;
                  ssid = v;
                  ssid_len = pos (length v);
                  psk = w;
                  psk_len = pos (length w);
                })))
  handle_request-ob_wifi_init p version ls v w rest s i j init r0 r1 shown w1 w2 w3 wifi_stack
        configured name linkaddr arrive events wifi l0 l1 l hv hw iv jw fits q found has e0 e1 home
        survives named =
      let w4 = net.close client (reboot w3) in
      let again = λ (key : Bytes) (n : ℕ).
        read_after key v w n s (pos r0) (pos r1) w1 w2 w4 e0 e1 (survives key n) in
      let t : Nvs D W = record s { world = w4 } in
      let u = (save_values settings net call reboot pages client v w s).1 in
      (
        t,
        handle_request-stored settings net call reboot stack b0 b1 has_ap pages client p version ls
            v w rest s (pos r0) (pos r1) shown w1 w2 w3 l0 l1 l hv hw q found has e0 e1 refl home,
        ap
              (λ o.
                ob_wifi_init wifi_stack configured linkaddr (pos init) o
                  (data_read settings settings_id_wifi_psk 64 t) arrive events wifi)
              (again settings_id_wifi_ssid 32)
            ∙ ap
                (λ o.
                  ob_wifi_init wifi_stack configured linkaddr (pos init)
                    (data_read settings settings_id_wifi_ssid 32 u) o arrive events wifi)
                (again settings_id_wifi_psk 64)
            ∙ save_values-ob_wifi_init settings net call reboot pages client stores wifi_stack
                configured name linkaddr v w i j init r0 r1 arrive events s w1 w2 wifi iv jw fits
                hw.1 e0 e1 named,
      )
