-- ===== src/Tests/Setups.antt =====
-- A concrete form of src/ob_captive_portal.c.
use onboarding.Base.{
  ℕ, ◌≡◌, refl, true, none, [], ◌∷◌, ◌++◌, map, replicate, pos, minus_one, arith, Bytes, codes,
  length, ◌==◌, if◌then◌else◌,
}
use onboarding.Nvs.{Settings, Nvs}
use onboarding.Web.Net.{byte}
use onboarding.Web.Send.{sendall}
use onboarding.Web.Register.{display_home}
use onboarding.Web.Request.Serve.{display_404, http1_1_404}
use onboarding.Portal.Setup.{
  wifi_setup_attrib, done, post_wifi_setup_page, post_wifi_setup_page-encode,
}
use onboarding.Tests.Fixtures.{test_net, test_call}

-- The SSID cannot be stored.
abbrev test_settings : Settings Bytes
test_settings = record {
  subsys_init = λ w. w;
  load_one = λ k n w. (pos 0, []);
  save_one = λ k v w. (if length k == 12 then minus_one else pos 0, w ++ v);
  delete = λ k w. (pos 0, w);
  load_subtree_direct = λ cb w. (pos 0, w);
}

abbrev store : Nvs ℕ Bytes
store = record { nvs_data_inited = true; mirror_callback = none; world = [] }

post_wifi_setup_page_example :
    post_wifi_setup_page test_settings test_net test_call
      (λ w. 255 ∷ w)
      []
      3
      (replicate 32 9)
      (wifi_setup_attrib (replicate 65 0) (replicate 65 0))
      20
      (map byte (codes "ssid=x\r\npassword=y\r\n"))
      store
    ≡ done (pos 0) (record store { world = 255 ∷ (codes "xy" ++ http1_1_404) })
unfolding display_home display_404 sendall
post_wifi_setup_page_example =
    post_wifi_setup_page-encode test_settings test_net test_call (λ w. 255 ∷ w) [] 3 (codes "x")
      (codes "y") (replicate 65 0) (replicate 65 0) (replicate 32 9) [] store minus_one (pos 0)
      minus_one (codes "x") (codes "xy") (codes "xy" ++ http1_1_404) refl refl refl
      (((omega arith, omega arith, omega arith), tt), omega arith)
      (((omega arith, omega arith, omega arith), tt), omega arith) refl refl refl refl
