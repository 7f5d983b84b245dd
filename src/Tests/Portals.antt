-- ===== src/Tests/Portals.antt =====
-- Concrete pages of src/ob_captive_portal.c.
use onboarding.Base.{
  ℕ, ◌≡◌, ◌==◌, if◌then◌else◌, refl, true, false, some, [], ◌∷◌, ◌++◌, pos, arith, Bytes, codes,
  length,
}
use onboarding.Portal.{client_scan_done, scan_text, scan_len, option}
use onboarding.Portal.Page.{freed, allocated, left_by, display_wifi_setup_page}
use onboarding.Portal.Shown.{form_of, display_wifi_setup_page_whole}
use onboarding.Portal.Race.{
  Pages, outside, waits, shows, Run, UsesFreed, requests, scans, takes, OrderlyRun, start, and_then,
  booted, orderly_pages, second_page-UsesFreed,
}
use onboarding.Web.Menu.Build.{menu_start, menu_end}
use onboarding.Web.Menu.Sizes.{menu_elems, menu_fits}
use onboarding.Web.Menu.Header.{declares, body}
use onboarding.Tests.Fixtures.{test_net, test_net-Sends, test_page}
use onboarding.Tests.Station.{guest}

abbrev menu : Bytes
menu = menu_start ++ (menu_elems (test_page ∷ []) ++ menu_end)

whole_example :
    (w' : Bytes) × (display_wifi_setup_page test_net
        (test_page ∷ [])
        3
        (record { content = allocated (codes "<option>"); scan_done_sem = true })
        (codes "x")
      ≡ some (pos 0, record { content = freed; scan_done_sem = false }, w'))
    × (w'
        ≡ codes "x"
          ++ (declares (length (body (codes "Wifi setup") menu ++ form_of (codes "<option>")))
              ++ (body (codes "Wifi setup") menu ++ form_of (codes "<option>"))))
whole_example =
    display_wifi_setup_page_whole test_net (test_page ∷ []) 3 (λ w. w) test_net-Sends
      (codes "<option>") menu true (codes "x") (λ buf w. refl)
      (menu_fits (test_page ∷ []) (omega arith)) (omega arith) (omega arith)

-- One page, behind its scan
abbrev shown : Pages
shown = record {
  portal = record { content = allocated (scan_text (guest ∷ [])); scan_done_sem = false };
  place = λ u. if u == 3 then shows else if u == 3 then waits else outside;
}

shown_run : OrderlyRun booted shown
unfolding client_scan_done left_by scan_text option scan_len
shown_run =
    and_then
      (and_then (and_then start (requests 3 refl) tt)
        (scans true (guest ∷ [])
          (record { content = allocated (scan_text (guest ∷ [])); scan_done_sem = true }) refl)
        (λ t e. ground arith))
      (takes 3 refl refl) tt

orderly_pages_example :
    ((t : ℕ) → ¬ UsesFreed shown t)
    × ((t u : ℕ) → shown.place t ≡ shows → shown.place u ≡ shows → t ≡ u)
orderly_pages_example = orderly_pages shown shown_run

abbrev two_wait : Pages
two_wait = record { portal = booted.portal; place = λ u. waits }

second_page_example : (v : Pages) × Run two_wait v × UsesFreed v 1
second_page_example = second_page-UsesFreed two_wait 0 1 guest guest [] [] refl refl refl
