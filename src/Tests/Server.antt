-- ===== src/Tests/Server.antt =====
-- Concrete forms, pages and connections for src/ob_web_server.c.
use onboarding.Base.{
  ℕ, ◌≡◌, refl, ◌+◌, true, false, none, some, List, [], ◌∷◌, ◌++◌, map, replicate, pos, minus_one,
  arith, Bytes, codes, length, All,
}
use onboarding.Web.Net.{byte, again}
use onboarding.Web.Post.Rounds.{Attribute, process_post, returned, find_attribute}
use onboarding.Web.Post.Fields.{IsField, process_post-encode}
use onboarding.Web.Register.{register_web_page, IsDistinct, is_registered, register-IsDistinct}
use onboarding.Web.Request.ContentLength.{value_from}
use onboarding.Web.Menu.Build.{
  create_menu, create_header200, text, overflow, menu_start, menu_end, decimal,
}
use onboarding.Web.Menu.Sizes.{menu_elems, menu_fits, menu_overflow}
use onboarding.Web.Menu.Header.{declares, body, header_complete}
use onboarding.Web.Slots.{Listener, Accept, process_tcp, Taken, process_tcp-Taken}
use onboarding.Tests.Fixtures.{test_net, test_page}

abbrev ssid_attribute : Attribute
ssid_attribute = record { name = codes "ssid"; length = 4; valuebuffer = replicate 65 0 }

abbrev form : List (Bytes × Bytes)
form = (codes "ssid", codes "x") ∷ []

form_fields : All (IsField (ssid_attribute ∷ [])) form
unfolding find_attribute
form_fields = (
  record {
    name_bytes = (
      (omega arith, omega arith, omega arith, omega arith),
      (
        (omega arith, omega arith, omega arith, omega arith),
        (
          (omega arith, omega arith, omega arith, omega arith),
          ((omega arith, omega arith, omega arith, omega arith), tt),
        ),
      ),
    );
    name_fits = omega arith;
    known = λ e. cc;
    value_bytes = ((omega arith, omega arith, omega arith), tt);
    value_fits = omega arith;
  },
  tt,
)

process_post_example :
    process_post
      (replicate 32 255)
      (ssid_attribute ∷ [])
      8
      (map byte (codes "ssid=x\r\n") ++ (again ∷ []))
    ≡ returned
        (pos 0)
        (record { name = codes "ssid"; length = 4; valuebuffer = codes "x" ++ replicate 64 0 } ∷ [])
        (again ∷ [])
process_post_example =
    process_post-encode form (ssid_attribute ∷ []) (replicate 32 255) (again ∷ []) refl (refl, tt)
      form_fields

register_IsDistinct_example :
    IsDistinct
      (register_web_page true (codes "/b.html") (codes "B") (some 5) none 0 (test_page ∷ [])).1
unfolding is_registered
register_IsDistinct_example =
    register-IsDistinct (codes "/b.html") (codes "B") (some 5) none 0 (test_page ∷ []) true (tt, tt)

menu_overflow_example : create_menu (record test_page { title = replicate 96 98 } ∷ []) ≡ overflow
menu_overflow_example =
    menu_overflow (record test_page { title = replicate 96 98 } ∷ []) (omega arith) (omega arith)

header_complete_example :
    (n : ℕ) × (create_header200 (test_page ∷ []) 10 (codes "Home")
      ≡ text (
          declares n
          ++ body (codes "Home") (menu_start ++ (menu_elems (test_page ∷ []) ++ menu_end))))
    × (n
        ≡ 10
          + length (body (codes "Home") (menu_start ++ (menu_elems (test_page ∷ []) ++ menu_end))))
    × (value_from 0 (decimal n) ≡ n)
header_complete_example =
    header_complete (test_page ∷ []) 10 (codes "Home")
      (menu_start ++ (menu_elems (test_page ∷ []) ++ menu_end))
      (menu_fits (test_page ∷ []) (omega arith)) (omega arith) (omega arith) (omega arith)

abbrev pub two_slots : Listener Bytes
two_slots = record { accepted = pos 4 ∷ minus_one ∷ []; handlers = true ∷ false ∷ []; world = [] }

abbrev pub good_accept : Accept
good_accept = record { client = pos 9; errno = 0; want_to_quit = false }

abbrev pub bad_accept : Accept
bad_accept = record { client = minus_one; errno = 5; want_to_quit = true }

process_tcp_example :
    ((process_tcp test_net good_accept two_slots).0 ≡ pos 0)
    × Taken test_net 9 two_slots (process_tcp test_net good_accept two_slots).1
    × (length (process_tcp test_net good_accept two_slots).1.accepted ≡ 2)
process_tcp_example = process_tcp-Taken test_net 9 good_accept two_slots refl
