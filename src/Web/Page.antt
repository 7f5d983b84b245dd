-- ===== src/Web/Page.antt =====
-- The pages that an application registers with the web server: `web_page_t` of
-- include/ob_web_server.h, over a type `C` of callbacks.
use onboarding.Base.{ℕ, Bytes, codes, Bool, Option, ◌==◌, ◌%◌, ◌/◌}

pub record Page (C : Type 0) : Type 0 where
  pub pathname : Bytes
  pub title : Bytes
  pub flags : ℕ
  pub content_length : ℕ
  pub get_callback : Option C
  pub post_callback : Option C

-- `flags & PAGE_IS_HOME_PAGE`, the bit 0x01
abbrev pub is_home_page : {C : Type 0} → Page C → Bool
is_home_page p = p.flags % 2 == 1

-- `flags & PAGE_IS_CAPTIVE_PORTAL`, the bit 0x02
abbrev pub is_captive_portal : {C : Type 0} → Page C → Bool
is_captive_portal p = p.flags / 2 % 2 == 1

-- `ob_web_get_option_fmt` and `ob_web_get_selected_option_fmt`
unfoldable pub ob_web_get_option_fmt : Bytes
ob_web_get_option_fmt = codes "<option value=\"%s\">%s</option>"

unfoldable pub ob_web_get_selected_option_fmt : Bytes
ob_web_get_selected_option_fmt = codes "<option value=\"%s\" selected>%s</option>"
