-- ===== src/Portal/Setup.antt =====
-- The answer to the form of the captive portal: `post_wifi_setup_page` of
-- src/ob_captive_portal.c, in the configuration without Golioth.
use onboarding.Base.{
  ℕ, ◌≡◌, refl, ap, ◌∙◌, ◌≤◌, false, none, some, List, [], ◌∷◌, ◌++◌, map, ℤ, pos, is_neg, arith,
  Bytes, codes, c_str, c_str-append, length, All, IsText, if◌then◌else◌,
}
use onboarding.Nvs.{Settings, Nvs, data_write}
use onboarding.Web.Net.{Net, Recv, byte}
use onboarding.Web.Page.{Page}
use onboarding.Web.Register.{display_home}
use onboarding.Web.Request.Serve.{Call}
use onboarding.Web.Post.Rounds.{
  Attribute, returned, waiting, undefined, find_attribute, process_post,
}
use onboarding.Web.Post.Form.{encode, IsNameByte, IsValueByte}
use onboarding.Web.Post.Fields.{put, IsField, process_post-encode}

-- NVS_SETTINGS_ID_WIFI_SSID and NVS_SETTINGS_ID_WIFI_PSK
abbrev pub settings_id_wifi_ssid : Bytes
settings_id_wifi_ssid = codes "ob/wifi/ssid"

abbrev pub settings_id_wifi_psk : Bytes
settings_id_wifi_psk = codes "ob/wifi/psk"

abbrev pub ssid_attribute : Bytes → Attribute
ssid_attribute buffer = record { name = codes "ssid"; length = 4; valuebuffer = buffer }

abbrev pub password_attribute : Bytes → Attribute
password_attribute buffer = record { name = codes "password"; length = 8; valuebuffer = buffer }

-- `wifi_setup_attrib`, with what the static buffers hold.
abbrev pub wifi_setup_attrib : Bytes → Bytes → List Attribute
wifi_setup_attrib ssid_buffer password_buffer =
    ssid_attribute ssid_buffer ∷ password_attribute password_buffer ∷ []

-- The call returned, waits for a byte of the peer, or its behaviour is undefined.
pub data SetUp (D W : Type 0) : Type 0 where
  done : ℤ → Nvs D W → SetUp D W
  waits : SetUp D W
  fault : SetUp D W

module _ {C D W : Type 0} (settings : Settings W) (net : Net W) (call : Call C W) (reboot : W → W)
    (pages : List (Page C)) (client : ℕ) where
  -- The end of the function: the home page, and a reboot unless rc is negative.
  unfoldable pub finish : ℤ → Nvs D W → SetUp D W
  finish rc s = elim (display_home net call pages client s.world) [
    | none ↦ fault
    | some (shown, w) ↦ done rc (record s { world = if is_neg rc then w else reboot w })
  ]

  -- Both values are written; the result is that of the second write.
  unfoldable pub save_values : Bytes → Bytes → Nvs D W → ℤ × Nvs D W
  save_values ssid psk s =
      data_write settings settings_id_wifi_psk psk
        (data_write settings settings_id_wifi_ssid ssid s).1

  unfoldable pub post_values : List Attribute → Nvs D W → SetUp D W
  unfolding finish save_values
  post_values (ssid ∷ password ∷ rest) s =
      let (rc, t) = save_values (c_str ssid.valuebuffer) (c_str password.valuebuffer) s in
      finish rc t
  post_values _ s = fault

  -- `post_wifi_setup_page`, with the bytes of the uninitialised `name`, the buffers of the
  -- attributes, the length of the request and what is received.
  unfoldable pub post_wifi_setup_page : Bytes → List Attribute → ℕ → List Recv → Nvs D W → SetUp D W
  unfolding post_values finish
  post_wifi_setup_page stack attrs content_length reports s =
      elim (process_post stack attrs content_length reports) [
        | returned rc filled rest ↦ if is_neg rc then finish rc s else post_values filled s
        | waiting ↦ waits
        | undefined ↦ fault
      ]

-- A value that the form can have: at most 64 bytes, with no line end and no NUL.
abbrev pub IsValue : Bytes → Type 0
IsValue v = All IsValueByte v × (length v ≤ 64)

value-IsText : (v : Bytes) → All IsValueByte v → IsText v
value-IsText [] h = tt
value-IsText (c ∷ v) h = (h.0.2, value-IsText v h.1)

abbrev pub setup_form : Bytes → Bytes → List (Bytes × Bytes)
setup_form v p = (codes "ssid", v) ∷ (codes "password", p) ∷ []

name_of_ssid : All IsNameByte (codes "ssid")
name_of_ssid = (
  (omega arith, omega arith, omega arith, omega arith),
  (
    (omega arith, omega arith, omega arith, omega arith),
    (
      (omega arith, omega arith, omega arith, omega arith),
      ((omega arith, omega arith, omega arith, omega arith), tt),
    ),
  ),
)

name_of_password : All IsNameByte (codes "password")
name_of_password = (
  (omega arith, omega arith, omega arith, omega arith),
  (
    (omega arith, omega arith, omega arith, omega arith),
    (
      (omega arith, omega arith, omega arith, omega arith),
      (
        (omega arith, omega arith, omega arith, omega arith),
        (
          (omega arith, omega arith, omega arith, omega arith),
          (
            (omega arith, omega arith, omega arith, omega arith),
            (
              (omega arith, omega arith, omega arith, omega arith),
              ((omega arith, omega arith, omega arith, omega arith), tt),
            ),
          ),
        ),
      ),
    ),
  ),
)

pub setup_fields :
    (v p b0 b1 : Bytes)
    → IsValue v
    → IsValue p
    → All (IsField (wifi_setup_attrib b0 b1)) (setup_form v p)
unfolding find_attribute
setup_fields v p b0 b1 hv hp = (
  record {
    name_bytes = name_of_ssid;
    name_fits = omega arith;
    known = λ e. cc;
    value_bytes = hv.0;
    value_fits = hv.1;
  },
  (
    record {
      name_bytes = name_of_password;
      name_fits = omega arith;
      known = λ e. cc;
      value_bytes = hp.0;
      value_fits = hp.1;
    },
    tt,
  ),
)

pub c_str-put : (a : Attribute) (v : Bytes) → All IsValueByte v → c_str (put a v).valuebuffer ≡ v
c_str-put a v h = c_str-append v _ (value-IsText v h)

module _ {C D W : Type 0} (settings : Settings W) (net : Net W) (call : Call C W) (reboot : W → W)
    (pages : List (Page C)) (client : ℕ) where
  post_values-after :
      (stack : Bytes) (attrs filled : List Attribute) (n : ℕ) (rs rest : List Recv) (s : Nvs D W)
      → process_post stack attrs n rs ≡ returned (pos 0) filled rest
      → post_wifi_setup_page settings net call reboot pages client stack attrs n rs s
        ≡ post_values settings net call reboot pages client filled s
  unfolding post_wifi_setup_page
  post_values-after stack attrs filled n rs rest s h = rw (h, post_wifi_setup_page) refl

  pub save_values-stored :
      (v p : Bytes) (s : Nvs D W) (r0 r1 : ℤ) (w1 w2 : W)
      → settings.save_one settings_id_wifi_ssid v s.world ≡ (r0, w1)
      → settings.save_one settings_id_wifi_psk p w1 ≡ (r1, w2)
      → save_values settings net call reboot pages client v p s ≡ (r1, record s { world = w2 })
  unfolding save_values data_write
  save_values-stored v p s r0 r1 w1 w2 e0 e1 =
      ap (λ o. data_write settings settings_id_wifi_psk p (record s { world = o.1 })) e0
      ∙ ap (λ o. with_world o) e1
    where
      with_world : ℤ × W → ℤ × Nvs D W
      with_world (rc, w) = (rc, record s { world = w })

  finish-stored :
      (r shown : ℤ) (s : Nvs D W) (w3 : W)
      → is_neg r ≡ false
      → display_home net call pages client s.world ≡ some (shown, w3)
      → finish settings net call reboot pages client r s ≡ done r (record s { world = reboot w3 })
  unfolding finish
  finish-stored r shown s w3 good home = rw (home, good, finish) refl

  pub post_values-stored :
      (a b : Attribute) (v p : Bytes) (s : Nvs D W) (r0 r1 shown : ℤ) (w1 w2 w3 : W)
      → c_str a.valuebuffer ≡ v
      → c_str b.valuebuffer ≡ p
      → settings.save_one settings_id_wifi_ssid v s.world ≡ (r0, w1)
      → settings.save_one settings_id_wifi_psk p w1 ≡ (r1, w2)
      → is_neg r1 ≡ false
      → display_home net call pages client w2 ≡ some (shown, w3)
      → post_values settings net call reboot pages client (a ∷ b ∷ []) s
        ≡ done r1 (record s { world = reboot w3 })
  unfolding post_values
  post_values-stored a b v p s r0 r1 shown w1 w2 w3 av bp e0 e1 good home =
      rw (av, bp, save_values-stored v p s r0 r1 w1 w2 e0 e1)
        (finish-stored r1 shown (record s { world = w2 }) w3 good home)

  -- A form with a SSID and a password of at most 64 bytes each, sent with its size as the
  -- length, stores the two values under their keys, in this order; when the password is stored
  -- the home page is shown and the device reboots, whatever the result of storing the SSID was.
  pub post_wifi_setup_page-encode :
      (v p b0 b1 stack : Bytes) (rest : List Recv) (s : Nvs D W) (r0 r1 shown : ℤ) (w1 w2 w3 : W)
      → length b0 ≡ 65
      → length b1 ≡ 65
      → length stack ≡ 32
      → IsValue v
      → IsValue p
      → settings.save_one settings_id_wifi_ssid v s.world ≡ (r0, w1)
      → settings.save_one settings_id_wifi_psk p w1 ≡ (r1, w2)
      → is_neg r1 ≡ false
      → display_home net call pages client w2 ≡ some (shown, w3)
      → post_wifi_setup_page settings net call reboot pages client stack
          (wifi_setup_attrib b0 b1)
          (length (encode (setup_form v p)))
          (map byte (encode (setup_form v p)) ++ rest)
          s
        ≡ done r1 (record s { world = reboot w3 })
  post_wifi_setup_page-encode v p b0 b1 stack rest s r0 r1 shown w1 w2 w3 l0 l1 l hv hp e0 e1 good
        home =
      let first = ssid_attribute b0 in
      let second = password_attribute b1 in
      post_values-after stack (wifi_setup_attrib b0 b1) (put first v ∷ put second p ∷ [])
        (length (encode (setup_form v p))) (map byte (encode (setup_form v p)) ++ rest) rest s
        (process_post-encode (setup_form v p) (wifi_setup_attrib b0 b1) stack rest l (l0, (l1, tt))
          (setup_fields v p b0 b1 hv hp))
      ∙ post_values-stored (put first v) (put second p) v p s r0 r1 shown w1 w2 w3
          (c_str-put first v hv.0) (c_str-put second p hp.0) e0 e1 good home
