-- ===== src/Shell/Values.antt =====
-- The handlers of src/ob_shell.c that show and set a stored value.
use onboarding.Base.{
  ℕ, zero, suc, ◌≤◌, ◌<◌, ◌≡◌, refl, sym, ap, ◌∙◌, ℤ, pos, negsuc, minus_one, Option, none, some,
  true, false, List, [], ◌∷◌, ◌++◌, Bytes, ltb, if◌then◌else◌, length, take, c_str, c_str-append,
  arith, IsText, take_of_le,
}
use onboarding.Nvs.{Settings, Nvs, data_init, data_init_once, data_read, data_write}
use onboarding.Portal.Setup.{settings_id_wifi_ssid, settings_id_wifi_psk}

-- The handler returned, with what it has printed behind the label, or has written past its
-- array.
pub data Handled (D W : Type 0) : Type 0 where
  returned : ℤ → Option Bytes → Nvs D W → Handled D W
  fault : Handled D W

module _ {D W : Type 0} (settings : Settings W) where
  -- `value[rc] = '\0'` in an array of `size` bytes, and the text up to there
  unfoldable pub shown : ℕ → ℤ × Bytes → Nvs D W → Handled D W
  shown size (pos zero, buffer) s = returned minus_one none s
  shown size (negsuc e, buffer) s = returned minus_one none s
  shown size (pos (suc n), buffer) s =
      if ltb (suc n) size
      then returned (pos (suc n)) (some (c_str (take (suc n) buffer ++ 0 ∷ []))) s
      else fault

  -- What the four handlers have in common: the key, the size of the array, how many bytes are
  -- read at most, and the arguments.
  unfoldable pub value_handler : Bytes → ℕ → ℕ → List Bytes → Nvs D W → Handled D W
  unfolding data_init data_read data_write shown
  value_handler name size max [] s =
      let t = (data_init settings s).1 in shown size (data_read settings name max t) t
  value_handler name size max (value ∷ more) s =
      let (rc, t) = data_write settings name value (data_init settings s).1 in returned rc none t

  unfoldable pub ssid_handler : List Bytes → Nvs D W → Handled D W
  unfolding value_handler
  ssid_handler argv s = value_handler settings_id_wifi_ssid 33 32 argv s

  unfoldable pub psk_handler : List Bytes → Nvs D W → Handled D W
  unfolding value_handler
  psk_handler argv s = value_handler settings_id_wifi_psk 65 64 argv s

  -- The two handlers for Golioth, with NVS_SETTINGS_ID_OTA_PSK, NVS_SETTINGS_ID_OTA_PSK_ID,
  -- CONFIG_GOLIOTH_PSK_MAX_LEN and CONFIG_GOLIOTH_PSK_ID_MAX_LEN. The second reads as many bytes
  -- as a PSK may have.
  unfoldable pub golioth_psk_handler :
      (name : Bytes) (psk_max : ℕ) → List Bytes → Nvs D W → Handled D W
  unfolding value_handler
  golioth_psk_handler name psk_max argv s = value_handler name (suc psk_max) psk_max argv s

  unfoldable pub golioth_psk_id_handler :
      (name : Bytes) (psk_max psk_id_max : ℕ) → List Bytes → Nvs D W → Handled D W
  unfolding value_handler
  golioth_psk_id_handler name psk_max psk_id_max argv s =
      value_handler name (suc psk_id_max) psk_max argv s

under : (n m : ℕ) → n < m → ltb n m ≡ true
under n m h = ground arith

-- What the settings subsystem documents of a value that was saved: loading its key gives it.
pub record Keeps {W : Type 0} (settings : Settings W) : Type 0 where
  pub loaded :
      (name value : Bytes) (n r : ℕ) (w w' : W)
      → settings.save_one name value w ≡ (pos r, w')
      → length value ≤ n
      → settings.load_one name n w' ≡ (pos (length value), value)

module _ {D W : Type 0} (settings : Settings W) (keeps : Keeps settings) where
  shown_at :
      (size n : ℕ) (value : Bytes) (s : Nvs D W)
      → suc n < size
      → take (suc n) value ≡ value
      → IsText value
      → shown settings size (pos (suc n), value) s ≡ returned (pos (suc n)) (some value) s
  unfolding shown
  shown_at size n value s fits whole text =
      rw (under (suc n) size fits, whole, c_str-append value [] text) refl

  shown_whole :
      (size n : ℕ) (value : Bytes) (s : Nvs D W)
      → length value ≡ suc n
      → length value < size
      → IsText value
      → shown settings size (pos (length value), value) s
        ≡ returned (pos (length value)) (some value) s
  shown_whole size n value s at fits text =
      ap (λ m. shown settings size (pos m, value) s) at
      ∙ shown_at size n value s (omega arith) (take_of_le (suc n) value (omega arith)) text
      ∙ ap (λ m. returned (pos m) (some value) s) (sym at)

  data_init-inited : (t : Nvs D W) → t.nvs_data_inited ≡ true → (data_init settings t).1 ≡ t
  unfolding data_init
  data_init-inited t h = simp (h)

  read_back :
      (name value : Bytes) (size max n : ℕ) (t : Nvs D W)
      → t.nvs_data_inited ≡ true
      → settings.load_one name max t.world ≡ (pos (length value), value)
      → length value ≡ suc n
      → length value < size
      → IsText value
      → value_handler settings name size max [] t ≡ returned (pos (length value)) (some value) t
  unfolding value_handler data_read
  read_back name value size max n t inited stored one fits text =
      ap (λ u. shown settings size (settings.load_one name max u.world) u)
        (data_init-inited t inited)
      ∙ ap (λ o. shown settings size o t) stored
      ∙ shown_whole size n value t one fits text

  -- A value that a command has stored, neither empty nor longer than what is read of it, is
  -- printed whole by the command without an argument.
  value_handler-set :
      (name value : Bytes) (size max r n : ℕ) (s : Nvs D W) (w' : W)
      → settings.save_one name value (data_init settings s).1.world ≡ (pos r, w')
      → length value ≡ suc n
      → length value ≤ max
      → max < size
      → IsText value
      → (t : Nvs D W) × (value_handler settings name size max (value ∷ []) s
          ≡ returned (pos r) none t)
        × (value_handler settings name size max [] t ≡ returned (pos (length value)) (some value) t)
  unfolding value_handler data_write
  value_handler-set name value size max r n s w' saved one fits room text =
      let t : Nvs D W = record (data_init settings s).1 { world = w' } in
      (
        t,
        rw (saved) refl,
        read_back name value size max n t (data_init_once settings s).1
            (keeps.loaded name value max r _ w' saved fits) one (omega arith) text,
      )

  -- A SSID of 1 to 32 bytes that the command has stored is printed whole by the command without
  -- an argument.
  pub ssid_handler-set :
      (value : Bytes) (r n : ℕ) (s : Nvs D W) (w' : W)
      → settings.save_one settings_id_wifi_ssid value (data_init settings s).1.world ≡ (pos r, w')
      → length value ≡ suc n
      → length value ≤ 32
      → IsText value
      → (t : Nvs D W) × (ssid_handler settings (value ∷ []) s ≡ returned (pos r) none t)
        × (ssid_handler settings [] t ≡ returned (pos (length value)) (some value) t)
  unfolding ssid_handler
  ssid_handler-set value r n s w' saved one fits text =
      value_handler-set settings_id_wifi_ssid value 33 32 r n s w' saved one fits (omega arith) text

  -- So is a PSK of 1 to 64 bytes.
  psk_handler-set :
      (value : Bytes) (r n : ℕ) (s : Nvs D W) (w' : W)
      → settings.save_one settings_id_wifi_psk value (data_init settings s).1.world ≡ (pos r, w')
      → length value ≡ suc n
      → length value ≤ 64
      → IsText value
      → (t : Nvs D W) × (psk_handler settings (value ∷ []) s ≡ returned (pos r) none t)
        × (psk_handler settings [] t ≡ returned (pos (length value)) (some value) t)
  unfolding psk_handler
  psk_handler-set value r n s w' saved one fits text =
      value_handler-set settings_id_wifi_psk value 65 64 r n s w' saved one fits (omega arith) text

  overrun_at :
      (size n : ℕ) (buffer : Bytes) (s : Nvs D W)
      → size ≤ suc n
      → shown settings size (pos (suc n), buffer) s ≡ fault
  unfolding shown
  overrun_at size n buffer s h = rw (not_under (suc n) size h) refl
    where
      not_under : (a b : ℕ) → b ≤ a → ltb a b ≡ false
      not_under a b g = ground arith

  -- A stored PSK identity that is longer than its array allows, but not longer than a PSK may
  -- be, is read past the end of the array: the command passes the bound of the PSK.
  pub golioth_psk_id_handler_overrun :
      (name value : Bytes) (psk_max psk_id_max n r : ℕ) (s : Nvs D W) (w w' : W)
      → s.nvs_data_inited ≡ true
      → s.world ≡ w'
      → settings.save_one name value w ≡ (pos r, w')
      → length value ≡ suc n
      → psk_id_max < length value
      → length value ≤ psk_max
      → golioth_psk_id_handler settings name psk_max psk_id_max [] s ≡ fault
  unfolding golioth_psk_id_handler value_handler data_read
  golioth_psk_id_handler_overrun name value psk_max psk_id_max n r s w w' inited at saved one over
        fits =
      ap (λ u. shown settings (suc psk_id_max) (settings.load_one name psk_max u.world) u)
        (data_init-inited s inited)
      ∙ ap (λ v. shown settings (suc psk_id_max) (settings.load_one name psk_max v) s) at
      ∙ ap (λ o. shown settings (suc psk_id_max) o s)
          (keeps.loaded name value psk_max r w w' saved fits)
      ∙ ap (λ m. shown settings (suc psk_id_max) (pos m, value) s) one
      ∙ overrun_at (suc psk_id_max) n value s (omega arith)
