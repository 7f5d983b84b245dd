-- ===== src/Ota.antt =====
-- The firmware update driver, src/ob_ota.c, over the function table of its provider.
use onboarding.Base.{
  ◌≡◌, ◌≢◌, Bool, true, false, Option, none, some, ℤ, minus_one, is_pos, arith, Bytes,
  if◌then◌else◌,
}

-- `ob_ota_result_t`
pub data OtaResult : Type 0 where
  ok : OtaResult
  update_installed : OtaResult
  not_initialized : OtaResult
  has_update : OtaResult
  no_update : OtaResult
  network_error : OtaResult
  incompatible_hardware : OtaResult
  permission_error : OtaResult
  unconfirmed_image : OtaResult
  metadata_error : OtaResult
  download_error : OtaResult
  install_error : OtaResult
  flash_init_error : OtaResult
  probe_in_progress : OtaResult
  cancel : OtaResult
  no_response : OtaResult
  unknown : OtaResult

-- `ob_ota_vtable_t`, over the state `W` of the world; `none` is a NULL entry.
pub record Vtable (W : Type 0) : Type 0 where
  pub autohandler : Option (W → W)
  pub confirm : Option (W → ℤ × W)
  pub probe : Option (W → OtaResult × W)
  pub update : W → OtaResult × W
  pub reboot : Option (W → W)
  pub dt_set : Option (Bytes → Bytes → W → ℤ × W)

-- `ota_poll_interval` and `ota_vtable`, with the world.
pub record Ota (W : Type 0) : Type 0 where
  pub poll_interval : ℤ
  pub vtable : Option (Vtable W)
  pub world : W

-- The result as a condition of C: OB_OTA_RES_OK is 0.
unfoldable pub is_nonzero : OtaResult → Bool
is_nonzero ok = false
is_nonzero _ = true

abbrev pub is_no_update : OtaResult → Bool
is_no_update no_update = true
is_no_update _ = false

module _ {W : Type 0} where
  unfoldable pub ota_set_vtable : Option (Vtable W) → Ota W → Ota W
  ota_set_vtable table s = record s { vtable = table }

  unfoldable pub ota_set_poll_interval : ℤ → Ota W → Ota W
  ota_set_poll_interval interval s = record s { poll_interval = interval }

  -- `sys_reboot` is a parameter.
  unfoldable pub ota_reboot : (sys_reboot : W → W) → Option (Vtable W) → W → W
  ota_reboot sys_reboot none w = sys_reboot w
  ota_reboot sys_reboot (some t) w = elim t.reboot [ some reboot ↦ reboot w | none ↦ sys_reboot w ]

  unfoldable pub ota_do_update : (sys_reboot : W → W) → Vtable W → W → Bool × W
  unfolding is_nonzero ota_reboot
  ota_do_update sys_reboot t w =
      let (first, w1) = t.update w in
      let (status, w2) = t.update w1 in
      if is_nonzero first
      then elim status [ ok ↦ (true, ota_reboot sys_reboot (some t) w2) | _ ↦ (false, w2) ]
      else (false, w1)

  -- The switch of `ota_init` on the result of the probe
  unfoldable pub after_probe : (sys_reboot : W → W) → Vtable W → OtaResult → W → Bool × W
  after_probe sys_reboot t has_update w = ota_do_update sys_reboot t w
  after_probe sys_reboot t no_update w = (true, w)
  after_probe sys_reboot t _ w = (false, w)

  -- The end of `ota_init`: one probe, where the provider is not polled.
  unfoldable pub probe_once : (sys_reboot : W → W) → Vtable W → W → Bool × W
  probe_once sys_reboot t w = elim t.probe [
    | none ↦ (true, w)
    | some probe ↦ (let (status, w1) = probe w in after_probe sys_reboot t status w1)
  ]

  -- `ota_init`, with the result of the provider's initialisation and the state it leaves.
  unfoldable pub ota_init : (sys_reboot : W → W) → Bool → Ota W → Bool × W
  unfolding probe_once
  ota_init sys_reboot provided s =
      if provided
      then elim s.vtable [
        | none ↦ (false, s.world)
        | some t ↦
            let w1 : W = elim t.confirm [ none ↦ s.world | some confirm ↦ (confirm s.world).1 ] in
            if is_pos s.poll_interval
            then (true, elim t.autohandler [ none ↦ w1 | some autohandler ↦ autohandler w1 ])
            else probe_once sys_reboot t w1
      ]
      else (false, s.world)

  unfoldable pub ob_dt_set : Vtable W → Bytes → Bytes → W → ℤ × W
  ob_dt_set t key value w = elim t.dt_set [
    | none ↦ (minus_one, w)
    | some dt_set ↦ dt_set key value w
  ]

  -- A provider whose update succeeds at once is not rebooted into it: `ota_do_update` reports
  -- a failure and leaves the world as the update left it.
  ota_do_update_at_once :
      (sys_reboot : W → W) (t : Vtable W) (w : W)
      → (t.update w).0 ≡ ok
      → ota_do_update sys_reboot t w ≡ (false, (t.update w).1)
  unfolding ota_do_update is_nonzero
  ota_do_update_at_once sys_reboot t w h = ground arith

  after_probe_lem :
      (sys_reboot : W → W) (t : Vtable W) (r : OtaResult) (w : W)
      → r ≢ has_update
      → after_probe sys_reboot t r w ≡ (is_no_update r, w)
  unfolding after_probe
  after_probe_lem sys_reboot t r w h = ground arith

  -- After a failed probe `ota_init` reports the failure, without an update or a reboot; with
  -- no update to make it succeeds.
  pub probe_once_without_update :
      (sys_reboot : W → W) (s : Ota W) (t : Vtable W) (probe : W → OtaResult × W)
      → s.vtable ≡ some t
      → t.confirm ≡ none
      → t.probe ≡ some probe
      → is_pos s.poll_interval ≡ false
      → (probe s.world).0 ≢ has_update
      → ota_init sys_reboot true s ≡ (is_no_update (probe s.world).0, (probe s.world).1)
  unfolding ota_init probe_once after_probe ota_do_update
  probe_once_without_update sys_reboot s t probe v c p i h =
      rw (v, c, i, p) (after_probe_lem sys_reboot t (probe s.world).0 (probe s.world).1 h)
