-- ===== src/Gatt/Service.antt =====
-- The mode of src/ob_bluetooth_gatt.c in the state machine of src/ob_bluetooth.c, and the read
-- that asks for the list of networks.
use onboarding.Base.{
  ℕ, ◌≡◌, Bool, true, false, Option, none, some, [], ◌∷◌, ℤ, pos, Bytes, ◌==◌, if◌then◌else◌,
}
use onboarding.Bluetooth.{
  init, adv_start, adv_stop, connected, Mode, Ble, ble_waiting, foreach_obb, foreach_rounds,
  call_mode, on_disconnected, work_rounds, on_disconnected-advertises,
}

-- The advertising of the Bluetooth stack, over the state `W` of the world.
pub record Advertising (W : Type 0) : Type 0 where
  pub le_adv_start : W → ℤ × W
  pub le_adv_stop : W → W

module _ {W : Type 0} (host : Advertising W) where
  unfoldable pub gatt_init : W → ℤ × W
  gatt_init w = (pos 0, w)

  unfoldable pub gatt_connected : W → ℤ × W
  gatt_connected w = (pos 0, w)

  -- The error is logged and passed on.
  unfoldable pub gatt_adv_start : W → ℤ × W
  gatt_adv_start w = host.le_adv_start w

  unfoldable pub gatt_adv_stop : W → ℤ × W
  gatt_adv_stop w = (pos 0, host.le_adv_stop w)

  -- `obb_mode_gatt`; `foreach_obb` does not look at the results.
  unfoldable pub obb_mode_gatt : Mode W
  unfolding gatt_init gatt_adv_start gatt_adv_stop gatt_connected
  obb_mode_gatt init = some (λ w. (gatt_init w).1)
  obb_mode_gatt adv_start = some (λ w. (gatt_adv_start w).1)
  obb_mode_gatt adv_stop = some (λ w. (gatt_adv_stop w).1)
  obb_mode_gatt connected = some (λ w. (gatt_connected w).1)
  obb_mode_gatt _ = none

  -- In a build with the GATT service alone, a peer that leaves is followed by one start of the
  -- advertising, after which the machine waits.
  obb_mode_gatt-advertises :
      (s : Ble W)
      → work_rounds (obb_mode_gatt ∷ []) 4 (on_disconnected (obb_mode_gatt ∷ []) s) ≡ record {
        ble_state = ble_waiting;
        ble_work = false;
        world = (host.le_adv_start s.world).1;
      }
  unfolding foreach_obb foreach_rounds call_mode obb_mode_gatt
  obb_mode_gatt-advertises s = on_disconnected-advertises (obb_mode_gatt ∷ []) s

-- `work_handler_conn_pointer`, and whether `ap_list_notify_work` is submitted.
pub record Work (K : Type 0) : Type 0 where
  pub work_handler_conn_pointer : Option K
  pub submitted : Bool

-- `read_aps`, with `bt_gatt_attr_read` of an empty value
unfoldable pub read_aps :
    {K : Type 0}
    → (attr_read : ℕ → ℕ → Bytes → ℤ × Bytes) → K
    → (len offset : ℕ) → Work K
    → (ℤ × Bytes) × Work K
read_aps attr_read conn len offset s = (
  attr_read len offset [],
  if offset == 0 then record { work_handler_conn_pointer = some conn; submitted = true } else s,
)
