-- ===== src/Bluetooth.antt =====
-- The Bluetooth state machine, src/ob_bluetooth.c, over the modes that are built in.
pub mod Runs
use onboarding.Base.{
  ℕ, zero, suc, ◌≡◌, refl, ◌≤◌, Bool, true, false, Option, none, some, List, [], ◌∷◌, ℤ, is_zero,
  arith, length, if◌then◌else◌,
}

-- `obb_mode_type_t`
pub data ModeType : Type 0 where
  init : ModeType
  adv_start : ModeType
  adv_stop : ModeType
  scan_start : ModeType
  scan_stop : ModeType
  connect : ModeType
  connected : ModeType
  disconnect : ModeType
  disconnected : ModeType

-- `obb_mode_t`: the callback of each type, where it is not NULL.
abbrev pub Mode : Type 0 → Type 0
Mode W = ModeType → Option (W → W)

-- `ble_state`
pub data BleState : Type 0 where
  ble_disconnected : BleState
  ble_scan_start : BleState
  ble_scan_stop : BleState
  ble_connect_create : BleState
  ble_connect_cancel : BleState
  ble_adv_start : BleState
  ble_adv_stop : BleState
  ble_connected : BleState
  ble_waiting : BleState

-- `ble_state`, whether `ble_work` is scheduled, and the world.
pub record Ble (W : Type 0) : Type 0 where
  pub ble_state : BleState
  pub ble_work : Bool
  pub world : W

-- The calls of the Bluetooth stack.
pub record Host (W : Type 0) : Type 0 where
  -- `bt_conn_cb_register`, `bt_conn_auth_cb_register` and `bt_conn_auth_info_cb_register`
  pub conn_cb_register : W → W
  pub auth_cb_register : W → W
  pub auth_info_cb_register : W → W
  -- `settings_load`
  pub load_settings : W → W
  -- `bt_conn_disconnect(conn, BT_HCI_ERR_AUTH_FAIL)`
  pub conn_disconnect : W → W

-- `OBB_MAX`
abbrev pub obb_max : ℕ
obb_max = 4

module _ {W : Type 0} where
  unfoldable pub call_mode : ModeType → Mode W → W → W
  call_mode type cb w = elim (cb type) [ none ↦ w | some callback ↦ callback w ]

  -- The loop of `foreach_obb`; the end of the list is the NULL of `obb_modes`.
  unfoldable pub foreach_rounds : ℕ → ModeType → List (Mode W) → W → W
  foreach_rounds zero type modes w = w
  foreach_rounds (suc n) type [] w = w
  foreach_rounds (suc n) type (cb ∷ modes) w = foreach_rounds n type modes (call_mode type cb w)

  unfoldable pub foreach_obb : ModeType → List (Mode W) → W → W
  foreach_obb type modes w = foreach_rounds obb_max type modes w

  -- The callbacks of a type, each once and in turn.
  abbrev pub call_all : ModeType → List (Mode W) → W → W
  call_all type [] w = w
  call_all type (cb ∷ modes) w = call_all type modes (call_mode type cb w)

  foreach_rounds_lem :
      (n : ℕ) (type : ModeType) (modes : List (Mode W)) (w : W)
      → length modes ≤ n
      → foreach_rounds n type modes w ≡ call_all type modes w
  unfolding foreach_rounds
  foreach_rounds_lem zero type [] w h = refl
  foreach_rounds_lem zero type (cb ∷ modes) w h = ground arith
  foreach_rounds_lem (suc n) type [] w h = refl
  foreach_rounds_lem (suc n) type (cb ∷ modes) w h =
      foreach_rounds_lem n type modes (call_mode type cb w) (omega arith)

  -- With at most 4 modes built in, every mode is called, once and in the order of the table.
  pub foreach_obb-call_all :
      (type : ModeType) (modes : List (Mode W)) (w : W)
      → length modes ≤ 4
      → foreach_obb type modes w ≡ call_all type modes w
  unfolding foreach_obb
  foreach_obb-call_all type modes w h = foreach_rounds_lem 4 type modes w h

module _ {W : Type 0} (modes : List (Mode W)) where
  -- The state, and the work item rescheduled
  unfoldable pub go : BleState → ModeType → Ble W → Ble W
  go next type s = record {
    ble_state = next;
    ble_work = true;
    world = foreach_obb type modes s.world;
  }

  -- `ble_state_machine`, a run of the scheduled work item.
  unfoldable pub ble_state_machine : Ble W → Ble W
  unfolding go
  ble_state_machine t =
      let s = record t { ble_work = false } in
      elim s.ble_state [
        | ble_disconnected ↦ record s { world = foreach_obb disconnected modes s.world }
        | ble_scan_start ↦ go ble_scan_stop scan_start s
        | ble_connect_create ↦
            go ble_adv_start disconnected
              (record s { world = foreach_obb disconnect modes s.world })
        | ble_scan_stop ↦ go ble_adv_start scan_stop s
        | ble_adv_start ↦ go ble_waiting adv_start s
        | ble_adv_stop ↦ go ble_adv_start adv_stop s
        | ble_connected ↦ record s { world = foreach_obb connected modes s.world }
        | ble_connect_cancel ↦ s
        | ble_waiting ↦ s
      ]

  -- `disconnected`, the callback of a closed connection
  unfoldable pub on_disconnected : Ble W → Ble W
  on_disconnected s = record s { ble_state = ble_adv_start; ble_work = true }

  -- `bt_enable_callback`, with its code
  unfoldable pub bt_enable_callback : Host W → ℤ → Ble W → Ble W
  bt_enable_callback host rc s =
      if is_zero rc
      then record s {
        world = host.load_settings (
            host.auth_info_cb_register
              (host.auth_cb_register (host.conn_cb_register (foreach_obb init modes s.world))));
      }
      else s

  -- `pairing_failed`
  unfoldable pub pairing_failed : Host W → Ble W → Ble W
  pairing_failed host s = record s { world = host.conn_disconnect s.world }

  -- `bluetooth_init`, in a build with CONFIG_ONBOARDING_WIFI: `set_scan_done_callback` is that of
  -- src/ob_wifi.c, called with `scan_complete`.
  unfoldable pub bluetooth_init :
      (set_scan_done_callback : W → W) (bt_enable : W → ℤ × W) → Ble W → ℤ × Ble W
  bluetooth_init set_scan_done_callback bt_enable s =
      let (rc, w) = bt_enable (set_scan_done_callback s.world) in
      let t = record s { world = w } in
      if is_zero rc then (rc, record t { ble_state = ble_adv_start; ble_work = true }) else (rc, t)

  -- The scheduler: at most n runs of the work item, while it is scheduled.
  abbrev pub work_rounds : ℕ → Ble W → Ble W
  work_rounds zero s = s
  work_rounds (suc n) s =
      let rest = work_rounds n (ble_state_machine s) in if s.ble_work then rest else s

  -- From every state the machine comes to rest: after at most 4 runs its work item is not
  -- scheduled.
  pub ble_rests : (s : Ble W) → (work_rounds 4 s).ble_work ≡ false
  unfolding ble_state_machine go
  ble_rests s = ground arith

  -- A closed connection leads back to advertising: its work item runs twice, starts the
  -- advertising of every mode once, and the machine waits.
  pub on_disconnected-advertises :
      (s : Ble W)
      → work_rounds 4 (on_disconnected s) ≡ record {
        ble_state = ble_waiting;
        ble_work = false;
        world = foreach_obb adv_start modes s.world;
      }
  unfolding on_disconnected ble_state_machine go
  on_disconnected-advertises s = refl
