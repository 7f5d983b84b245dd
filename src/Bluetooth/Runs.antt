-- ===== src/Bluetooth/Runs.antt =====
-- The events that src/ob_bluetooth.c can meet, in any order, and when it advertises.
use onboarding.Base.{
  ℕ, suc, ◌≡◌, refl, ap, ◌⊎◌, inl, inr, Bool, true, false, some, List, [], ◌∷◌, ◌++◌, ℤ, pos,
  is_zero, arith, if◌then◌else◌, All, Bool-cases,
}
use onboarding.Bluetooth.{
  ModeType, init, adv_start, adv_stop, Mode, ble_adv_start, ble_waiting, Ble, Host, foreach_obb,
  foreach_rounds, call_mode, go, ble_state_machine, on_disconnected, bt_enable_callback,
  pairing_failed, bluetooth_init, work_rounds,
}

-- What has happened, the last first: a callback of a mode, or a peer has left.
pub data Happening : Type 0 where
  called : ModeType → Happening
  peer_left : Happening

abbrev pub Log : Type 0
Log = List Happening

-- A build with one mode, which keeps the log.
abbrev pub logged : List (Mode Log)
logged = (λ type. some (λ w. called type ∷ w)) ∷ []

-- The stack, of which the log says nothing
abbrev pub unlogged : Host Log
unlogged = record {
  conn_cb_register = λ w. w;
  auth_cb_register = λ w. w;
  auth_info_cb_register = λ w. w;
  load_settings = λ w. w;
  conn_disconnect = λ w. w;
}

-- A run of the work item, if it is scheduled; the callback of `bt_enable`; a closed connection;
-- a failed pairing.
pub data Event : Type 0 where
  work : Event
  enabled : ℤ → Event
  closed : Event
  unpaired : Event

unfoldable pub happens : Event → Ble Log → Ble Log
unfolding ble_state_machine bt_enable_callback on_disconnected pairing_failed
happens work s = if s.ble_work then ble_state_machine logged s else s
happens (enabled rc) s = bt_enable_callback logged unlogged rc s
happens closed s = on_disconnected logged (record s { world = peer_left ∷ s.world })
happens unpaired s = pairing_failed logged unlogged s

unfoldable pub run : List Event → Ble Log → Ble Log
run [] s = s
run (e ∷ es) s = run es (happens e s)

-- The state behind a `bluetooth_init` that succeeds, with nothing in the log
unfoldable pub started : Ble Log → Ble Log
unfolding bluetooth_init
started s = (bluetooth_init logged (λ w. w) (λ w. (pos 0, [])) s).1

-- The last call for advertising was to start it, and no peer has left since.
abbrev pub advertises : Log → Bool
advertises [] = false
advertises (peer_left ∷ w) = false
advertises (called adv_start ∷ w) = true
advertises (called adv_stop ∷ w) = false
advertises (called _ ∷ w) = advertises w

-- Advertising is about to start, or has been started.
abbrev pub IsReady : Ble Log → Type 0
IsReady s =
    ((s.ble_state ≡ ble_adv_start) × (s.ble_work ≡ true))
    ⊎ ((s.ble_state ≡ ble_waiting) × (advertises s.world ≡ true))

happens-IsReady : (e : Event) (s : Ble Log) → IsReady s → IsReady (happens e s)
unfolding happens foreach_obb foreach_rounds call_mode
happens-IsReady work s (inl h) = inr (ground arith)
happens-IsReady work s (inr h) = inr (ground arith)
happens-IsReady (enabled rc) s h = ground arith
happens-IsReady closed s h = inl (refl, refl)
happens-IsReady unpaired s h = h

run-IsReady : (es : List Event) (s : Ble Log) → IsReady s → IsReady (run es s)
unfolding run
run-IsReady [] s h = h
run-IsReady (e ∷ es) s h = run-IsReady es (happens e s) (happens-IsReady e s h)

rests :
    (s : Ble Log)
    → IsReady s
    → let t = work_rounds logged 4 s in
      (t.ble_state ≡ ble_waiting) × (t.ble_work ≡ false) × (advertises t.world ≡ true)
unfolding ble_state_machine go foreach_obb foreach_rounds call_mode
rests s (inl h) = ground arith
rests s (inr h) = ground arith

-- Whatever happens behind a `bluetooth_init` that succeeds, in whatever order: once the work
-- item has run out, the machine waits, and it has started the advertising since the last peer
-- left.
pub run-advertises :
    (es : List Event) (s : Ble Log)
    → let t = work_rounds logged 4 (run es (started s)) in
      (t.ble_state ≡ ble_waiting) × (t.ble_work ≡ false) × (advertises t.world ≡ true)
unfolding started
run-advertises es s = rests (run es (started s)) (run-IsReady es (started s) (inl (refl, refl)))

-- How often the advertising was started
abbrev pub starts : Log → ℕ
starts [] = 0
starts (called adv_start ∷ w) = suc (starts w)
starts (_ ∷ w) = starts w

abbrev pub is_closed : Event → Bool
is_closed closed = true
is_closed _ = false

-- The machine waits, with nothing started behind `first`.
record Waits (first : Log) (s : Ble Log) : Type 0 where
  later : Log
  waiting : s.ble_state ≡ ble_waiting
  log : s.world ≡ later ++ first
  none_later : starts later ≡ 0

happens-Waits :
    (first : Log) (e : Event) (s : Ble Log)
    → is_closed e ≡ false
    → Waits first s
    → Waits first (happens e s)
unfolding happens foreach_obb foreach_rounds call_mode
happens-Waits first work s h p = record {
  later = p.later;
  waiting = ground arith;
  log = ground arith;
  none_later = p.none_later;
}
happens-Waits first (enabled rc) s h p = elim (Bool-cases (is_zero rc)) [
  | inl e ↦ record {
    later = called init ∷ p.later;
    waiting = rw (e) p.waiting;
    log = rw (e) (ap (◌∷◌ (called init)) p.log);
    none_later = p.none_later;
  }
  | inr e ↦ record {
    later = p.later;
    waiting = rw (e) p.waiting;
    log = rw (e) p.log;
    none_later = p.none_later;
  }
]
happens-Waits first closed s h p = cc
happens-Waits first unpaired s h p = p

run-Waits :
    (first : Log) (es : List Event) (s : Ble Log)
    → All (λ e. is_closed e ≡ false) es
    → Waits first s
    → Waits first (run es s)
unfolding run
run-Waits first [] s h p = p
run-Waits first (e ∷ es) s h p =
    run-Waits first es (happens e s) h.1 (happens-Waits first e s h.0 p)

-- Where the work item runs before the callback of `bt_enable`, advertising is started before the
-- modes are initialised, and until a peer leaves it is not started again.
pub run-early :
    (es : List Event) (s : Ble Log)
    → All (λ e. is_closed e ≡ false) es
    → (later : Log) × ((run (work ∷ es) (started s)).world ≡ later ++ called adv_start ∷ [])
      × (starts later ≡ 0)
unfolding run started happens foreach_obb foreach_rounds call_mode
run-early es s h =
    let p =
      run-Waits (called adv_start ∷ []) es (happens work (started s)) h
        (record { later = []; waiting = refl; log = refl; none_later = refl }) in
    (p.later, p.log, p.none_later)
