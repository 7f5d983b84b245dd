-- ===== src/Web/Life/Running.antt =====
-- The flags of the server of src/ob_web_server.c: what a start leaves as it was, and that a running
-- server has not been asked to quit.
use onboarding.Base.{
  ℕ, ◌≡◌, refl, Bool, true, false, ◌&&◌, List, [], ◌∷◌, arith, if◌then◌else◌, inl, inr, Bool-cases,
}
use onboarding.Nvs.{Settings, Nvs, data_init}
use onboarding.Web.Life.{
  outside, within, l4_connected, l4_disconnected, System, Build, Server, Act, start, stop, work,
  wake, event, act, run, boot, web_event_handler, stop_web_server, listen, take_run_app,
  do_start_web_server, init_web_server, start_web_server,
}

module _ {C W : Type 0} where
  -- Not asked to quit while it runs.
  abbrev Serves : Server C W → Type 0
  Serves s = s.running && s.want_to_quit ≡ false

  -- What a start leaves as it was.
  pub record Kept (s t : Server C W) : Type 0 where
    pub runs : t.running ≡ s.running
    pub quit : t.want_to_quit ≡ s.want_to_quit
    pub given : t.run_app ≡ s.run_app
    pub waits : t.waiting ≡ s.waiting
    pub hears : t.thread_started ≡ s.thread_started

  Kept-if : (b : Bool) (s t : Server C W) → Kept s t → Kept s (if b then s else t)
  Kept-if true s t h = record { runs = refl; quit = refl; given = refl; waits = refl; hears = refl }
  Kept-if false s t h = h

  inited-if :
      (b : Bool) (s t : Server C W)
      → s.web_server_inited ≡ b
      → t.web_server_inited ≡ true
      → (if b then s else t).web_server_inited ≡ true
  inited-if true s t e h = e
  inited-if false s t e h = h

  Serves-Kept : (s t : Server C W) → Kept s t → Serves s → Serves t
  Serves-Kept s t k h = rw (k.runs, k.quit) h

module _ {C W : Type 0} (settings : Settings W) (system : System W) (build : Build) where
  init_web_server-Kept : (s : Server C W) → Kept s (init_web_server settings system build s).1
  unfolding init_web_server data_init
  init_web_server-Kept s = elim (Bool-cases s.nvs.nvs_data_inited) [
    | inl e ↦ rw (e) (record { runs = refl; quit = refl; given = refl; waits = refl; hears = refl })
    | inr e ↦ rw (e) (record { runs = refl; quit = refl; given = refl; waits = refl; hears = refl })
  ]

  pub start_web_server-Kept : (s : Server C W) → Kept s (start_web_server settings system build s)
  unfolding start_web_server
  start_web_server-Kept s =
      let k =
        Kept-if s.web_server_inited s (init_web_server settings system build s).1
          (init_web_server-Kept s) in
      record { runs = k.runs; quit = k.quit; given = k.given; waits = k.waits; hears = k.hears }

  init-inited :
      (s : Server C W) → (init_web_server settings system build s).1.web_server_inited ≡ true
  unfolding init_web_server data_init
  init-inited s = elim (Bool-cases s.nvs.nvs_data_inited) [
    | inl e ↦ rw (e) refl
    | inr e ↦ rw (e) refl
  ]

  pub start-inited :
      (s : Server C W) → (start_web_server settings system build s).web_server_inited ≡ true
  unfolding start_web_server
  start-inited s =
      inited-if s.web_server_inited s (init_web_server settings system build s).1 refl
        (init-inited s)

  act-Serves : (a : Act) (s : Server C W) → Serves s → Serves (act settings system build a s)
  unfolding act web_event_handler do_start_web_server take_run_app listen stop_web_server
  act-Serves start s h = Serves-Kept s _ (start_web_server-Kept s) h
  act-Serves stop s h = refl
  act-Serves work s h = ground arith
  act-Serves wake s h = ground arith
  act-Serves (event outside) s h = ground arith
  act-Serves (event within) s h = ground arith
  act-Serves (event l4_connected) s h = ground arith
  act-Serves (event l4_disconnected) s h = ground arith

  run-Serves :
      (acts : List Act) (s : Server C W) → Serves s → Serves (run settings system build acts s)
  unfolding run
  run-Serves [] s h = h
  run-Serves (a ∷ acts) s h = run-Serves acts (act settings system build a s) (act-Serves a s h)

  -- Whatever calls, events and work come in whatever order, a server that is marked as running has
  -- not been asked to quit.
  pub running_has_no_quit :
      (acts : List Act) (n : ℕ) (nvs : Nvs C W)
      → let s = run settings system build acts (boot n nvs) in s.running && s.want_to_quit ≡ false
  running_has_no_quit acts n nvs = run-Serves acts (boot n nvs) refl
