-- ===== src/Web/Life/Network.antt =====
-- The server of src/ob_web_server.c and the network: what a start waits for.
use onboarding.Base.{
  ℕ, ◌≡◌, refl, sym, ◌∙◌, Bool, true, false, ◌&&◌, List, [], ◌∷◌, ◌++◌, arith, All, if◌then◌else◌,
}
use onboarding.Nvs.{Settings, Nvs}
use onboarding.Web.Life.{
  outside, within, l4_connected, l4_disconnected, System, Build, Server, Act, start, stop, work,
  wake, event, act, run, boot, web_event_handler, listen, take_run_app, do_start_web_server,
  start_web_server,
}
use onboarding.Web.Life.Running.{Kept, start_web_server-Kept, start-inited}

-- Neither a stop nor the event that the network is connected.
abbrev pub Quiet : Act → Type 0
Quiet start = Unit
Quiet stop = ⊥
Quiet work = Unit
Quiet wake = Unit
Quiet (event outside) = Unit
Quiet (event within) = Unit
Quiet (event l4_connected) = ⊥
Quiet (event l4_disconnected) = Unit

module _ {C W : Type 0} where
  -- The server before the network: it runs exactly while its work waits.
  pub record Before (s : Server C W) : Type 0 where
    pub runs : s.running ≡ s.waiting
    pub goes_on : s.want_to_quit ≡ false
    pub not_given : s.run_app ≡ false
    pub silent : s.thread_started ≡ false

  Before-if : (b : Bool) (s t : Server C W) → Before s → Before t → Before (if b then s else t)
  Before-if true s t h k = h
  Before-if false s t h k = k

  Before-Kept : (s t : Server C W) → Kept s t → Before s → Before t
  Before-Kept s t k h = record {
    runs = k.runs ∙ h.runs ∙ sym k.waits;
    goes_on = k.quit ∙ h.goes_on;
    not_given = k.given ∙ h.not_given;
    silent = k.hears ∙ h.silent;
  }

module _ {C W : Type 0} (settings : Settings W) (system : System W) (build : Build) where
  act-Before :
      (a : Act) (s : Server C W)
      → build.managed ≡ true
      → Quiet a
      → Before s
      → Before (act settings system build a s)
  unfolding act web_event_handler do_start_web_server take_run_app listen
  act-Before start s m q h = Before-Kept s _ (start_web_server-Kept settings system build s) h
  act-Before stop s m q h = elim q [ ]
  act-Before work s m q h = record {
    runs = ground (arith, h.runs, h.not_given);
    goes_on = ground (arith, h.goes_on, h.not_given);
    not_given = ground (arith, h.not_given);
    silent = ground (arith, h.silent, h.not_given);
  }
  act-Before wake s m q h = record {
    runs = ground (arith, h.runs, h.not_given);
    goes_on = ground (arith, h.goes_on, h.not_given);
    not_given = ground (arith, h.not_given);
    silent = ground (arith, h.silent, h.not_given);
  }
  act-Before (event outside) s m q h = Before-if (build.managed && s.web_server_inited) s s h h
  act-Before (event within) s m q h =
      Before-if (build.managed && s.web_server_inited) (web_event_handler within s) s
        (rw (h.goes_on)
          (record { runs = h.runs; goes_on = refl; not_given = h.not_given; silent = h.silent }))
        h
  act-Before (event l4_connected) s m q h = elim q [ ]
  act-Before (event l4_disconnected) s m q h =
      Before-if (build.managed && s.web_server_inited) (web_event_handler l4_disconnected s) s
        (rw (h.goes_on)
          (record { runs = h.runs; goes_on = refl; not_given = h.not_given; silent = h.silent }))
        h

  run-Before :
      (acts : List Act) (s : Server C W)
      → build.managed ≡ true
      → All Quiet acts
      → Before s
      → Before (run settings system build acts s)
  unfolding run
  run-Before [] s m q h = h
  run-Before (a ∷ acts) s m q h =
      run-Before acts (act settings system build a s) m q.1 (act-Before a s m q.0 h)

  start-submitted : (s : Server C W) → (act settings system build start s).submitted ≡ true
  unfolding act start_web_server
  start-submitted s = refl

  work-waiting :
      (s : Server C W)
      → build.managed ≡ true
      → Before s
      → s.submitted ≡ true
      → (act settings system build work s).waiting ≡ true
  unfolding act do_start_web_server take_run_app listen
  work-waiting s m h sub = ground (arith, m, sub, h.runs, h.not_given)

  work-inited :
      (s : Server C W) → (act settings system build work s).web_server_inited ≡ s.web_server_inited
  unfolding act do_start_web_server take_run_app listen
  work-inited s = ground arith

  connected-listens :
      (s : Server C W)
      → build.managed ≡ true
      → s.web_server_inited ≡ true
      → Before s
      → s.waiting ≡ true
      → (run settings system build (event l4_connected ∷ wake ∷ []) s).thread_started ≡ true
  unfolding run act web_event_handler take_run_app listen
  connected-listens s m inited h waits = ground (arith, waits, h.goes_on, m, inited)

  start-listens :
      (s : Server C W)
      → build.managed ≡ true
      → Before s
      → (run settings system build (start ∷ work ∷ event l4_connected ∷ wake ∷ []) s).thread_started
        ≡ true
  unfolding run
  start-listens s m h =
      let t = act settings system build start s in
      let ht = act-Before start s m tt h in
      connected-listens (act settings system build work t) m
        (work-inited t ∙ start-inited settings system build s) (act-Before work t m tt ht)
        (work-waiting t m ht (start-submitted s))

  run_append :
      (before after : List Act) (s : Server C W)
      → run settings system build (before ++ after) s
        ≡ run settings system build after (run settings system build before s)
  unfolding run
  run_append [] after s = refl
  run_append (a ∷ before) after s = run_append before after (act settings system build a s)

  -- With the connection manager, the thread that listens is not started before the network is
  -- connected, whatever other calls, events and work came before, when no stop did; and from
  -- there a start, its work, the connection and the work going on start it.
  pub listens_once_connected :
      (acts : List Act) (n : ℕ) (nvs : Nvs C W)
      → build.managed ≡ true
      → All Quiet acts
      → ((run settings system build acts (boot n nvs)).thread_started ≡ false)
        × ((run settings system build
              (acts ++ (start ∷ work ∷ event l4_connected ∷ wake ∷ []))
              (boot n nvs)).thread_started
            ≡ true)
  listens_once_connected acts n nvs m q =
      let h =
        run-Before acts (boot n nvs) m q
          (record { runs = refl; goes_on = refl; not_given = refl; silent = refl }) in
      (h.silent, rw (run_append acts _ (boot n nvs)) (start-listens _ m h))
