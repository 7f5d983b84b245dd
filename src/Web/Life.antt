-- ===== src/Web/Life.antt =====
-- The life of the server of src/ob_web_server.c: `init_web_server`, `start_web_server` with its
-- work, `stop_web_server` and the handler of network events.
pub mod Running
pub mod Network
pub mod Credentials
use onboarding.Base.{
  ℕ, ◌≡◌, refl, ap, sym, ◌∙◌, Bool, Option, Bytes, true, false, not, ◌||◌, ◌&&◌, List, [], ◌∷◌,
  ◌++◌, ℤ, pos, negsuc, is_neg, minus_one, arith, All, if◌then◌else◌, replicate,
}
use onboarding.Certs.{
  CertFiles, CertType, ca_cert, public_cert, private_key, ob_cert_get, ob_cert_len,
}
use onboarding.Nvs.{Settings, Nvs, data_init}
use onboarding.Web.Slots.{Listener}
use onboarding.Web.Listening.{start_listener}

-- What a network event is to the handler: outside EVENT_MASK, one of the two of the mask, or
-- another one within it.
pub data Event : Type 0 where
  outside within l4_connected l4_disconnected : Event

-- TLS_CREDENTIAL_CA_CERTIFICATE, TLS_CREDENTIAL_SERVER_CERTIFICATE and
-- TLS_CREDENTIAL_PRIVATE_KEY
pub data Credential : Type 0 where
  tls_ca_certificate tls_server_certificate tls_private_key : Credential

-- The calls of the operating system.
pub record System (W : Type 0) : Type 0 where
  -- `k_thread_start` and `k_thread_abort` of the thread that listens
  pub thread_start : W → W
  pub thread_abort : W → W
  -- `tls_credential_add(sec_tag_list[0], …)`, of a buffer and its length
  pub tls_credential_add : Credential → Option Bytes → ℕ → W → ℤ × W
  -- `net_mgmt_add_event_callback` and `conn_mgr_mon_resend_status`
  pub watch_network : W → W

-- How the server is built.
pub record Build : Type 0 where
  pub https : Bool
  pub cert_files : CertFiles
  -- CONFIG_NET_CONNECTION_MANAGER
  pub managed : Bool

pub record Server (C W : Type 0) : Type 0 where
  pub web_server_inited : Bool
  -- `mWebServerRunning`
  pub running : Bool
  pub want_to_quit : Bool
  pub connected : Bool
  -- the count of the semaphore, at most 1
  pub run_app : Bool
  -- `start_web_server_work` is submitted
  pub submitted : Bool
  -- the work waits in `k_sem_take(&run_app, K_FOREVER)`
  pub waiting : Bool
  -- `k_thread_start` was called behind the last `k_thread_abort`
  pub thread_started : Bool
  pub accepted : List ℤ
  pub handlers : List Bool
  pub nvs : Nvs C W

module _ {C W : Type 0} where
  -- `ob_web_event_handler`
  unfoldable pub web_event_handler : Event → Server C W → Server C W
  web_event_handler outside s = s
  web_event_handler within s = if s.want_to_quit then record s { run_app = true } else s
  web_event_handler l4_connected s =
      if s.want_to_quit
      then record s { run_app = true }
      else record s { connected = true; run_app = true }
  web_event_handler l4_disconnected s =
      if s.want_to_quit then record s { run_app = true } else record s { connected = false }

module _ {C W : Type 0} (system : System W) where
  -- `stop_web_server`; its result is 0.
  unfoldable pub stop_web_server : Server C W → Server C W
  stop_web_server s = record s {
    want_to_quit = true;
    thread_started = false;
    nvs = record s.nvs { world = system.thread_abort s.nvs.world };
    running = false;
  }

  unfoldable pub listen : Server C W → Server C W
  listen s =
      let l =
        start_listener system.thread_start
          (record { accepted = s.accepted; handlers = s.handlers; world = s.nvs.world }) in
      record s {
        accepted = l.accepted;
        thread_started = true;
        nvs = record s.nvs { world = l.world };
      }

  -- `k_sem_take` with no time limit, which does not fail, and `start_listener`.
  unfoldable pub take_run_app : Server C W → Server C W
  take_run_app s =
      if s.run_app
      then listen (record s { run_app = false; waiting = false })
      else record s { waiting = true }

  -- `do_start_web_server`, as far as the semaphore lets it
  unfoldable pub do_start_web_server : Build → Server C W → Server C W
  unfolding take_run_app
  do_start_web_server build s =
      if s.running
      then s
      else take_run_app (record s {
        running = true;
        want_to_quit = false;
        run_app = s.run_app || not build.managed;
      })

module _ {W : Type 0} (system : System W) where
  -- A credential, with what ob_certs.c holds of it
  abbrev pub add_credential : CertFiles → Credential → CertType → W → ℤ × W
  add_credential files kind type w =
      system.tls_credential_add kind (ob_cert_get files type) (ob_cert_len files type) w

  -- The three credentials; each result but the last is overwritten.
  unfoldable pub add_credentials : CertFiles → W → ℤ × W
  unfolding ob_cert_get ob_cert_len
  add_credentials files w =
      let w1 = (add_credential files tls_ca_certificate ca_cert w).1 in
      let w2 = (add_credential files tls_server_certificate public_cert w1).1 in
      add_credential files tls_private_key private_key w2

-- What happens to the server: a call, a network event, the work queue running the submitted
-- work, and the waiting work taking the semaphore. Events reach the handler once
-- `init_web_server` has registered it.
pub data Act : Type 0 where
  start stop work wake : Act
  event : Event → Act

module _ {C W : Type 0} (settings : Settings W) (system : System W) (build : Build) where
  unfoldable pub init_web_server : Server C W → ℤ × Server C W
  unfolding data_init add_credentials
  init_web_server s =
      let (err, nvs) = data_init settings s.nvs in
      if is_neg err
      then (err, record s { nvs = nvs })
      else let (ret, w) =
          (if build.https
            then add_credentials system build.cert_files nvs.world
            else (err, nvs.world)) in
        let w' = if build.managed then system.watch_network w else w in
        (ret, record s { nvs = record nvs { world = w' }; web_server_inited = true })

  unfoldable pub start_web_server : Server C W → Server C W
  unfolding init_web_server
  start_web_server s =
      let t = if s.web_server_inited then s else (init_web_server s).1 in
      record t { submitted = true }

  unfoldable pub act : Act → Server C W → Server C W
  unfolding do_start_web_server web_event_handler
  act start s = start_web_server s
  act stop s = stop_web_server system s
  act work s =
      if s.submitted && not s.waiting
      then do_start_web_server system build (record s { submitted = false })
      else s
  act wake s = if s.waiting && s.run_app then take_run_app system s else s
  act (event e) s = if build.managed && s.web_server_inited then web_event_handler e s else s

  unfoldable pub run : List Act → Server C W → Server C W
  unfolding act
  run [] s = s
  run (a ∷ acts) s = run acts (act a s)

-- The server before the first call, with n slots.
abbrev pub boot : {C W : Type 0} → ℕ → Nvs C W → Server C W
boot n nvs = record {
  web_server_inited = false;
  running = false;
  want_to_quit = false;
  connected = false;
  run_app = false;
  submitted = false;
  waiting = false;
  thread_started = false;
  accepted = replicate n (pos 0);
  handlers = replicate n false;
  nvs = nvs;
}
