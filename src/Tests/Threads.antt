-- ===== src/Tests/Threads.antt =====
-- Concrete listeners, threads and servers of src/ob_web_server.c.
use onboarding.Base.{
  ℕ, ◌≡◌, ◌≢◌, refl, ◌++◌, true, false, none, some, List, [], ◌∷◌, pos, minus_one, arith, Bytes,
  codes, get_elem?, inl, ◌*◌, ◌+◌,
}
use onboarding.Nvs.{Settings, Nvs}
use onboarding.Web.Net
use onboarding.Web.Request.Head.{read_head}
use onboarding.Web.Request.Serve.{Conn, client_conn_handler}
use onboarding.Web.Slots.{process_tcp, get_free_slot, take_slot, accept_loop, busy}
use onboarding.Web.Listening.{Sockets, setup, bind_and_listen, process_tcp4, process_tcp4_ends}
use onboarding.Web.Threads.{
  Threads, idle, serves, failed, overrun, accepted, left_handler, thread_returned, receive_failed,
  accepts, fails, answers, returns, receive_failed-accepted,
}
use onboarding.Web.Threads.Agree.{serving, FreeSlot}
use onboarding.Web.Threads.Safety.{Reach, start, later, no_stack_is_shared}
use onboarding.Web.Life
use onboarding.Web.Life.{
  System, Build, Server, Act, work, wake, event, l4_connected, l4_disconnected, outside, stop, boot,
  run,
}
use onboarding.Web.Life.Network.{listens_once_connected}
use onboarding.Tests.Fixtures.{test_net, test_call}
use onboarding.Tests.Server.{good_accept, bad_accept, two_slots}

abbrev sockets : Sockets Bytes
sockets = record {
  socket = λ tls w. (pos 5, w);
  set_tls = λ s w. (pos 0, w);
  bind = λ s w. (pos 0, w);
  listen = λ s w. (pos 0, w);
  close = λ s w. w ++ codes "closed";
}

process_tcp4_example :
    process_tcp4 test_net sockets false true
      (good_accept ∷ bad_accept ∷ good_accept ∷ [])
      (record { listen_sock = minus_one; listener = two_slots })
    ≡ (
      true,
      record {
        listen_sock = minus_one;
        listener = record (accept_loop test_net (good_accept ∷ []) two_slots).1 {
          world = codes "closed";
        };
      },
    )
unfolding setup bind_and_listen accept_loop process_tcp get_free_slot take_slot
process_tcp4_example =
    process_tcp4_ends test_net sockets false true (good_accept ∷ []) (good_accept ∷ []) bad_accept
      (record { listen_sock = minus_one; listener = two_slots }) 5 0 [] refl (inl refl)
      (inl refl, tt) (refl, refl)

abbrev one_thread : Threads ℕ Bytes
one_thread = record {
  listener = record { accepted = pos 9 ∷ minus_one ∷ []; handlers = true ∷ false ∷ []; world = [] };
  pages = [];
  places = serves 9 ∷ idle ∷ [];
}

abbrev closed_conn : Conn ℕ Bytes
closed_conn = record { pages = []; sock = minus_one; in_use = false; world = [] }

-- A connection is accepted, its receive fails, and its thread answers and returns.
abbrev lost : Threads ℕ Bytes
lost = receive_failed test_net test_call false 0 9 one_thread

abbrev gone : Threads ℕ Bytes
gone =
    thread_returned test_net test_call false 0
      (left_handler test_net test_call false 0 closed_conn lost)

served : Reach test_net test_call false 2 [] [] gone
unfolding accepted receive_failed left_handler thread_returned process_tcp get_free_slot take_slot
    client_conn_handler read_head
served =
    later
      (later (later (later start (accepts good_accept) (tt, (tt, tt))) (fails 0 9 refl) tt)
        (answers 0 9 (Net.failed 5 ∷ []) closed_conn refl refl) tt)
      (returns 0 refl) tt

no_stack_is_shared_example :
    ((i : ℕ) → get_elem? gone.places i ≢ some overrun)
    × ((i client : ℕ)
        → get_elem? gone.places i ≡ some (serves client)
        → get_elem? gone.listener.accepted i ≡ some (pos client))
    × (serving gone.places ≡ busy gone.listener.accepted)
    × ((i : ℕ)
        → get_free_slot gone.listener.accepted ≡ some i
        → FreeSlot gone.listener.handlers gone.places i)
no_stack_is_shared_example = no_stack_is_shared test_net test_call false 2 [] [] gone served

receive_failed_example :
    (get_elem? lost.places 0 ≡ some (failed 9))
    × (accepted test_net test_call false good_accept lost
        ≡ record one_thread { places = overrun ∷ idle ∷ [] })
unfolding receive_failed
receive_failed_example =
    receive_failed-accepted test_net test_call false 0 9 9 good_accept one_thread refl refl
      (omega arith) tt

abbrev system : System ℕ
system = record {
  thread_start = λ w. w * 10 + 2;
  thread_abort = λ w. w * 10 + 1;
  tls_credential_add = λ kind cert n w. (pos 0, w);
  watch_network = λ w. w;
}

abbrev settings : Settings ℕ
settings = record {
  subsys_init = λ w. w;
  load_one = λ k n w. (pos 0, []);
  save_one = λ k v w. (pos 0, w);
  delete = λ k w. (pos 0, w);
  load_subtree_direct = λ cb w. (pos 0, w);
}

abbrev managed : Build
managed = record {
  https = false;
  cert_files = record {
    generated = false;
    ca_certificate = [];
    device_certificate = [];
    device_private_key = [];
  };
  managed = true;
}

abbrev nvs : Nvs ℕ ℕ
nvs = record { nvs_data_inited = false; mirror_callback = none; world = 0 }

abbrev before : List Act
before = event outside ∷ Life.start ∷ work ∷ event l4_disconnected ∷ wake ∷ []

listens_example :
    ((run settings system managed before (boot 2 nvs)).thread_started ≡ false)
    × ((run settings system managed
          (before ++ (Life.start ∷ work ∷ event l4_connected ∷ wake ∷ []))
          (boot 2 nvs)).thread_started
        ≡ true)
listens_example =
    listens_once_connected settings system managed before 2 nvs refl
      (tt, (tt, (tt, (tt, (tt, tt)))))

abbrev waiting_server : Server ℕ ℕ
waiting_server = record (boot 2 nvs) { web_server_inited = true; running = true; waiting = true }

abbrev after_stop : Server ℕ ℕ
after_stop = run settings system managed (stop ∷ event l4_disconnected ∷ wake ∷ []) waiting_server
