-- ===== src/Web/Threads.antt =====
-- The threads that serve connections, of src/ob_web_server.c: the listener fills slots by
-- `process_tcp`, and the thread of a slot runs `client_conn_handler`, which frees the slot. There
-- is one stack and one thread structure for each slot.
pub mod Agree
pub mod Safety
use onboarding.Base.{
  ℕ, zero, suc, ◌<◌, ◌≡◌, ◌≢◌, refl, ap, ◌∙◌, Bool, true, false, Option, none, some, List, [], ◌∷◌,
  ℤ, pos, negsuc, is_neg, minus_one, arith, length, get_elem?, set, replicate, All, take,
  if◌then◌else◌, get_elem?-set_self, lt-length,
}
use onboarding.Web.Net.{Net, Recv}
use onboarding.Web.Page.{Page}
use onboarding.Web.Request.Head.{
  Received, initial, left, waiting, fault, socket_error, end_of_head, peer_closed, read_head,
}
use onboarding.Web.Request.Serve.{Call, Conn, handled, client_conn_handler}
use onboarding.Web.Slots.{Listener, Accept, process_tcp, get_free_slot, take_slot}

-- Where the thread of a slot is: not created or ended; in the handler, with the socket `client`;
-- in it behind a receive that failed; behind `*sock = -1` at its end. `overrun`: another thread was
-- created on its stack and structure before it ended.
pub data Place : Type 0 where
  idle leaves overrun : Place
  serves failed : ℕ → Place

-- The listener, the pages and the threads of the slots
pub record Threads (C W : Type 0) : Type 0 where
  pub listener : Listener W
  pub pages : List (Page C)
  pub places : List Place

abbrev pub new_thread : ℕ → Option Place → Place
new_thread client none = overrun
new_thread client (some idle) = serves client
new_thread client (some leaves) = overrun
new_thread client (some overrun) = overrun
new_thread client (some (serves c)) = overrun
new_thread client (some (failed c)) = overrun

-- `k_thread_create` on the structure of the slot, where there is one.
abbrev pub create_thread : ℕ → Option ℕ → List Place → List Place
create_thread client none places = places
create_thread client (some slot) places =
    set places slot (new_thread client (get_elem? places slot))

-- Where a handler of `client` is when it has received what it reads of the request
abbrev pub place_behind : ℕ → Received → Place
place_behind client (left end_of_head h rest) = serves client
place_behind client (left peer_closed h rest) = serves client
place_behind client (left (socket_error e) h rest) = failed client
place_behind client (waiting h) = serves client
place_behind client fault = serves client

module _ {C W : Type 0} (net : Net W) (call : Call C W) (has_ap : Bool) where
  -- `process_tcp`, with the thread it creates.
  unfoldable pub accepted : Accept → Threads C W → Threads C W
  accepted a s = record s {
    listener = (process_tcp net a s.listener).1;
    places = elim a.client [
      | negsuc _ ↦ s.places
      | pos client ↦ create_thread client (get_free_slot s.listener.accepted) s.places
    ];
  }

  -- A failed receive: `*sock = -1` in the loop of the handler, long before its end.
  unfoldable pub receive_failed : ℕ → ℕ → Threads C W → Threads C W
  receive_failed slot client s = record s {
    listener = record s.listener { accepted = set s.listener.accepted slot minus_one };
    places = set s.places slot (failed client);
  }

  -- The answer and the closing of the socket, and `*sock = -1`.
  unfoldable pub left_handler : ℕ → Conn C W → Threads C W → Threads C W
  left_handler slot conn s = record {
    listener = record s.listener {
      accepted = set s.listener.accepted slot conn.sock;
      world = conn.world;
    };
    pages = conn.pages;
    places = set s.places slot leaves;
  }

  -- `*in_use = NULL`, and the return of the thread.
  unfoldable pub thread_returned : ℕ → Threads C W → Threads C W
  thread_returned slot s = record s {
    listener = record s.listener { handlers = set s.listener.handlers slot false };
    places = set s.places slot idle;
  }

  -- A step of the listener or of a handler, which receives, answers and closes in one step, unless
  -- a receive fails, and returns in another.
  pub data Step (s : Threads C W) : Threads C W → Type 0 where
    accepts : (a : Accept) → Step s (accepted a s)
    fails :
        (slot client : ℕ)
        → get_elem? s.places slot ≡ some (serves client)
        → Step s (receive_failed slot client s)
    answers :
        (slot client : ℕ) (reports : List Recv) (conn : Conn C W)
        → get_elem? s.places slot ≡ some (place_behind client (read_head initial reports))
        → client_conn_handler net call has_ap s.pages client reports s.listener.world ≡ handled conn
        → Step s (left_handler slot conn s)
    returns : (slot : ℕ) → get_elem? s.places slot ≡ some leaves → Step s (thread_returned slot s)

  -- A server with n slots, after `start_listener`.
  abbrev pub ready : ℕ → List (Page C) → W → Threads C W
  ready n pages w = record {
    listener = record { accepted = replicate n minus_one; handlers = replicate n false; world = w };
    pages = pages;
    places = replicate n idle;
  }

-- The search finds an entry below 0 behind entries in use.
get_free_slot-set :
    (socks : List ℤ) (i e : ℕ)
    → All (λ a. is_neg a ≡ false) (take i socks)
    → i < length socks
    → get_free_slot (set socks i (negsuc e)) ≡ some i
unfolding get_free_slot
get_free_slot-set [] i e h l = absurd (omega arith)
get_free_slot-set (x ∷ socks) zero e h l = refl
get_free_slot-set (x ∷ socks) (suc i) e h l =
    rw (h.0, get_free_slot-set socks i e h.1 (omega (arith, l))) refl

module _ {C W : Type 0} (net : Net W) (call : Call C W) (has_ap : Bool) where
  -- When a receive fails, the handler marks its slot free at once and goes on. If a connection is
  -- accepted before its end and the slots before it are in use, the connection gets this slot:
  -- a thread is created on the stack and the structure of the thread that still runs.
  pub receive_failed-accepted :
      (i served client : ℕ) (a : Accept) (s : Threads C W)
      → a.client ≡ pos client
      → get_elem? s.places i ≡ some (serves served)
      → i < length s.listener.accepted
      → All (λ x. is_neg x ≡ false) (take i s.listener.accepted)
      → let t = receive_failed net call has_ap i served s in
        (get_elem? t.places i ≡ some (failed served))
        × (accepted net call has_ap a t ≡ record {
          listener = record {
            accepted = set (set s.listener.accepted i minus_one) i (pos client);
            handlers = set s.listener.handlers i true;
            world = s.listener.world;
          };
          pages = s.pages;
          places = set t.places i overrun;
        })
  unfolding receive_failed accepted process_tcp take_slot
  receive_failed-accepted i served client a s at lives l before =
      let still = get_elem?-set_self s.places i (failed served) (lt-length s.places i lives) in
      (still, rw (at, get_free_slot-set s.listener.accepted i 0 before l, still) refl)
