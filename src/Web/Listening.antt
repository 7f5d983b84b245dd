-- ===== src/Web/Listening.antt =====
-- The listening socket: `setup`, `process_tcp4` and `start_listener` of src/ob_web_server.c, for
-- a server over IPv4 alone.
use onboarding.Base.{
  ℕ, suc, ap, length, ◌≡◌, refl, Bool, true, false, List, [], ◌∷◌, ◌++◌, ℤ, pos, negsuc, is_neg,
  is_zero, minus_one, All, ◌||◌, not, ◌⊎◌, arith, if◌then◌else◌,
}
use onboarding.Web.Net.{Net}
use onboarding.Web.Slots.{Listener, Accept, accept_loop, Continues, Stops, accept_loop-Stops}

-- The calls that make a listening socket.
pub record Sockets (W : Type 0) : Type 0 where
  -- `zsock_socket`, for TLS or not
  pub socket : Bool → W → ℤ × W
  -- `zsock_setsockopt(sock, SOL_TLS, TLS_SEC_TAG_LIST, …)`
  pub set_tls : ℤ → W → ℤ × W
  pub bind : ℤ → W → ℤ × W
  -- `zsock_listen(sock, MAX_CLIENT_QUEUE)`
  pub listen : ℤ → W → ℤ × W
  -- `zsock_close`, and errno
  pub close : ℤ → W → W

module _ {W : Type 0} (sockets : Sockets W) where
  -- `setup` behind the creation of the socket
  unfoldable pub bind_and_listen : ℤ → W → ℤ × W
  bind_and_listen sock w =
      let (bound, w1) = sockets.bind sock w in
      if is_neg bound
      then (minus_one, w1)
      else let (ret, w2) = sockets.listen sock w1 in
        if is_neg ret then (minus_one, w2) else (ret, w2)

  -- `setup`: the result, `*sock` and the world. With TLS, the result of the option is
  -- overwritten by that of `zsock_bind`.
  unfoldable pub setup : Bool → W → ℤ × ℤ × W
  unfolding bind_and_listen
  setup https w =
      let (sock, w1) = sockets.socket https w in
      if is_neg sock
      then (minus_one, sock, w1)
      else let w2 = if https then (sockets.set_tls sock w1).1 else w1 in
        let (ret, w3) = bind_and_listen sock w2 in (ret, sock, w3)

-- `tcp4_listen_sock`, with the slots.
pub record Tcp4 (W : Type 0) : Type 0 where
  pub listen_sock : ℤ
  pub listener : Listener W

module _ {W : Type 0} (net : Net W) (sockets : Sockets W) where
  -- The end of `process_tcp4`
  unfoldable pub close_listener : Tcp4 W → Tcp4 W
  close_listener s = if is_neg s.listen_sock then s else record {
    listen_sock = minus_one;
    listener = record s.listener { world = sockets.close s.listen_sock s.listener.world };
  }

  -- `process_tcp4`, over what `want_to_quit` is when the loop is met, and what `zsock_accept`
  -- reports. The result says whether the thread has ended.
  unfoldable pub process_tcp4 : Bool → Bool → List Accept → Tcp4 W → Bool × Tcp4 W
  unfolding setup close_listener
  process_tcp4 https want_to_quit accepts s =
      let (ret, sock, w) = setup sockets https s.listener.world in
      let t : Tcp4 W = record { listen_sock = sock; listener = record s.listener { world = w } } in
      if is_neg ret
      then (true, t)
      else (let (left, l) = accept_loop net accepts t.listener in
          if is_zero ret || not want_to_quit
          then (if left
              then (true, close_listener (record t { listener = l }))
              else (false, record t { listener = l }))
          else (true, close_listener t))

-- `tcp4_accepted[i] = -1`, for each slot.
unfoldable pub all_free : List ℤ → List ℤ
all_free [] = []
all_free (a ∷ accepted) = minus_one ∷ all_free accepted

pub All-all_free : (accepted : List ℤ) → All (λ a. a ≡ minus_one) (all_free accepted)
unfolding all_free
All-all_free [] = tt
All-all_free (a ∷ accepted) = (refl, All-all_free accepted)

pub length-all_free : (accepted : List ℤ) → length (all_free accepted) ≡ length accepted
unfolding all_free
length-all_free [] = refl
length-all_free (a ∷ accepted) = ap suc (length-all_free accepted)

-- `start_listener`: every slot is marked free, and the thread is started.
unfoldable pub start_listener : {W : Type 0} → (thread_start : W → W) → Listener W → Listener W
unfolding all_free
start_listener thread_start l = record l {
  accepted = all_free l.accepted;
  world = thread_start l.world;
}

pub enters_loop :
    (ret : ℕ) (quit : Bool) → (ret ≡ 0) ⊎ (quit ≡ false) → (is_zero (pos ret) || not quit) ≡ true
enters_loop ret quit h = ground arith

module _ {W : Type 0} (net : Net W) (sockets : Sockets W) where
  close_listener_lem :
      (sock : ℕ) (l : Listener W)
      → close_listener net sockets (record { listen_sock = pos sock; listener = l }) ≡ record {
        listen_sock = minus_one;
        listener = record l { world = sockets.close (pos sock) l.world };
      }
  unfolding close_listener
  close_listener_lem sock l = refl

  -- Where the socket was set up with the result 0, or nobody has asked to quit by then: the loop
  -- goes on at every accept that succeeds, even when the server was asked to quit, and at every
  -- one that fails when it was not. The thread ends at the first accept that fails after the
  -- server was asked to quit. It has then closed its socket, and the slots are those of the
  -- accepts before.
  pub process_tcp4_ends :
      (https quit : Bool) (before later : List Accept) (a : Accept) (s : Tcp4 W) (sock ret : ℕ)
      (w : W)
      → setup sockets https s.listener.world ≡ (pos ret, pos sock, w)
      → (ret ≡ 0) ⊎ (quit ≡ false)
      → All Continues before
      → Stops a
      → process_tcp4 net sockets https quit (before ++ a ∷ later) s ≡ (
        true,
        (let l = (accept_loop net before (record s.listener { world = w })).1 in
            record {
              listen_sock = minus_one;
              listener = record l { world = sockets.close (pos sock) l.world };
            }),
      )
  unfolding process_tcp4
  process_tcp4_ends https quit before later a s sock ret w up enters goes stops =
      rw
        (
          up,
          enters_loop ret quit enters,
          accept_loop-Stops net before later a (record s.listener { world = w }) goes stops,
        )
        refl

  -- When the socket cannot be bound or cannot listen, the thread ends and leaves the socket
  -- open: nothing is closed behind the call that failed, and `tcp4_listen_sock` keeps the socket.
  pub process_tcp4_unbound :
      (quit : Bool) (accepts : List Accept) (s : Tcp4 W) (sock e : ℕ) (w w1 : W)
      → sockets.socket false s.listener.world ≡ (pos sock, w)
      → bind_and_listen sockets (pos sock) w ≡ (negsuc e, w1)
      → process_tcp4 net sockets false quit accepts s
        ≡ (true, record { listen_sock = pos sock; listener = record s.listener { world = w1 } })
  unfolding process_tcp4 setup
  process_tcp4_unbound quit accepts s sock e w w1 made failed = rw (made, failed) refl
