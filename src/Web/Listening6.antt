-- ===== src/Web/Listening6.antt =====
-- The listening thread over IPv6: `process_tcp6` of src/ob_web_server.c, for a server over IPv6
-- alone, whose slots are `tcp6_accepted` and `tcp6_handler_tid`.
use onboarding.Base.{
  ℕ, ◌≡◌, refl, Bool, true, false, List, [], ◌∷◌, ◌++◌, ℤ, pos, is_neg, is_zero, neg_errno, arith,
  All, ◌||◌, not, ◌⊎◌, if◌then◌else◌,
}
use onboarding.Web.Net.{Net}
use onboarding.Web.Slots.{Listener, Accept, process_tcp}
use onboarding.Web.Listening.{Sockets, setup, enters_loop}

-- `tcp6_listen_sock`, with the slots.
pub record Tcp6 (W : Type 0) : Type 0 where
  pub listen_sock : ℤ
  pub listener : Listener W

module _ {W : Type 0} (net : Net W) where
  -- `while (ret == 0 || !want_to_quit)`, which is left by a return when a result is not 0. The
  -- result says whether it was left.
  unfoldable pub accept_loop6 : List Accept → Listener W → Bool × Listener W
  unfolding process_tcp
  accept_loop6 [] s = (false, s)
  accept_loop6 (a ∷ as') s =
      let (ret, s') = process_tcp net a s in
      let again = accept_loop6 as' s' in if is_zero ret then again else (true, s')

module _ {W : Type 0} (net : Net W) (sockets : Sockets W) where
  -- `process_tcp6`, over what `want_to_quit` is when the loop is met, and what `zsock_accept`
  -- reports. The result says whether the thread has ended; nothing is closed at its end.
  unfoldable pub process_tcp6 : Bool → Bool → List Accept → Tcp6 W → Bool × Tcp6 W
  unfolding setup accept_loop6
  process_tcp6 https want_to_quit accepts s =
      let (ret, sock, w) = setup sockets https s.listener.world in
      let t : Tcp6 W = record { listen_sock = sock; listener = record s.listener { world = w } } in
      if is_neg ret
      then (true, t)
      else (let (left, l) = accept_loop6 net accepts t.listener in
          if is_zero ret || not want_to_quit then (left, record t { listener = l }) else (true, t))

-- An accept that gives a connection, and one that fails with an errno above 0.
abbrev pub Gives : Accept → Type 0
Gives a = is_neg a.client ≡ false

abbrev pub Fails : Accept → Type 0
Fails a = (is_neg a.client ≡ true) × (is_zero (neg_errno a.errno) ≡ false)

module _ {W : Type 0} (net : Net W) where
  given : (a : Accept) (s : Listener W) → Gives a → is_zero (process_tcp net a s).0 ≡ true
  unfolding process_tcp
  given a s h = ground arith

  failed_accept :
      (a : Accept) (s : Listener W)
      → Fails a
      → (is_zero (process_tcp net a s).0 ≡ false) × ((process_tcp net a s).1 ≡ s)
  unfolding process_tcp
  failed_accept a s h = ground arith

  accept_loop6-Fails :
      (before later : List Accept) (a : Accept) (s : Listener W)
      → All Gives before
      → Fails a
      → accept_loop6 net (before ++ a ∷ later) s ≡ (true, (accept_loop6 net before s).1)
  unfolding accept_loop6
  accept_loop6-Fails [] later a s h q =
      let (left, same) = failed_accept a s q in rw (left, same) refl
  accept_loop6-Fails (b ∷ before) later a s h q =
      rw (given b s h.0) (accept_loop6-Fails before later a (process_tcp net b s).1 h.1 q)

module _ {W : Type 0} (net : Net W) (sockets : Sockets W) where
  -- Over IPv6 the thread that listens ends at the first accept that fails, also when the server
  -- was not asked to quit, and leaves its socket open.
  process_tcp6_ends :
      (https quit : Bool) (before later : List Accept) (a : Accept) (s : Tcp6 W) (ret : ℕ)
      (sock : ℤ) (w : W)
      → setup sockets https s.listener.world ≡ (pos ret, sock, w)
      → (ret ≡ 0) ⊎ (quit ≡ false)
      → All Gives before
      → Fails a
      → process_tcp6 net sockets https quit (before ++ a ∷ later) s ≡ (
        true,
        record {
          listen_sock = sock;
          listener = (accept_loop6 net before (record s.listener { world = w })).1;
        },
      )
  unfolding process_tcp6
  process_tcp6_ends https quit before later a s ret sock w up enters h q =
      rw
        (
          up,
          enters_loop ret quit enters,
          accept_loop6-Fails net before later a (record s.listener { world = w }) h q,
        )
        refl
