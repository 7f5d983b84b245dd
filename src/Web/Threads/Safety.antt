-- ===== src/Web/Threads/Safety.antt =====
-- When the slots of src/ob_web_server.c are safe: the steps of the listener and of the handlers in
-- any order, as long as nothing is accepted while a thread that has cleared its slot still runs.
use onboarding.Base.{
  ℕ, ◌≡◌, ◌≢◌, refl, sym, ap, subst, ◌∙◌, Bool, true, false, Option, none, some, List, ℤ, pos,
  negsuc, is_neg, minus_one, arith, get_elem?, set, All, set_same,
}
use onboarding.Web.Net.{Net, Recv}
use onboarding.Web.Page.{Page}
use onboarding.Web.Request.Head.{
  Received, initial, left, waiting, fault, socket_error, end_of_head, peer_closed, read_head,
}
use onboarding.Web.Request.Serve.{Call, Conn, handled, client_conn_handler}
use onboarding.Web.Slots.{Accept, process_tcp, get_free_slot, take_slot, busy}
use onboarding.Web.Threads.{
  Place, idle, leaves, overrun, serves, failed, Threads, create_thread, place_behind, accepted,
  receive_failed, left_handler, thread_returned, Step, accepts, fails, answers, returns, ready,
}
use onboarding.Web.Threads.Agree.{
  IsSettled, Fits, Agree, Agree-replicate, Agree-set, Agree-lookup, serving, Agree-busy, FreeSlot,
  found_slot, free_idle,
}

module _ {C W : Type 0} (net : Net W) (call : Call C W) (has_ap : Bool) where
  abbrev Holds : Threads C W → Type 0
  Holds s = Agree s.listener.accepted s.listener.handlers s.places

  taken-Holds :
      (client : ℕ) (o : Option ℕ) (s : Threads C W)
      → get_free_slot s.listener.accepted ≡ o
      → All IsSettled s.places
      → Holds s
      → Holds (record s {
        listener = take_slot net client o s.listener;
        places = create_thread client o s.places;
      })
  unfolding take_slot
  taken-Holds client none s f all h = h
  taken-Holds client (some i) s f all h =
      rw ((free_idle i h all f).0) (Agree-set i (pos client) true (serves client) h (refl, refl))

  accepted-Holds :
      (a : Accept) (client : ℤ) (s : Threads C W)
      → a.client ≡ client
      → All IsSettled s.places
      → Holds s
      → Holds (accepted net call has_ap a s)
  unfolding accepted process_tcp
  accepted-Holds a (negsuc e) s at all h = rw at h
  accepted-Holds a (pos client) s at all h =
      rw at (taken-Holds client (get_free_slot s.listener.accepted) s refl all h)

  handled_clears :
      (pages : List (Page C)) (client : ℕ) (reports : List Recv) (w : W) (conn : Conn C W)
      → client_conn_handler net call has_ap pages client reports w ≡ handled conn
      → conn.sock ≡ minus_one
  unfolding client_conn_handler
  handled_clears pages client reports w conn h = ground arith

  -- The slot of a thread that is in its handler, or behind it, is marked.
  marked :
      (s : Threads C W) (i : ℕ) (p : Place)
      → ((a : ℤ) (b : Bool) → Fits a b p → b ≡ true)
      → get_elem? s.places i ≡ some p
      → Holds s
      → set s.listener.handlers i true ≡ s.listener.handlers
  marked s i p is at h =
      let r = Agree-lookup i p h at in
      set_same s.listener.handlers i (r.marks_at ∙ ap some (is r.a r.b r.fits))

  place_behind-marked :
      (client : ℕ) (r : Received) (a : ℤ) (b : Bool) → Fits a b (place_behind client r) → b ≡ true
  place_behind-marked client (left end_of_head h rest) a b f = f.1
  place_behind-marked client (left peer_closed h rest) a b f = f.1
  place_behind-marked client (left (socket_error e) h rest) a b f = f.1
  place_behind-marked client (waiting h) a b f = f.1
  place_behind-marked client fault a b f = f.1

  -- A connection is accepted only while no thread has cleared its slot and not returned.
  abbrev pub Orderly : {s t : Threads C W} → Step net call has_ap s t → Type 0
  Orderly {s} (accepts a) = All IsSettled s.places
  Orderly (fails i client at) = Unit
  Orderly (answers i client reports conn at r) = Unit
  Orderly (returns i at) = Unit

  Step-Holds : {s t : Threads C W} (st : Step net call has_ap s t) → Orderly st → Holds s → Holds t
  unfolding receive_failed left_handler thread_returned
  Step-Holds {s} (accepts a) o h = accepted-Holds a a.client s refl o h
  Step-Holds {s} (fails i client at) o h =
      subst (λ m. Agree (set s.listener.accepted i minus_one) m (set s.places i (failed client)))
        (marked s i (serves client) (λ a b f. f.1) at h)
        (Agree-set i minus_one true (failed client) h (refl, refl))
  Step-Holds {s} (answers i client reports conn at r) o h =
      let p = place_behind client (read_head initial reports) in
      subst (λ m. Agree (set s.listener.accepted i conn.sock) m (set s.places i leaves))
        (marked s i p (place_behind-marked client (read_head initial reports)) at h)
        (Agree-set i conn.sock true leaves h
          (ap is_neg (handled_clears s.pages client reports s.listener.world conn r), refl))
  Step-Holds {s} (returns i at) o h =
      let r = Agree-lookup i leaves h at in
      subst (λ a. Agree a (set s.listener.handlers i false) (set s.places i idle))
        (set_same s.listener.accepted i r.socks_at) (Agree-set i r.a false idle h (r.fits.0, refl))

  pub data Reach (n : ℕ) (pages : List (Page C)) (w : W) : Threads C W → Type 0 where
    start : Reach n pages w (ready net call has_ap n pages w)
    later :
        {s t : Threads C W}
        → Reach n pages w s
        → (st : Step net call has_ap s t) → Orderly st
        → Reach n pages w t

  Reach-Holds :
      {n : ℕ} {pages : List (Page C)} {w : W} {s : Threads C W} → Reach n pages w s → Holds s
  Reach-Holds {n} start = Agree-replicate n
  Reach-Holds (later r st o) = Step-Holds st o (Reach-Holds r)

  -- Whatever connections, failed receives, answers and ends of threads come, in whatever order: as
  -- long as no connection is accepted while a thread has cleared its slot and not returned, no
  -- thread is created on a stack and a structure in use; a thread that has not cleared its slot has
  -- its own socket there, and there are as many such threads as slots in use. The slot that the
  -- listener would give to a connection is one whose thread has ended and whose mark is clear, or
  -- one whose thread has cleared it and not returned, and whose mark is set.
  pub no_stack_is_shared :
      (n : ℕ) (pages : List (Page C)) (w : W) (s : Threads C W)
      → Reach n pages w s
      → ((i : ℕ) → get_elem? s.places i ≢ some overrun)
        × ((i client : ℕ)
            → get_elem? s.places i ≡ some (serves client)
            → get_elem? s.listener.accepted i ≡ some (pos client))
        × (serving s.places ≡ busy s.listener.accepted)
        × ((i : ℕ)
            → get_free_slot s.listener.accepted ≡ some i
            → FreeSlot s.listener.handlers s.places i)
  no_stack_is_shared n pages w s r =
      let h = Reach-Holds r in
      (
        λ i at. (Agree-lookup i overrun h at).fits,
        λ i client at. let q = Agree-lookup i (serves client) h at in q.socks_at ∙ ap some q.fits.0,
        sym (Agree-busy h),
        λ i f. found_slot i h f,
      )
