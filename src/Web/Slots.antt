-- ===== src/Web/Slots.antt =====
-- The slots of accepted connections: `get_free_slot`, `process_tcp` and the loop of
-- `process_tcp4` of src/ob_web_server.c, for a server over IPv4 alone.
use onboarding.Base.{
  ℕ, zero, suc, ◌+◌, ◌≡◌, ◌≢◌, refl, ap, ◌∙◌, ◌⊎◌, Bool, true, false, not, ◌||◌, Option, none, some,
  List, [], ◌∷◌, ℤ, pos, negsuc, is_neg, is_zero, neg_errno, arith, length, get_elem?, set, take,
  if◌then◌else◌, get_elem?-set_self, get_elem?-set_ne, All, ◌++◌, length-set, lt-length,
}
use onboarding.Web.Net.{Net}

-- `get_free_slot`: the first entry below 0. `none` is -1.
unfoldable pub get_free_slot : List ℤ → Option ℕ
get_free_slot [] = none
get_free_slot (a ∷ accepted) =
    let rest = get_free_slot accepted in
    if is_neg a then some 0 else elim rest [ none ↦ none | some i ↦ some (suc i) ]

-- `tcp4_accepted` and `tcp4_handler_tid` (whether an entry is not null), with the world.
pub record Listener (W : Type 0) : Type 0 where
  pub accepted : List ℤ
  pub handlers : List Bool
  pub world : W

-- What `zsock_accept` reports, with errno, and `want_to_quit` when the loop looks at it next.
pub record Accept : Type 0 where
  pub client : ℤ
  pub errno : ℕ
  pub want_to_quit : Bool

module _ {W : Type 0} (net : Net W) where
  -- The connection in its slot; the threads of a server over IPv4 are always created.
  unfoldable pub take_slot : ℕ → Option ℕ → Listener W → Listener W
  take_slot client none s = record s { world = net.close client s.world }
  take_slot client (some slot) s = record s {
    accepted = set s.accepted slot (pos client);
    handlers = set s.handlers slot true;
  }

  unfoldable pub process_tcp : Accept → Listener W → ℤ × Listener W
  unfolding take_slot get_free_slot
  process_tcp a s = elim a.client [
    | negsuc _ ↦ (neg_errno a.errno, s)
    | pos client ↦ (pos 0, take_slot client (get_free_slot s.accepted) s)
  ]

  -- `while (ret == 0 || !want_to_quit)`, over what `zsock_accept` reports. The result says whether
  -- the loop was left; else it waits for a connection.
  unfoldable pub accept_loop : List Accept → Listener W → Bool × Listener W
  accept_loop [] s = (false, s)
  accept_loop (a ∷ as') s =
      let (ret, s') = process_tcp a s in
      let again = accept_loop as' s' in
      if is_zero ret || not a.want_to_quit then again else (true, s')

-- How many slots are in use.
abbrev pub busy : List ℤ → ℕ
busy [] = 0
busy (a ∷ accepted) = if is_neg a then busy accepted else suc (busy accepted)

-- The search behind an entry in use.
free_behind :
    (n : ℕ) (accepted : List ℤ) (i : ℕ)
    → get_free_slot (pos n ∷ accepted) ≡ some i
    → (j : ℕ) × (i ≡ suc j) × (get_free_slot accepted ≡ some j)
unfolding get_free_slot
free_behind n accepted zero h = absurd (ground arith)
free_behind n accepted (suc i) h = (i, refl, ground arith)

-- The entries before one that is found.
All_before :
    (n : ℕ) (accepted : List ℤ) (k i : ℕ)
    → i ≡ suc k
    → All (λ a. is_neg a ≡ false) (take k accepted)
    → All (λ a. is_neg a ≡ false) (take i (pos n ∷ accepted))
All_before n accepted k i at before = rw (at) (refl, before)

-- The slot that the search finds is free, and all the slots before it are in use.
pub get_free_slot_least :
    (accepted : List ℤ) (i : ℕ)
    → get_free_slot accepted ≡ some i
    → ((e : ℕ) × (get_elem? accepted i ≡ some (negsuc e)))
      × All (λ a. is_neg a ≡ false) (take i accepted)
unfolding get_free_slot
get_free_slot_least [] i h = cc
get_free_slot_least (negsuc e ∷ accepted) zero h = ((e, refl), tt)
get_free_slot_least (negsuc e ∷ accepted) (suc i) h = cc
get_free_slot_least (pos n ∷ accepted) i h =
    let (k, at, found) = free_behind n accepted i h in
    let (free, before) = get_free_slot_least accepted k found in
    ((free.0, ap (get_elem? (pos n ∷ accepted)) at ∙ free.1), All_before n accepted k i at before)

-- The search fails only where all the slots are in use.
get_free_slot_full :
    (accepted : List ℤ) → get_free_slot accepted ≡ none → busy accepted ≡ length accepted
unfolding get_free_slot
get_free_slot_full [] h = refl
get_free_slot_full (a ∷ accepted) h = ground (arith, get_free_slot_full accepted)

busy-set :
    (accepted : List ℤ) (i client : ℕ)
    → get_free_slot accepted ≡ some i
    → busy (set accepted i (pos client)) ≡ busy accepted + 1
unfolding get_free_slot
busy-set [] i client h = cc
busy-set (negsuc e ∷ accepted) zero client h = omega arith
busy-set (negsuc e ∷ accepted) (suc i) client h = cc
busy-set (pos n ∷ accepted) i client h =
    let (k, at, found) = free_behind n accepted i h in
    rw at (omega (arith, busy-set accepted k client found))

-- An accept after which the loop goes on, and one at which it is left.
abbrev pub Continues : Accept → Type 0
Continues a = (is_neg a.client ≡ false) ⊎ (a.want_to_quit ≡ false)

abbrev pub Stops : Accept → Type 0
Stops a = (is_neg a.client ≡ true) × (a.want_to_quit ≡ true)

module _ {W : Type 0} (net : Net W) where
  -- What a server does with an accepted connection: with a slot free it stores the socket in the
  -- first free slot, whose handler then runs, and no connection in another slot is touched; with
  -- all slots in use it closes the socket, and the slots and handlers stay as they are.
  pub data Taken (client : ℕ) (s : Listener W) : Listener W → Type 0 where
    stored :
        {t : Listener W} (slot e : ℕ)
        → get_elem? s.accepted slot ≡ some (negsuc e)
        → get_elem? t.accepted slot ≡ some (pos client)
        → ((j : ℕ) → slot ≢ j → get_elem? t.accepted j ≡ get_elem? s.accepted j)
        → busy t.accepted ≡ busy s.accepted + 1
        → t.handlers ≡ set s.handlers slot true
        → t.world ≡ s.world
        → Taken client s t
    refused :
        {t : Listener W}
        → busy s.accepted ≡ length s.accepted
        → t ≡ record s { world = net.close client s.world }
        → Taken client s t

  taken_slot :
      (client : ℕ) (s : Listener W) (o : Option ℕ)
      → get_free_slot s.accepted ≡ o
      → Taken client s (take_slot net client o s)
  unfolding take_slot
  taken_slot client s none e = refused (get_free_slot_full s.accepted e) refl
  taken_slot client s (some slot) e =
      let (free, before) = get_free_slot_least s.accepted slot e in
      stored slot free.0 free.1
        (get_elem?-set_self s.accepted slot (pos client) (lt-length s.accepted slot free.1))
        (λ j ne. get_elem?-set_ne s.accepted (pos client) ne) (busy-set s.accepted slot client e)
        refl refl

  length-take_slot :
      (client : ℕ) (s : Listener W) (o : Option ℕ)
      → length (take_slot net client o s).accepted ≡ length s.accepted
  unfolding take_slot
  length-take_slot client s none = refl
  length-take_slot client s (some slot) = length-set s.accepted slot (pos client)

  -- Every accepted connection is taken or refused, with the result 0; the number of slots stays.
  pub process_tcp-Taken :
      (client : ℕ) (a : Accept) (s : Listener W)
      → a.client ≡ pos client
      → ((process_tcp net a s).0 ≡ pos 0)
        × Taken client s (process_tcp net a s).1
        × (length (process_tcp net a s).1.accepted ≡ length s.accepted)
  unfolding process_tcp
  process_tcp-Taken client a s e =
      rw (e, process_tcp)
        (
          refl,
          taken_slot client s (get_free_slot s.accepted) refl,
          length-take_slot client s (get_free_slot s.accepted),
        )

  goes_on :
      (a : Accept) (s : Listener W)
      → Continues a
      → (is_zero (process_tcp net a s).0 || not a.want_to_quit) ≡ true
  unfolding process_tcp
  goes_on a s h = ground arith

  Stops-here :
      (a : Accept) (s : Listener W)
      → Stops a
      → ((is_zero (process_tcp net a s).0 || not a.want_to_quit) ≡ false)
        × ((process_tcp net a s).1 ≡ s)
  unfolding process_tcp
  Stops-here a s h = ground arith

  -- The loop over connections goes on at every accept that succeeds or finds `want_to_quit`
  -- clear, and is left at the first one that fails and finds it set, with the slots of the accepts
  -- before it; what would come later is not looked at.
  pub accept_loop-Stops :
      (before later : List Accept) (a : Accept) (s : Listener W)
      → All Continues before
      → Stops a
      → accept_loop net (before ++ a ∷ later) s ≡ (true, (accept_loop net before s).1)
  unfolding accept_loop
  accept_loop-Stops [] later a s h q = let (left, same) = Stops-here a s q in rw (left, same) refl
  accept_loop-Stops (b ∷ before) later a s h q =
      rw (goes_on b s h.0) (accept_loop-Stops before later a (process_tcp net b s).1 h.1 q)
