-- ===== src/Web/Threads/Agree.antt =====
-- What the slots of src/ob_web_server.c hold, for each place of their threads.
use onboarding.Base.{
  ℕ, zero, suc, ◌≡◌, refl, sym, ap, subst, ◌∙◌, Bool, true, false, some, List, [], ◌∷◌, ℤ, pos,
  negsuc, is_neg, minus_one, arith, get_elem?, set, replicate, All,
}
use onboarding.Web.Slots.{get_free_slot, get_free_slot_least, busy}
use onboarding.Web.Threads.{Place, idle, leaves, overrun, serves, failed}

some_inv : {A : Type 0} {x y : A} → some x ≡ some y → x ≡ y
some_inv e = cc

-- The thread has not cleared its slot, or has ended.
abbrev pub IsSettled : Place → Type 0
IsSettled idle = Unit
IsSettled (serves c) = Unit
IsSettled (failed c) = ⊥
IsSettled leaves = ⊥
IsSettled overrun = ⊥

-- What a slot holds, and its mark, for each place of its thread
abbrev pub Fits : ℤ → Bool → Place → Type 0
Fits a b idle = (is_neg a ≡ true) × (b ≡ false)
Fits a b (serves c) = (a ≡ pos c) × (b ≡ true)
Fits a b (failed c) = (is_neg a ≡ true) × (b ≡ true)
Fits a b leaves = (is_neg a ≡ true) × (b ≡ true)
Fits a b overrun = ⊥

pub data Agree : List ℤ → List Bool → List Place → Type 0 where
  none_left : Agree [] [] []
  slot :
      {a : ℤ} {b : Bool} {p : Place} {socks : List ℤ} {marks : List Bool} {places : List Place}
      → Fits a b p
      → Agree socks marks places
      → Agree (a ∷ socks) (b ∷ marks) (p ∷ places)

pub Agree-replicate : (n : ℕ) → Agree (replicate n minus_one) (replicate n false) (replicate n idle)
Agree-replicate zero = none_left
Agree-replicate (suc n) = slot (refl, refl) (Agree-replicate n)

pub Agree-set :
    {socks : List ℤ} {marks : List Bool} {places : List Place} (i : ℕ) (a : ℤ) (b : Bool)
    (p : Place)
    → Agree socks marks places
    → Fits a b p
    → Agree (set socks i a) (set marks i b) (set places i p)
Agree-set i a b p none_left f = none_left
Agree-set zero a b p (slot g h) f = slot f h
Agree-set (suc i) a b p (slot g h) f = slot g (Agree-set i a b p h f)

-- What is known of a slot
pub record Holding (socks : List ℤ) (marks : List Bool) (places : List Place) (i : ℕ) (p : Place)
    : Type 0 where
  pub a : ℤ
  pub b : Bool
  pub socks_at : get_elem? socks i ≡ some a
  pub marks_at : get_elem? marks i ≡ some b
  pub fits : Fits a b p

pub Agree-lookup :
    {socks : List ℤ} {marks : List Bool} {places : List Place} (i : ℕ) (p : Place)
    → Agree socks marks places
    → get_elem? places i ≡ some p
    → Holding socks marks places i p
Agree-lookup i p none_left e = cc
Agree-lookup zero p (slot {a} {b} g h) e = record {
  a = a;
  b = b;
  socks_at = refl;
  marks_at = refl;
  fits = subst (Fits a b) (some_inv e) g;
}
Agree-lookup (suc i) p (slot g h) e =
    let r = Agree-lookup i p h e in
    record { a = r.a; b = r.b; socks_at = r.socks_at; marks_at = r.marks_at; fits = r.fits }

-- A slot that holds a socket or not has a thread in some place.
place_of :
    {socks : List ℤ} {marks : List Bool} {places : List Place} (i : ℕ) {a : ℤ}
    → Agree socks marks places
    → get_elem? socks i ≡ some a
    → (p : Place) × (get_elem? places i ≡ some p)
place_of i none_left e = cc
place_of zero (slot {p = p} g h) e = (p, refl)
place_of (suc i) (slot g h) e = place_of i h e

-- How many threads have their socket in their slot
abbrev pub serving : List Place → ℕ
serving [] = 0
serving (idle ∷ places) = serving places
serving (leaves ∷ places) = serving places
serving (overrun ∷ places) = serving places
serving (serves c ∷ places) = suc (serving places)
serving (failed c ∷ places) = serving places

pub Agree-busy :
    {socks : List ℤ} {marks : List Bool} {places : List Place}
    → Agree socks marks places
    → busy socks ≡ serving places
Agree-busy none_left = refl
Agree-busy (slot {p = idle} g h) = ground (arith, Agree-busy h)
Agree-busy (slot {p = leaves} g h) = ground (arith, Agree-busy h)
Agree-busy (slot {p = overrun} g h) = absurd g
Agree-busy (slot {p = serves c} g h) = ground (arith, Agree-busy h)
Agree-busy (slot {p = failed c} g h) = ground (arith, Agree-busy h)

All-at :
    {A : Type 0} (P : A → Type 0) (xs : List A) (i : ℕ) {x : A}
    → All P xs
    → get_elem? xs i ≡ some x
    → P x
All-at P [] i h e = cc
All-at P (y ∷ xs) zero h e = subst P (some_inv e) h.0
All-at P (y ∷ xs) (suc i) h e = All-at P xs i h.1 e

-- A thread whose slot is free has ended, or has cleared it.
pub data Cleared : Place → Bool → Type 0 where
  ended : Cleared idle false
  receive_lost : (c : ℕ) → Cleared (failed c) true
  about_to_return : Cleared leaves true

free_fits : (e : ℕ) (b : Bool) (p : Place) → Fits (negsuc e) b p → Cleared p b
free_fits e b idle f = subst (Cleared idle) (sym f.1) ended
free_fits e b leaves f = subst (Cleared leaves) (sym f.1) about_to_return
free_fits e b overrun f = absurd f
free_fits e b (serves c) f = absurd (ground (arith, f.0))
free_fits e b (failed c) f = subst (Cleared (failed c)) (sym f.1) (receive_lost c)

settled_idle : (p : Place) (b : Bool) → Cleared p b → IsSettled p → (p ≡ idle) × (b ≡ false)
settled_idle p b ended s = (refl, refl)
settled_idle p b (receive_lost c) s = absurd s
settled_idle p b about_to_return s = absurd s

-- A slot that is free
pub record FreeSlot (marks : List Bool) (places : List Place) (i : ℕ) : Type 0 where
  p : Place
  b : Bool
  place_is : get_elem? places i ≡ some p
  mark_is : get_elem? marks i ≡ some b
  cleared : Cleared p b

pub found_slot :
    {socks : List ℤ} {marks : List Bool} {places : List Place} (i : ℕ)
    → Agree socks marks places
    → get_free_slot socks ≡ some i
    → FreeSlot marks places i
found_slot {socks} i h f =
    let (e, free) = (get_free_slot_least socks i f).0 in
    let (p, at) = place_of i h free in
    let r = Agree-lookup i p h at in
    record {
      p = p;
      b = r.b;
      place_is = at;
      mark_is = r.marks_at;
      cleared =
          free_fits e r.b p (subst (λ a. Fits a r.b p) (some_inv (sym r.socks_at ∙ free)) r.fits);
    }

-- The slot that the search gives, where all threads are settled
pub free_idle :
    {socks : List ℤ} {marks : List Bool} {places : List Place} (i : ℕ)
    → Agree socks marks places
    → All IsSettled places
    → get_free_slot socks ≡ some i
    → (get_elem? places i ≡ some idle) × (get_elem? marks i ≡ some false)
free_idle {places = places} i h all f =
    let r = found_slot i h f in
    let (p, b) = settled_idle r.p r.b r.cleared (All-at IsSettled places i all r.place_is) in
    (r.place_is ∙ ap some p, r.mark_is ∙ ap some b)
