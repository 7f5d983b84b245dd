-- ===== src/Wifi/Chain/Cells.antt =====
-- How a chain of src/ob_wifi.c stands for a list of networks.
use onboarding.Base.{
  ◌≡◌, ◌≢◌, refl, sym, ap, ◌∙◌, Bool, true, false, ◌||◌, Option, none, some, List, [], ◌∷◌, ◌++◌,
  arith, Bytes, c_str, ◌==◌, ==-refl,
}
use onboarding.Wifi.Ssids.{Ssid}
use onboarding.Wifi.Chain.{
  Ptr, null, Item, Object, item, bytes, Heap, write, Chain, load_item, load_bytes,
}

-- An item of the chain: its address, the address of its name, the bytes there, and the network.
pub record Cell : Type 0 where
  pub at : Ptr
  pub name : Ptr
  pub block : Bytes
  pub entry : Ssid

abbrev pub entry_of : Cell → Ssid
entry_of c = c.entry

abbrev pub item_of : Cell → Ptr → Item
item_of c next = record {
  next = next;
  ssid = c.name;
  len = c.entry.len;
  security = c.entry.security;
  signal_strength = c.entry.signal_strength;
}

abbrev pub first : List Cell → Ptr
first [] = null
first (c ∷ cs) = c.at

abbrev pub last_at : Cell → List Cell → Ptr
last_at c [] = c.at
last_at c (d ∷ cs) = last_at d cs

abbrev pub tail_of : List Cell → Ptr
tail_of [] = null
tail_of (c ∷ cs) = last_at c cs

-- The addresses of the items and of their names
abbrev pub has : Ptr → List Cell → Bool
has a [] = false
has a (c ∷ cs) = (a == c.at) || (a == c.name) || has a cs

pub record Holds (h : Heap) (c : Cell) (next : Ptr) : Type 0 where
  pub at_ne_null : c.at ≢ null
  pub name_ne_null : c.name ≢ null
  pub at_holds : h c.at ≡ some (item (item_of c next))
  pub name_holds : h c.name ≡ some (bytes c.block)
  pub text : c_str c.block ≡ c.entry.ssid

abbrev pub Linked : Heap → List Cell → Type 0
Linked h [] = Unit
Linked h (c ∷ cs) = Holds h c (first cs) × Linked h cs

-- No address stands twice.
abbrev pub Apart : List Cell → Type 0
Apart [] = Unit
Apart (c ∷ cs) =
    ((c.at == c.name) ≡ false) × (has c.at cs ≡ false) × (has c.name cs ≡ false) × Apart cs

-- The chain `s` is that of the cells `cs`, and the rest of the heap is `base`, to which their
-- addresses do not belong.
pub record IsChain (base : Heap) (s : Chain) (cs : List Cell) : Type 0 where
  pub head : s.head ≡ first cs
  pub tail : s.tail ≡ tail_of cs
  pub linked : Linked s.heap cs
  pub apart : Apart cs
  pub outside : (a : Ptr) → has a cs ≡ false → s.heap a ≡ base a
  pub unused : (a : Ptr) → has a cs ≡ true → base a ≡ none

pub write_other :
    (h : Heap) (p : Ptr) (o : Option Object) (a : Ptr) → (a == p) ≡ false → write h p o a ≡ h a
unfolding write
write_other h p o a e = rw (e) refl

pub write_self : (h : Heap) (p : Ptr) (o : Option Object) → write h p o p ≡ o
unfolding write
write_self h p o = rw (==-refl p) refl

pub load_held :
    (p : Ptr) (h : Heap) (i : Item) → p ≢ null → h p ≡ some (item i) → load_item p h ≡ some i
unfolding load_item
load_held p h i ne held = let e : (p == null) ≡ false = ground (arith, ne) in rw (e, held) refl

module _ {h : Heap} {c : Cell} {next : Ptr} (e : Holds h c next) where
  pub not_null : (c.at == null) ≡ false
  not_null = ground (arith, e.at_ne_null)

  pub load_item-at : load_item c.at h ≡ some (item_of c next)
  load_item-at = load_held c.at h (item_of c next) e.at_ne_null e.at_holds

  pub load_bytes-name : load_bytes c.name h ≡ some c.block
  unfolding load_bytes
  load_bytes-name =
      let ne : (c.name == null) ≡ false = ground (arith, e.name_ne_null) in
      rw (ne, e.name_holds) refl

-- A change that spares the addresses of a chain.
pub Linked-frame :
    {h g : Heap} (cs : List Cell)
    → Linked h cs
    → ((a : Ptr) → has a cs ≡ true → g a ≡ h a)
    → Linked g cs
Linked-frame [] l same = tt
Linked-frame {h} {g} (c ∷ cs) l same = (
  record {
    at_ne_null = l.0.at_ne_null;
    name_ne_null = l.0.name_ne_null;
    at_holds = same c.at (ground arith) ∙ l.0.at_holds;
    name_holds = same c.name (ground arith) ∙ l.0.name_holds;
    text = l.0.text;
  },
  Linked-frame cs l.1 (λ a i. same a (ground arith)),
)

-- An address that is not allocated is in no chain.
pub not_has : (h : Heap) (a : Ptr) (cs : List Cell) → Linked h cs → h a ≡ none → has a cs ≡ false
not_has h a [] l n = refl
not_has h a (c ∷ cs) l n = ground (arith, not_has h a cs l.1 n, l.0.at_holds, l.0.name_holds)

pub has-append : (a : Ptr) (cs ds : List Cell) → has a (cs ++ ds) ≡ (has a cs || has a ds)
has-append a [] ds = refl
has-append a (c ∷ cs) ds = ground (arith, has-append a cs ds)

-- A write at an address that is not of the item
pub Holds-write :
    {h : Heap} {c : Cell} {next : Ptr} (a : Ptr) (o : Option Object)
    → Holds h c next
    → (c.at == a) ≡ false
    → (c.name == a) ≡ false
    → Holds (write h a o) c next
unfolding write
Holds-write a o e p q = record {
  at_ne_null = e.at_ne_null;
  name_ne_null = e.name_ne_null;
  at_holds = rw (p) e.at_holds;
  name_holds = rw (q) e.name_holds;
  text = e.text;
}

-- `it->next = q`
pub Holds-relink :
    {h : Heap} {c : Cell} {next : Ptr} (q : Ptr)
    → Holds h c next
    → (c.at == c.name) ≡ false
    → Holds (write h c.at (some (item (item_of c q)))) c q
unfolding write
Holds-relink {c} q e apart = record {
  at_ne_null = e.at_ne_null;
  name_ne_null = e.name_ne_null;
  at_holds = rw (==-refl c.at) refl;
  name_holds = ground (arith, e.name_holds);
  text = e.text;
}

pub has-last : (c : Cell) (cs : List Cell) → has (last_at c cs) (c ∷ cs) ≡ true
has-last c [] = ground arith
has-last c (d ∷ cs) = ground (arith, has-last d cs)

pub last_at-append : (c : Cell) (cs : List Cell) (d : Cell) → last_at c (cs ++ d ∷ []) ≡ d.at
last_at-append c [] d = refl
last_at-append c (b ∷ cs) d = last_at-append b cs d

-- An item with addresses of its own, behind the others
pub Apart-append :
    (cs : List Cell) (d : Cell)
    → Apart cs
    → has d.at cs ≡ false
    → has d.name cs ≡ false
    → (d.at == d.name) ≡ false
    → Apart (cs ++ d ∷ [])
Apart-append [] d l p q r = (r, refl, refl, tt)
Apart-append (c ∷ cs) d l p q r = (
  l.0,
  ground (arith, has-append c.at cs (d ∷ [])),
  ground (arith, has-append c.name cs (d ∷ [])),
  Apart-append cs d l.3 (ground arith) (ground arith) r,
)

pub differs : (x y : Ptr) (cs : List Cell) → has x cs ≡ false → has y cs ≡ true → (x == y) ≡ false
differs x y cs out inside = ground (arith, λ (e : x ≡ y). ap (λ a. has a cs) e)

pub has_append_out :
    (a : Ptr) (cs ds : List Cell)
    → has a (cs ++ ds) ≡ false
    → (has a cs ≡ false) × (has a ds ≡ false)
has_append_out a cs ds out = or_false (has a cs) (has a ds) (sym (has-append a cs ds) ∙ out)
  where
    or_false : (x y : Bool) → (x || y) ≡ false → (x ≡ false) × (y ≡ false)
    or_false x y e = ground arith
