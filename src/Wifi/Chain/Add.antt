-- ===== src/Wifi/Chain/Add.antt =====
-- The search and the allocations of `ssid_add_item` of src/ob_wifi.c.
use onboarding.Base.{
  ℕ, zero, suc, ◌<◌, ◌≡◌, ◌≢◌, refl, ap, ◌∙◌, false, not, none, some, List, [], ◌∷◌, map, arith,
  Bytes, c_str, length, strn_eq, Bool-cases, inl, inr, ◌==◌, ==-refl,
}
use onboarding.Wifi.Ssids.{Ssid, is_listed}
use onboarding.Wifi.Chain.{
  Ptr, null, Object, item, bytes, Heap, write, Malloc, Chain, free, find_item,
}
use onboarding.Wifi.Chain.Cells.{
  Cell, entry_of, item_of, first, Linked, IsChain, not_null, load_item-at, load_bytes-name,
  Linked-frame,
}
use onboarding.Wifi.Chain.Link.{Allocated}

-- The search ends, and finds an item exactly where the list has the name.
pub find_item-first :
    (k : ℕ) (ssid : Bytes) (n : ℕ) (h : Heap) (cs : List Cell)
    → Linked h cs
    → length cs < k
    → (p : Ptr) × (find_item k ssid n (first cs) h ≡ some p)
      × ((p == null) ≡ not (is_listed ssid n (map entry_of cs)))
unfolding find_item is_listed
find_item-first zero ssid n h cs l q = absurd (omega arith)
find_item-first (suc k) ssid n h [] l q = (null, refl, refl)
find_item-first (suc k) ssid n h (c ∷ cs) l q =
    let (p, rest, found) = find_item-first k ssid n h cs l.1 (omega arith) in
    elim (Bool-cases (strn_eq n ssid c.entry.ssid)) [
      | inl e ↦ (
        c.at,
        rw (not_null l.0, load_item-at l.0, load_bytes-name l.0, l.0.text, e) refl,
        rw (not_null l.0, e) refl,
      )
      | inr e ↦ (
        p,
        rw (not_null l.0, load_item-at l.0, load_bytes-name l.0, l.0.text, e) rest,
        rw (e) found,
      )
    ]

-- What `malloc` promises: an address that is not allocated, or NULL.
pub record Allocates (malloc : Malloc) : Type 0 where
  pub item_unused : (h : Heap) → malloc.new_item h ≢ null → h (malloc.new_item h) ≡ none
  pub bytes_unused :
      (n : ℕ) (h : Heap) → malloc.new_bytes n h ≢ null → h (malloc.new_bytes n h) ≡ none

-- A chain whose heap is left as it was
pub IsChain-same :
    {base : Heap} {s : Chain} {cs : List Cell} (g : Heap)
    → IsChain base s cs
    → ((a : Ptr) → g a ≡ s.heap a)
    → IsChain base (record s { heap = g }) cs
IsChain-same {cs} g is same = record {
  head = is.head;
  tail = is.tail;
  linked = Linked-frame cs is.linked (λ a _. same a);
  apart = is.apart;
  outside = λ a o. same a ∙ is.outside a o;
  unused = is.unused;
}

-- An item that is allocated and freed at once
pub allocated_freed :
    (h : Heap) (it : Ptr) (o : Object)
    → it ≢ null
    → h it ≡ none
    → (g : Heap) × (free it (write h it (some o)) ≡ some g) × ((a : Ptr) → g a ≡ h a)
unfolding free write
allocated_freed h it o ne unused =
    let p : (it == null) ≡ false = ground (arith, ne) in
    (
      write (write h it (some o)) it none,
      rw (p, ==-refl it) refl,
      λ a. ground (arith, unused, λ (e : a ≡ it). ap h e),
    )

pub filled :
    (h : Heap) (it name : Ptr) (o : Object) (block : Bytes) (entry : Ssid)
    → it ≢ null
    → name ≢ null
    → h it ≡ none
    → write h it (some o) name ≡ none
    → c_str block ≡ entry.ssid
    → let d : Cell = record { at = it; name = name; block = block; entry = entry } in
      Allocated h
        (write
          (write (write h it (some o)) name (some (bytes block)))
          it
          (some (item (item_of d null))))
        d
unfolding write
filled h it name o block entry ne ne' unused unused' text =
    let apart : (it == name) ≡ false = ground (arith, unused', ==-refl it) in
    record {
      at_unused = unused;
      name_unused = ground (arith, unused');
      apart = apart;
      holds = record {
        at_ne_null = ne;
        name_ne_null = ne';
        at_holds = rw (==-refl it) refl;
        name_holds = ground arith;
        text = text;
      };
      same = λ a p q. ground arith;
    }
