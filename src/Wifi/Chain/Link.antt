-- ===== src/Wifi/Chain/Link.antt =====
-- The end of `ssid_add_item` of src/ob_wifi.c: a filled item is put behind the others.
use onboarding.Base.{◌≡◌, refl, sym, ◌∙◌, true, false, none, some, List, [], ◌∷◌, ◌++◌, arith, ◌==◌}
use onboarding.Wifi.Chain.{Ptr, null, Item, item, Heap, write, Chain, load_item, link}
use onboarding.Wifi.Chain.Cells.{
  Cell, item_of, last_at, has, Holds, Linked, Apart, IsChain, not_null, load_item-at, Linked-frame,
  not_has, write_other, has-append, has_append_out, has-last, differs, last_at-append, Apart-append,
  Holds-write, Holds-relink,
}

-- `last->next = it` on a chain that has an item
pub link_last :
    (h : Heap) (c : Cell) (cs : List Cell) (d : Cell)
    → Linked h (c ∷ cs)
    → Apart (c ∷ cs)
    → Holds h d null
    → has d.at (c ∷ cs) ≡ false
    → has d.name (c ∷ cs) ≡ false
    → (i : Item) × (load_item (last_at c cs) h ≡ some i)
      × (Linked
          (write h (last_at c cs) (some (item (record i { next = d.at }))))
          ((c ∷ cs) ++ d ∷ []))
link_last h c [] d l apart e out out' = (
  item_of c null,
  load_item-at l.0,
  (Holds-relink d.at l.0 apart.0, (Holds-write c.at _ e (ground arith) (ground arith), tt)),
)
link_last h c (c' ∷ cs) d l apart e out out' =
    let (i, held, linked) = link_last h c' cs d l.1 apart.3 e (ground arith) (ground arith) in
    let a = last_at c' cs in
    let mine = has-last c' cs in
    (
      i,
      held,
      (
        Holds-write a _ l.0 (differs c.at a (c' ∷ cs) apart.1 mine)
            (differs c.name a (c' ∷ cs) apart.2 mine),
        linked,
      ),
    )

-- `g` is the heap `h` with the item `d` allocated and filled.
pub record Allocated (h g : Heap) (d : Cell) : Type 0 where
  pub at_unused : h d.at ≡ none
  pub name_unused : h d.name ≡ none
  pub apart : (d.at == d.name) ≡ false
  pub holds : Holds g d null
  pub same : (a : Ptr) → (a == d.at) ≡ false → (a == d.name) ≡ false → g a ≡ h a

module _ {h g : Heap} {d : Cell} (new : Allocated h g d) where
  spared : (cs : List Cell) → Linked h cs → (a : Ptr) → has a cs ≡ true → g a ≡ h a
  spared cs l a i =
      new.same a (differs' d.at (not_has h d.at cs l new.at_unused))
        (differs' d.name (not_has h d.name cs l new.name_unused))
    where
      differs' : (x : Ptr) → has x cs ≡ false → (a == x) ≡ false
      differs' x out = ground (arith, differs x a cs out i)

module _ {base : Heap} {s : Chain} {g : Heap} {d : Cell} (new : Allocated s.heap g d) where
  outside_after :
      (cs : List Cell) → IsChain base s cs → (a : Ptr) → has a (cs ++ d ∷ []) ≡ false → g a ≡ base a
  outside_after cs is a out =
      let split = has-append a cs (d ∷ []) in
      new.same a (ground (arith, split)) (ground (arith, split))
      ∙ is.outside a (ground (arith, split))

  unused_after :
      (cs : List Cell) → IsChain base s cs → (a : Ptr) → has a (cs ++ d ∷ []) ≡ true → base a ≡ none
  unused_after cs is a i = ground (
    arith,
    has-append a cs (d ∷ []),
    is.unused a,
    is.outside d.at,
    is.outside d.name,
    not_has s.heap d.at cs is.linked,
    not_has s.heap d.name cs is.linked,
    new.at_unused,
    new.name_unused,
  )

  -- `link` puts the item behind the others.
  pub link-IsChain :
      (cs : List Cell)
      → IsChain base s cs
      → (t : Chain) × (link d.at (record s { heap = g }) ≡ some t) × IsChain base t (cs ++ d ∷ [])
  unfolding link
  link-IsChain [] is = (
    record s { heap = g; head = d.at; tail = d.at },
    rw (is.head) refl,
    record {
      head = refl;
      tail = refl;
      linked = (new.holds, tt);
      apart = (new.apart, refl, refl, tt);
      outside = outside_after [] is;
      unused = unused_after [] is;
    },
  )
  link-IsChain (c ∷ cs) is =
      let out = not_has s.heap d.at (c ∷ cs) is.linked new.at_unused in
      let out' = not_has s.heap d.name (c ∷ cs) is.linked new.name_unused in
      let (i, held, linked) =
        link_last g c cs d (Linked-frame (c ∷ cs) is.linked (spared new (c ∷ cs) is.linked))
          is.apart new.holds out out' in
      (
        record s {
          heap = write g (last_at c cs) (some (item (record i { next = d.at })));
          tail = d.at;
        },
        rw (is.head, not_null is.linked.0, is.tail, held) refl,
        record {
          head = is.head;
          tail = sym (last_at-append c cs d);
          linked = linked;
          apart = Apart-append (c ∷ cs) d is.apart out out' new.apart;
          outside = λ a o.
              write_other g (last_at c cs) (some (item (record i { next = d.at }))) a (
                differs a (last_at c cs) (c ∷ cs) (has_append_out a (c ∷ cs) (d ∷ []) o).0
                  (has-last c cs))
              ∙ outside_after (c ∷ cs) is a o;
          unused = unused_after (c ∷ cs) is;
        },
      )
