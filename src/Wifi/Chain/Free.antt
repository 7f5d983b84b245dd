-- ===== src/Wifi/Chain/Free.antt =====
-- `ssid_init_list` of src/ob_wifi.c frees the chain, and the pointers that were kept to it.
use onboarding.Base.{
  ℕ, zero, suc, ◌<◌, ◌≡◌, ◌≢◌, refl, sym, ap, ◌∙◌, false, none, some, List, [], ◌∷◌, arith, length,
  Bool-cases, inl, inr, ◌==◌, if◌then◌else◌, ◌>>=◌,
}
use onboarding.Wifi.Chain.{
  Ptr, null, Object, item, bytes, Heap, write, Chain, load_item, free, ssid_free_item,
  ssid_init_list,
}
use onboarding.Wifi.Chain.Cells.{
  Cell, first, has, item_of, Holds, Linked, Apart, IsChain, not_null, load_item-at, load_held,
  write_other,
}

-- `g` is `h` without the items and names of `cs`.
abbrev pub Without : List Cell → Heap → Heap → Type 0
Without cs h g = (a : Ptr) → g a ≡ (if has a cs then none else h a)

free_allocated :
    (p : Ptr) (h : Heap) (o : Object) → p ≢ null → h p ≡ some o → free p h ≡ some (write h p none)
unfolding free
free_allocated p h o ne held = let e : (p == null) ≡ false = ground (arith, ne) in rw (e, held) refl

-- The item that comes first, when the others are freed
others_freed :
    (h g : Heap) (c : Cell) (cs : List Cell)
    → Holds h c (first cs)
    → Without cs h g
    → (c.at == c.name) ≡ false
    → has c.at cs ≡ false
    → has c.name cs ≡ false
    → (load_item c.at g ≡ some (item_of c (first cs)))
      × (free c.name g ≡ some (write g c.name none))
      × (free c.at (write g c.name none) ≡ some (write (write g c.name none) c.at none))
      × Without (c ∷ cs) h (write (write g c.name none) c.at none)
unfolding write
others_freed h g c cs e gone apart out out' =
    let held : g c.at ≡ some (item (item_of c (first cs))) = gone c.at ∙ rw (out) e.at_holds in
    let named : g c.name ≡ some (bytes c.block) = gone c.name ∙ rw (out') e.name_holds in
    (
      load_held c.at g _ e.at_ne_null held,
      free_allocated c.name g _ e.name_ne_null named,
      free_allocated c.at (write g c.name none) _ e.at_ne_null
          (write_other g c.name none c.at apart ∙ held),
      λ a. ground (arith, gone a),
    )

pub ssid_free_item-Without :
    (k : ℕ) (h : Heap) (cs : List Cell)
    → Linked h cs
    → Apart cs
    → length cs < k
    → (g : Heap) × (ssid_free_item k (first cs) h ≡ some g) × Without cs h g
unfolding ssid_free_item
ssid_free_item-Without zero h cs l apart q = absurd (omega arith)
ssid_free_item-Without (suc k) h [] l apart q = (h, refl, λ a. refl)
ssid_free_item-Without (suc k) h (c ∷ cs) l apart q =
    let (g, rest, gone) = ssid_free_item-Without k h cs l.1 apart.3 (omega arith) in
    let (again, named, freed, all) = others_freed h g c cs l.0 gone apart.0 apart.1 apart.2 in
    (
      write (write g c.name none) c.at none,
      rw (not_null l.0, load_item-at l.0, rest, again, named, freed) refl,
      all,
    )

-- Every item and every name is freed, each once, and the heap is what it was before the first
-- item was added.
pub ssid_init_list-base :
    (k : ℕ) (base : Heap) (s : Chain) (cs : List Cell)
    → IsChain base s cs
    → length cs < k
    → (t : Chain) × (ssid_init_list k s ≡ some t)
      × ((a : Ptr) → t.heap a ≡ base a)
      × IsChain base t []
unfolding ssid_init_list
ssid_init_list-base k base s cs is q =
    let (g, freed, gone) = ssid_free_item-Without k s.heap cs is.linked is.apart q in
    let back : (a : Ptr) → g a ≡ base a = λ a. elim (Bool-cases (has a cs)) [
      | inl e ↦ gone a ∙ rw (e) (sym (is.unused a e))
      | inr e ↦ gone a ∙ rw (e) (is.outside a e)
    ] in
    (
      record { heap = g; head = null; tail = null },
      ap
            (λ a. ssid_free_item k a s.heap >>= λ g'.
              some (record { heap = g'; head = null; tail = null }))
            is.head
          ∙ rw (freed) refl,
      back,
      record {
        head = refl;
        tail = refl;
        linked = tt;
        apart = tt;
        outside = λ a _. back a;
        unused = λ a e. cc;
      },
    )
