-- ===== src/Wifi/Chain/Freed.antt =====
-- The memory of a scan of src/ob_wifi.c, from its first result to the callback's return.
use onboarding.Base.{ℕ, ◌+◌, ◌<◌, ◌≡◌, ◌∙◌, true, none, some, List, map, arith, length, IsText, All}
use onboarding.Wifi.Ssids.{ScanResult, scanned}
use onboarding.Wifi.Chain.{Ptr, Heap, Malloc, Chain, load_item, load_bytes, ssid_init_list}
use onboarding.Wifi.Chain.Cells.{Cell, entry_of, has, IsChain}
use onboarding.Wifi.Chain.Add.{Allocates}
use onboarding.Wifi.Chain.Free.{ssid_init_list-base}
use onboarding.Wifi.Chain.Scan.{scan, outcomes, scan-Stands, length-Stands}

not_allocated : (a : Ptr) (h : Heap) → h a ≡ none → (load_item a h ≡ none) × (load_bytes a h ≡ none)
unfolding load_item load_bytes
not_allocated a h e = (rw (e) (ground arith), rw (e) (ground arith))

module _ {malloc : Malloc} (allocates : Allocates malloc) (base : Heap) (k : ℕ)
    (results : List ScanResult) (s : Chain) (cs : List Cell) where
  -- A scan and the freeing of its list, with names that have no NUL inside and enough rounds for
  -- the loops: no memory that is not allocated is read or freed, also where an allocation fails;
  -- the chain stands for the networks that the same results give to a list; and behind
  -- `ssid_init_list` the heap is what it is without the chain, so that a pointer which the
  -- callback has kept to an item or a name cannot be read.
  pub scan-ssid_init_list :
      All (λ r. IsText r.ssid) results
      → length cs + length results < k
      → IsChain base s cs
      → (t : Chain) × (u : Chain) × (ds : List Cell) × (scan malloc k results s ≡ some t)
        × IsChain base t ds
        × (map entry_of ds ≡ scanned (outcomes malloc k results s) (map entry_of cs))
        × (ssid_init_list k t ≡ some u)
        × ((a : Ptr) → u.heap a ≡ base a)
        × ((a : Ptr) → has a ds ≡ true → (load_item a u.heap ≡ none) × (load_bytes a u.heap ≡ none))
  scan-ssid_init_list text q is =
      let (t, ds, ran, is', listed) = scan-Stands allocates k results s cs text q is in
      let (u, freed, back, empty) =
        ssid_init_list-base k base t ds is'
          (omega (arith, length-Stands malloc k results s cs ds listed)) in
      (
        t,
        u,
        ds,
        ran,
        is',
        listed,
        freed,
        back,
        λ a i. not_allocated a u.heap (back a ∙ is'.unused a i),
      )
