-- ===== src/Tests/Chains.antt =====
-- The chain of src/ob_wifi.c in a small memory.
use onboarding.Base.{
  ℕ, ◌≡◌, ◌≢◌, refl, true, false, none, some, List, [], ◌∷◌, map, negsuc, arith, Bytes, codes,
  length, ◌==◌, if◌then◌else◌,
}
use onboarding.Wifi.Ssids.{ScanResult, scanned}
use onboarding.Wifi.Chain.{
  Ptr, null, bytes, Heap, Malloc, Chain, load_item, load_bytes, ssid_init_list,
}
use onboarding.Wifi.Chain.Cells.{Cell, entry_of, has, IsChain}
use onboarding.Wifi.Chain.Add.{Allocates}
use onboarding.Wifi.Chain.Scan.{scan, outcomes}
use onboarding.Wifi.Chain.Freed.{scan-ssid_init_list}

-- The first of some addresses that is not allocated, or NULL
abbrev unused_of : List Ptr → Heap → Ptr
unused_of [] h = null
unused_of (p ∷ ps) h = elim (h p) [ none ↦ p | some o ↦ unused_of ps h ]

unused_of-none : (ps : List Ptr) (h : Heap) → unused_of ps h ≢ null → h (unused_of ps h) ≡ none
unused_of-none [] h ne = absurd (ne refl)
unused_of-none (p ∷ ps) h ne = ground (arith, unused_of-none ps h)

-- Room for five blocks
abbrev small : Malloc
small = record {
  new_item = unused_of (16 ∷ 48 ∷ 80 ∷ 112 ∷ 144 ∷ []);
  new_bytes = λ n. unused_of (16 ∷ 48 ∷ 80 ∷ 112 ∷ 144 ∷ []);
}

small-Allocates : Allocates small
small-Allocates = record {
  item_unused = unused_of-none (16 ∷ 48 ∷ 80 ∷ 112 ∷ 144 ∷ []);
  bytes_unused = λ n. unused_of-none (16 ∷ 48 ∷ 80 ∷ 112 ∷ 144 ∷ []);
}

abbrev network : Bytes → ℕ → ScanResult
network name rssi = record {
  ssid = name;
  ssid_length = length name;
  is_open = false;
  rssi = negsuc rssi;
  item_allocated = true;
  ssid_allocated = true;
}

-- Two networks, one of them twice, and a third for whose name there is no room
abbrev networks : List ScanResult
networks =
    network (codes "home") 49
    ∷ network (codes "cafe") 59
    ∷ network (codes "home") 51
    ∷ network (codes "shop") 69
    ∷ []

-- A block of another part of the program
abbrev elsewhere : Heap
elsewhere p = if p == 200 then some (bytes (codes "kept")) else none

abbrev empty : Chain
empty = record { heap = elsewhere; head = null; tail = null }

empty-IsChain : IsChain elsewhere empty []
empty-IsChain = record {
  head = refl;
  tail = refl;
  linked = tt;
  apart = tt;
  outside = λ a _. refl;
  unused = λ a e. cc;
}

scan_example :
    (t : Chain) × (u : Chain) × (ds : List Cell) × (scan small 10 networks empty ≡ some t)
    × IsChain elsewhere t ds
    × (map entry_of ds ≡ scanned (outcomes small 10 networks empty) [])
    × (ssid_init_list 10 t ≡ some u)
    × ((a : Ptr) → u.heap a ≡ elsewhere a)
    × ((a : Ptr) → has a ds ≡ true → (load_item a u.heap ≡ none) × (load_bytes a u.heap ≡ none))
scan_example =
    scan-ssid_init_list small-Allocates elsewhere 10 networks empty []
      ((omega arith), ((omega arith), ((omega arith), ((omega arith), tt)))) (omega arith)
      empty-IsChain
