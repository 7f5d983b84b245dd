-- ===== src/Wifi/Chain/Scan.antt =====
-- The results of a scan of src/ob_wifi.c on the chain in memory.
use onboarding.Base.{
  ℕ, zero, suc, ◌+◌, ◌<◌, ◌≤◌, ◌≡◌, ◌≢◌, refl, ap, ◌∙◌, Bool, not, Option, none, some, List, [],
  ◌∷◌, ◌++◌, map, ℤ, arith, Bytes, c_str, take, replicate, length, length-append, IsText, All,
  Bool-cases, Option-cases, inl, inr, ◌==◌, if◌then◌else◌, ◌>>=◌,
}
use onboarding.Wifi.Ssids
use onboarding.Wifi.Ssids.{Ssid, ScanResult, is_listed, strength, scanned}
use onboarding.Wifi.Chain.{
  null, item, Heap, write, Malloc, Chain, blank, name_block, find_item, new_item, ssid_add_item,
  handle_wifi_scan_result,
}
use onboarding.Wifi.Chain.Cells.{Cell, entry_of, IsChain}
use onboarding.Wifi.Chain.Link.{link-IsChain}
use onboarding.Wifi.Chain.Add.{find_item-first, Allocates, IsChain-same, allocated_freed, filled}

name_text :
    (n m : ℕ) (ssid : Bytes)
    → IsText ssid
    → c_str (take n (ssid ++ replicate m 0) ++ 0 ∷ []) ≡ take n ssid
name_text zero m ssid h = refl
name_text (suc n) zero [] h = refl
name_text (suc n) (suc m) [] h = refl
name_text (suc n) m (c ∷ ssid) h = ground (arith, name_text n m ssid h.1)

map-append :
    (cs : List Cell) (d : Cell) → map entry_of (cs ++ d ∷ []) ≡ map entry_of cs ++ d.entry ∷ []
map-append [] d = refl
map-append (c ∷ cs) d = ap (◌∷◌ c.entry) (map-append cs d)

-- The network that `ssid_add_item` lists
abbrev pub entry : Bytes → ℕ → Bool → ℤ → Ssid
entry ssid n security signal_strength = record {
  ssid = take n ssid;
  len = n;
  security = security;
  signal_strength = signal_strength;
}

module _ (malloc : Malloc) where
  -- Whether the two allocations for a new item succeed
  abbrev pub item_succeeds : Chain → Bool
  item_succeeds s = not (malloc.new_item s.heap == null)

  abbrev pub name_succeeds : ℕ → Chain → Bool
  name_succeeds n s =
      not (
        malloc.new_bytes (n + 1) (write s.heap (malloc.new_item s.heap) (some (item blank)))
        == null)

  -- A result of the scan, with the outcome of its allocations
  abbrev pub outcome : ScanResult → Chain → ScanResult
  outcome r s = record r {
    item_allocated = item_succeeds s;
    ssid_allocated = name_succeeds r.ssid_length s;
  }

  -- The results of a scan, in the order of their events
  unfoldable pub scan : ℕ → List ScanResult → Chain → Option Chain
  scan k [] s = some s
  scan k (r ∷ results) s = handle_wifi_scan_result malloc k r s >>= λ t. scan k results t

  unfoldable pub outcomes : ℕ → List ScanResult → Chain → List ScanResult
  outcomes k [] s = []
  outcomes k (r ∷ results) s =
      outcome r s
      ∷ (elim (handle_wifi_scan_result malloc k r s) [ none ↦ [] | some t ↦ outcomes k results t ])

-- A state that stands for a list of networks
abbrev pub Stands : Heap → Option Chain → List Ssid → Type 0
Stands base o items =
    (t : Chain) × (cs : List Cell) × (o ≡ some t) × IsChain base t cs × (map entry_of cs ≡ items)

length-entries : (cs : List Cell) → length (map entry_of cs) ≡ length cs
length-entries [] = refl
length-entries (c ∷ cs) = ap suc (length-entries cs)

-- A result adds an item at most.
length-handle_wifi_scan_result :
    (r : ScanResult) (items : List Ssid)
    → length (Ssids.handle_wifi_scan_result r items) ≤ suc (length items)
unfolding Ssids.handle_wifi_scan_result Ssids.ssid_add_item
length-handle_wifi_scan_result r items =
    ground (
      arith,
      length-append items (entry r.ssid r.ssid_length (not r.is_open) (strength r.rssi) ∷ []),
    )

length-scanned :
    (results : List ScanResult) (items : List Ssid)
    → length (scanned results items) ≤ length items + length results
length-scanned [] items = omega arith
length-scanned (r ∷ results) items = omega (
  arith,
  length-scanned results (Ssids.handle_wifi_scan_result r items),
  length-handle_wifi_scan_result r items,
)

length-outcomes :
    (malloc : Malloc) (k : ℕ) (results : List ScanResult) (s : Chain)
    → length (outcomes malloc k results s) ≤ length results
unfolding outcomes
length-outcomes malloc k [] s = omega arith
length-outcomes malloc k (r ∷ results) s =
    elim (Option-cases (handle_wifi_scan_result malloc k r s)) [
      | inl e ↦ rw (e) (omega arith)
      | inr (t, e) ↦ rw (e) (omega (arith, length-outcomes malloc k results t))
    ]

-- A scan adds an item for each result at most.
pub length-Stands :
    (malloc : Malloc) (k : ℕ) (results : List ScanResult) (s : Chain) (cs ds : List Cell)
    → map entry_of ds ≡ scanned (outcomes malloc k results s) (map entry_of cs)
    → length ds ≤ length cs + length results
length-Stands malloc k results s cs ds e = omega (
  arith,
  length-entries cs,
  length-entries ds,
  ap length e,
  length-scanned (outcomes malloc k results s) (map entry_of cs),
  length-outcomes malloc k results s,
)

one_more :
    (r : ScanResult) (cs ds : List Cell)
    → map entry_of ds ≡ Ssids.handle_wifi_scan_result r (map entry_of cs)
    → length ds ≤ suc (length cs)
one_more r cs ds e = omega (
  arith,
  length-entries cs,
  length-entries ds,
  ap length e,
  length-handle_wifi_scan_result r (map entry_of cs),
)

module _ {malloc : Malloc} (allocates : Allocates malloc) {base : Heap} where
  new_item-Stands :
      (ssid : Bytes) (n : ℕ) (security : Bool) (signal_strength : ℤ) (s : Chain) (cs : List Cell)
      → IsText ssid
      → IsChain base s cs
      → Stands base (new_item malloc ssid n security signal_strength s) (
          if not (item_succeeds malloc s)
          then map entry_of cs
          else if not (name_succeeds malloc n s)
          then map entry_of cs
          else map entry_of cs ++ entry ssid n security signal_strength ∷ [])
  unfolding new_item
  new_item-Stands ssid n security signal_strength s cs text is =
      let it = malloc.new_item s.heap in
      let h = write s.heap it (some (item blank)) in
      let name = malloc.new_bytes (n + 1) h in
      elim (Bool-cases (it == null)) [
        | inl e ↦ (s, cs, rw (e) refl, is, rw (e) refl)
        | inr e ↦
            let ne : it ≢ null = λ z. ground arith in
            let unused = allocates.item_unused s.heap ne in
            elim (Bool-cases (name == null)) [
              | inl f ↦
                  let (g, freed, same) = allocated_freed s.heap it (item blank) ne unused in
                  (
                    record s { heap = g },
                    cs,
                    rw (e, f, freed) refl,
                    IsChain-same g is same,
                    rw (e, f) refl,
                  )
              | inr f ↦
                  let ne' : name ≢ null = λ z. ground arith in
                  let d : Cell = record {
                    at = it;
                    name = name;
                    block = name_block ssid n;
                    entry = entry ssid n security signal_strength;
                  } in
                  let (t, linked, after) =
                    link-IsChain
                      (filled s.heap it name (item blank) (name_block ssid n) d.entry ne ne' unused
                        (allocates.bytes_unused (n + 1) h ne') (name_text n n ssid text))
                      cs is in
                  (t, cs ++ d ∷ [], rw (e, f) linked, after, rw (e, f) (map-append cs d))
            ]
      ]

  -- `ssid_add_item`
  ssid_add_item-Stands :
      (k : ℕ) (ssid : Bytes) (n : ℕ) (security : Bool) (signal_strength : ℤ) (s : Chain)
      (cs : List Cell)
      → IsText ssid
      → length cs < k
      → IsChain base s cs
      → Stands base (ssid_add_item malloc k ssid n security signal_strength s) (
          Ssids.ssid_add_item ssid n security signal_strength
            (item_succeeds malloc s)
            (name_succeeds malloc n s)
            (map entry_of cs))
  unfolding ssid_add_item Ssids.ssid_add_item
  ssid_add_item-Stands k ssid n security signal_strength s cs text q is =
      let (p, ran, found) = find_item-first k ssid n s.heap cs is.linked q in
      let ran' = ap (λ a. find_item k ssid n a s.heap) is.head ∙ ran in
      elim (Bool-cases (is_listed ssid n (map entry_of cs))) [
        | inl e ↦ (s, cs, rw (ran', found, e) refl, is, rw (e) refl)
        | inr e ↦
            let (t, ds, added, after, listed) =
              new_item-Stands ssid n security signal_strength s cs text is in
            (t, ds, rw (ran', found, e) added, after, listed ∙ rw (e) refl)
      ]

  handle-Stands :
      (k : ℕ) (r : ScanResult) (s : Chain) (cs : List Cell)
      → IsText r.ssid
      → length cs < k
      → IsChain base s cs
      → Stands base
          (handle_wifi_scan_result malloc k r s)
          (Ssids.handle_wifi_scan_result (outcome malloc r s) (map entry_of cs))
  unfolding handle_wifi_scan_result Ssids.handle_wifi_scan_result
  handle-Stands k r s cs text q is =
      ssid_add_item-Stands k r.ssid r.ssid_length (not r.is_open) (strength r.rssi) s cs text q is

  pub scan-Stands :
      (k : ℕ) (results : List ScanResult) (s : Chain) (cs : List Cell)
      → All (λ r. IsText r.ssid) results
      → length cs + length results < k
      → IsChain base s cs
      → Stands base
          (scan malloc k results s)
          (scanned (outcomes malloc k results s) (map entry_of cs))
  unfolding scan outcomes
  scan-Stands k [] s cs text q is = (s, cs, refl, is, refl)
  scan-Stands k (r ∷ results) s cs text q is =
      let (t, ds, ran, is', listed) = handle-Stands k r s cs text.0 (omega arith) is in
      let (u, es, rest, is'', listed') =
        scan-Stands k results t ds text.1
          (omega (arith, one_more (outcome malloc r s) cs ds listed)) is' in
      (
        u,
        es,
        rw (ran) rest,
        is'',
        rw (ran) (listed' ∙ ap (scanned (outcomes malloc k results t)) listed),
      )
