-- ===== src/Wifi/Chain.antt =====
-- The chain of `ssid_item_t` of src/ob_wifi.c as it lies in memory: `ssid_add_item`,
-- `ssid_free_item` and `ssid_init_list` over a heap. Wifi.Ssids has the same list as a value.
pub mod Cells
mod Link
pub mod Add
mod Free
pub mod Scan
pub mod Freed
use onboarding.Base.{
  ℕ, zero, suc, ◌+◌, Bool, false, not, Option, none, some, List, [], ◌∷◌, ◌++◌, ℤ, pos, Bytes,
  c_str, strncpy, strn_eq, ◌==◌, if◌then◌else◌, ◌>>=◌,
}
use onboarding.Wifi.Ssids.{ScanResult, strength}

-- An address, and NULL.
abbrev pub Ptr : Type 0
Ptr = ℕ

abbrev pub null : Ptr
null = 0

-- `struct ssid_item`
pub record Item : Type 0 where
  pub next : Ptr
  pub ssid : Ptr
  pub len : ℕ
  pub security : Bool
  pub signal_strength : ℤ

-- What an allocated block holds: a structure, or the bytes of an array.
pub data Object : Type 0 where
  item : Item → Object
  bytes : Bytes → Object

abbrev pub Heap : Type 0
Heap = Ptr → Option Object

unfoldable pub write : Heap → Ptr → Option Object → Heap
write h p o a = if a == p then o else h a

-- `none`: NULL, an address that is not allocated, or a block of the other kind.
unfoldable pub load_item : Ptr → Heap → Option Item
load_item p h =
    if p == null
    then none
    else elim (h p) [ none ↦ none | some (bytes b) ↦ none | some (item i) ↦ some i ]

unfoldable pub load_bytes : Ptr → Heap → Option Bytes
load_bytes p h =
    if p == null
    then none
    else elim (h p) [ none ↦ none | some (bytes b) ↦ some b | some (item i) ↦ none ]

-- `free`; `none`: the address is not allocated.
unfoldable pub free : Ptr → Heap → Option Heap
free p h = if p == null then some h else elim (h p) [ none ↦ none | some o ↦ some (write h p none) ]

-- The address that `malloc` gives for a structure and for an array of a size, or NULL.
pub record Malloc : Type 0 where
  pub new_item : Heap → Ptr
  pub new_bytes : ℕ → Heap → Ptr

-- The heap, with `ssid_head` and `ssid_tail`.
pub record Chain : Type 0 where
  pub heap : Heap
  pub head : Ptr
  pub tail : Ptr

-- The loop of `ssid_add_item` from `it` on, on fuel: the address of the item that has the name,
-- or NULL.
unfoldable pub find_item : ℕ → Bytes → ℕ → Ptr → Heap → Option Ptr
find_item zero ssid ssid_length it h = none
find_item (suc k) ssid ssid_length it h =
    if it == null
    then some null
    else load_item it h >>= λ i. load_bytes i.ssid h >>= λ name.
        let rest = find_item k ssid ssid_length i.next h in
        if strn_eq ssid_length ssid (c_str name) then some it else rest

-- The end of `ssid_add_item`, with the filled item
unfoldable pub link : Ptr → Chain → Option Chain
link it s =
    if s.head == null
    then some (record s { head = it; tail = it })
    else load_item s.tail s.heap >>= λ last. some (record s {
      heap = write s.heap s.tail (some (item (record last { next = it })));
      tail = it;
    })

-- What `malloc` leaves in a structure is not read.
abbrev pub blank : Item
blank = record { next = null; ssid = null; len = 0; security = false; signal_strength = pos 0 }

-- `strncpy` into an array of ssid_length + 1 bytes, and the NUL behind it
abbrev pub name_block : Bytes → ℕ → Bytes
name_block ssid ssid_length = strncpy ssid_length ssid ++ 0 ∷ []

module _ (malloc : Malloc) where
  -- `ssid_add_item` where no item has the name
  unfoldable pub new_item : Bytes → ℕ → Bool → ℤ → Chain → Option Chain
  new_item ssid ssid_length security signal_strength s =
      let it = malloc.new_item s.heap in
      if it == null
      then some s
      else let h = write s.heap it (some (item blank)) in
        let name = malloc.new_bytes (ssid_length + 1) h in
        if name == null
        then (free it h >>= λ g. some (record s { heap = g }))
        else let g = write h name (some (bytes (name_block ssid ssid_length))) in
          link it (record s {
            heap = write g it (
                some (
                  item (record {
                    next = null;
                    ssid = name;
                    len = ssid_length;
                    security = security;
                    signal_strength = signal_strength;
                  })));
          })

  unfoldable pub ssid_add_item : ℕ → Bytes → ℕ → Bool → ℤ → Chain → Option Chain
  ssid_add_item k ssid ssid_length security signal_strength s =
      find_item k ssid ssid_length s.head s.heap >>= λ it.
      if it == null then new_item ssid ssid_length security signal_strength s else some s

  unfoldable pub handle_wifi_scan_result : ℕ → ScanResult → Chain → Option Chain
  handle_wifi_scan_result k entry s =
      ssid_add_item k entry.ssid entry.ssid_length (not entry.is_open) (strength entry.rssi) s

-- On fuel. The item is read again behind the recursive call.
unfoldable pub ssid_free_item : ℕ → Ptr → Heap → Option Heap
ssid_free_item zero it h = none
ssid_free_item (suc k) it h =
    if it == null
    then some h
    else load_item it h >>= λ i. ssid_free_item k i.next h >>= λ g.
        load_item it g >>= λ j. free j.ssid g >>= λ g'. free it g'

unfoldable pub ssid_init_list : ℕ → Chain → Option Chain
ssid_init_list k s =
    ssid_free_item k s.head s.heap >>= λ g. some (record { heap = g; head = null; tail = null })
