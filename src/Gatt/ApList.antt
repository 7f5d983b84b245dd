-- ===== src/Gatt/ApList.antt =====
-- The list of networks that a peer reads: `scan_complete`, `ob_update_ap_list` and
-- `scan_and_update_list` of src/ob_bluetooth_gatt.c.
use onboarding.Base.{
  ℕ, suc, ◌+◌, ◌-◌, ◌%◌, ◌^◌, Option, none, some, Bool, true, false, ◌&&◌, List, [], ◌∷◌, ◌++◌,
  Bytes, ltb, ◌==◌, if◌then◌else◌, length, ◌>>=◌,
}
use onboarding.Wifi.Ssids.{Ssid}
use onboarding.Wifi.State.{Stack, Wifi}
use onboarding.Wifi.Lifecycle.{ob_wifi_scan}

-- `ssid_list`: NULL, the list that `scan_complete` was handed, or that list once ob_wifi.c has
-- freed it, which it does when the callback returns.
pub data SsidList : Type 0 where
  nothing freed : SsidList
  items : List Ssid → SsidList

-- What the service keeps of the networks.
pub record Aps : Type 0 where
  pub ssid_list : SsidList
  pub scan_semaphore : Bool
  pub ap_list_count : ℕ
  -- the text in `ap_list_data`, which a NUL follows
  pub ap_list_data : Bytes
  pub most_recent_scan_time : ℕ

-- `scan_complete`
unfoldable pub scan_complete : List Ssid → Aps → Aps
scan_complete found s = record s { ssid_list = items found; scan_semaphore = true }

-- The end of `handle_wifi_scan_done` of ob_wifi.c, which frees the list.
unfoldable pub ssid_init_list : Aps → Aps
ssid_init_list s = elim s.ssid_list [
  | nothing ↦ s
  | freed ↦ s
  | items found ↦ record s { ssid_list = freed }
]

-- MAX_AP_LIST_LENGTH and the size of `ap_list_data`
abbrev pub max_ap_list_length : ℕ
max_ap_list_length = 64

abbrev pub ap_list_size : ℕ
ap_list_size = 2048

-- The `do … while` that fills `ap_list`, behind a first entry.
unfoldable pub fill_entries : ℕ → List Ssid → List Ssid
fill_entries ndx [] = []
fill_entries ndx (it ∷ rest) =
    let more = fill_entries (suc ndx) rest in
    it ∷ (if suc ndx == max_ap_list_length then [] else more)

-- `json_obj_encode_buf` with the description of a secure entry or of an open one, on an entry
-- and a buffer of a size: the text that it leaves.
abbrev pub Encode : Type 0
Encode = Bool → Ssid → ℕ → Bytes

module _ (encode : Encode) where
  -- `ap_list_data[strlen(ap_list_data)] = c`. `none`: no NUL is left behind it, and the next
  -- `strlen` leaves the array.
  abbrev pub put_char : ℕ → Bytes → Option Bytes
  put_char c text = if ltb (length text + 1) ap_list_size then some (text ++ c ∷ []) else none

  -- The loop that encodes the entries, with the text so far.
  unfoldable pub encode_entries : Bytes → List Ssid → Option Bytes
  encode_entries text [] = some text
  encode_entries text (it ∷ []) = some (text ++ encode it.security it (ap_list_size - length text))
  encode_entries text (it ∷ next ∷ rest) =
      put_char b',' (text ++ encode it.security it (ap_list_size - length text)) >>= λ more.
      encode_entries more (next ∷ rest)

  -- `ob_update_ap_list` behind the loop that fills `ap_list`
  unfoldable pub encode_list : List Ssid → Aps → Option Aps
  unfolding encode_entries
  encode_list entries s = encode_entries (b'[' ∷ []) entries >>= λ text.
      put_char b']' text >>= λ whole.
      some (record s { ap_list_count = length entries; ap_list_data = whole })

  -- `ob_update_ap_list` on what `ssid_list` points to. `none`: it reads the first node of no list
  -- or of a freed one, or leaves the array.
  unfoldable pub update_from : SsidList → Aps → Option Aps
  unfolding encode_list fill_entries
  update_from nothing s = none
  update_from freed s = none
  update_from (items []) s = none
  update_from (items (it ∷ rest)) s = encode_list (fill_entries 0 (it ∷ rest)) s

  abbrev pub ob_update_ap_list : Aps → Option Aps
  ob_update_ap_list s = update_from s.ssid_list s

-- What the wait for `scan_semaphore` sees: its time limit, or the end of the scan, with whether
-- the list was freed when the thread goes on.
pub data Wait : Type 0 where
  times_out : Wait
  ends : List Ssid → Bool → Wait

-- What happens to the list meanwhile
unfoldable pub during : Wait → Aps → Aps
unfolding scan_complete ssid_init_list
during times_out s = s
during (ends found false) s = scan_complete found s
during (ends found true) s = ssid_init_list (scan_complete found s)

-- `k_sem_take(&scan_semaphore, SCAN_TIMEOUT)`, whose result is only logged
unfoldable pub take_scan_semaphore : Wait → Aps → Aps
unfolding during
take_scan_semaphore wait s = record (if s.scan_semaphore then s else during wait s) {
  scan_semaphore = false;
}

-- MIN_SCAN_INTERVAL_MS
abbrev pub min_scan_interval_ms : ℕ
min_scan_interval_ms = 5000

-- The time since the last scan, as an unsigned 32-bit difference
abbrev pub elapsed : ℕ → Aps → ℕ
elapsed now s = (now + 2 ^ 32 - s.most_recent_scan_time) % 2 ^ 32

-- The condition under which no scan is made
abbrev pub is_skipped : ℕ → Aps → Bool
is_skipped now s = ltb min_scan_interval_ms (elapsed now s) && ltb 0 s.ap_list_count

module _ {C W : Type 0} (stack : Stack C W) (encode : Encode) where
  unfoldable pub scan_now : ℕ → Wait → Aps → Wifi C W → Option (Aps × Wifi C W)
  unfolding take_scan_semaphore ob_wifi_scan update_from
  scan_now now wait s wifi =
      ob_update_ap_list encode (take_scan_semaphore wait (record s { most_recent_scan_time = now }))
      >>= λ t. some (t, (ob_wifi_scan stack wifi).1)

  -- `scan_and_update_list`, at the time `now`
  unfoldable pub scan_and_update_list : ℕ → Wait → Aps → Wifi C W → Option (Aps × Wifi C W)
  unfolding scan_now
  scan_and_update_list now wait s wifi =
      let scanned = scan_now now wait s wifi in if is_skipped now s then some (s, wifi) else scanned
