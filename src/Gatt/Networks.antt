-- ===== src/Gatt/Networks.antt =====
-- Which list of networks src/ob_bluetooth_gatt.c shows, and when it scans for a new one.
use onboarding.Base.{
  ℕ, zero, suc, ◌+◌, ◌-◌, ◌<◌, ◌≡◌, refl, sym, ap, ◌∙◌, Option, none, some, true, false, List, [],
  ◌∷◌, ◌++◌, Bytes, length, take, All, arith, length-append, ◌>>=◌,
}
use mathlib.Core.List.{append_assoc, append-nil}
use onboarding.Wifi.Ssids.{Ssid}
use onboarding.Wifi.State.{Stack, Wifi}
use onboarding.Gatt.ApList.{
  items, Aps, Encode, Wait, ends, fill_entries, encode_entries, put_char, during, update_from,
  encode_list, ob_update_ap_list, max_ap_list_length, ap_list_size, scan_complete, ssid_init_list,
  take_scan_semaphore, scan_now, is_skipped, scan_and_update_list, min_scan_interval_ms, elapsed,
}

-- What `json_obj_encode_buf` documents: an object whose text and NUL the buffer holds is written
-- whole.
pub record Encodes (encode : Encode) (object : Ssid → Bytes) : Type 0 where
  pub whole : (it : Ssid) (n : ℕ) → length (object it) < n → encode it.security it n ≡ object it

-- The objects with commas between them.
abbrev pub joined : (Ssid → Bytes) → List Ssid → Bytes
joined object [] = []
joined object (it ∷ []) = object it
joined object (it ∷ next ∷ rest) = object it ++ (b',' ∷ joined object (next ∷ rest))

fill_entries-take :
    (ndx n : ℕ) (found : List Ssid)
    → ndx + suc n ≡ max_ap_list_length
    → fill_entries ndx found ≡ take (suc n) found
unfolding fill_entries
fill_entries-take ndx n [] h = refl
fill_entries-take ndx zero (it ∷ rest) h = ground arith
fill_entries-take ndx (suc n) (it ∷ rest) h =
    ground (arith, fill_entries-take (suc ndx) n rest (omega arith))

module _ (encode : Encode) (object : Ssid → Bytes) (h : Encodes encode object) where
  put_char-fits :
      (c : ℕ) (text : Bytes)
      → length text + 1 < ap_list_size
      → put_char encode c text ≡ some (text ++ c ∷ [])
  put_char-fits c text fits = ground arith

  encode_entries-joined :
      (text : Bytes) (found : List Ssid)
      → length text + length (joined object found) + 1 < ap_list_size
      → encode_entries encode text found ≡ some (text ++ joined object found)
  unfolding encode_entries
  encode_entries-joined text [] fits = ap some (sym (append-nil text))
  encode_entries-joined text (it ∷ []) fits =
      rw (h.whole it (ap_list_size - length text) (omega arith)) refl
  encode_entries-joined text (it ∷ next ∷ rest) fits =
      let tail = joined object (next ∷ rest) in
      let first : Bytes = text ++ object it in
      let size = length-append (object it) (b',' ∷ tail) in
      let more : Bytes = first ++ b',' ∷ [] in
      rw
        (
          h.whole it (ap_list_size - length text) (omega arith),
          put_char-fits b',' first (omega (arith, length-append text (object it))),
          encode_entries-joined more (next ∷ rest)
              (omega (arith, length-append first (b',' ∷ []), length-append text (object it))),
        )
        (ap some
          (append_assoc first (b',' ∷ []) tail ∙ append_assoc text (object it) (b',' ∷ tail)))

  encode_list-joined :
      (entries : List Ssid) (s : Aps)
      → length (joined object entries) + 2 < ap_list_size
      → encode_list encode entries s
        ≡ some (record s {
          ap_list_count = length entries;
          ap_list_data = b'[' ∷ (joined object entries ++ b']' ∷ []);
        })
  unfolding encode_list
  encode_list-joined entries s fits =
      rw
        (
          encode_entries-joined (b'[' ∷ []) entries (omega arith),
          put_char-fits b']' (b'[' ∷ joined object entries) (omega arith),
        )
        refl

  -- With a list of networks in hand, and the room for it in the array of 2048 bytes, the text
  -- that a peer reads is the array of the objects of the first 64 networks, in their order, and
  -- the count is how many these are.
  pub ob_update_ap_list-joined :
      (it : Ssid) (rest : List Ssid) (s : Aps)
      → s.ssid_list ≡ items (it ∷ rest)
      → length (joined object (take max_ap_list_length (it ∷ rest))) + 2 < ap_list_size
      → ob_update_ap_list encode s
        ≡ some (record s {
          ap_list_count = length (take max_ap_list_length (it ∷ rest));
          ap_list_data = b'[' ∷ (joined object (take max_ap_list_length (it ∷ rest)) ++ b']' ∷ []);
        })
  unfolding update_from
  ob_update_ap_list-joined it rest s held fits =
      ap (λ l. update_from encode l s) held
      ∙ ap (λ l. encode_list encode l s) (fill_entries-take 0 63 (it ∷ rest) refl)
      ∙ encode_list-joined (take max_ap_list_length (it ∷ rest)) s fits

module _ {C W : Type 0} (stack : Stack C W) (encode : Encode) where
  -- The reads of a peer, one after the other.
  abbrev pub reads : List (ℕ × Wait) → Aps → Wifi C W → Option (Aps × Wifi C W)
  reads [] s wifi = some (s, wifi)
  reads (r ∷ rs) s wifi = scan_and_update_list stack encode r.0 r.1 s wifi >>= λ t. reads rs t.0 t.1

  late_one :
      (now : ℕ) (wait : Wait) (s : Aps) (wifi : Wifi C W)
      → is_skipped now s ≡ true
      → scan_and_update_list stack encode now wait s wifi ≡ some (s, wifi)
  unfolding scan_and_update_list
  late_one now wait s wifi h = ground (arith, h)

  is_skipped-late :
      (now : ℕ) (s : Aps)
      → 0 < s.ap_list_count
      → min_scan_interval_ms < elapsed now s
      → is_skipped now s ≡ true
  is_skipped-late now s l m = ground arith

  -- With networks in the list, reads that all come more than 5000 ms behind the last scan find
  -- the list as it was and ask for no scan, however many there are: it is never renewed.
  pub reads_late :
      (rs : List (ℕ × Wait)) (s : Aps) (wifi : Wifi C W)
      → 0 < s.ap_list_count
      → All (λ r. min_scan_interval_ms < elapsed r.0 s) rs
      → reads rs s wifi ≡ some (s, wifi)
  reads_late [] s wifi l h = refl
  reads_late (r ∷ rs) s wifi l h =
      rw (late_one r.0 r.1 s wifi (is_skipped-late r.0 s l h.0)) (reads_late rs s wifi l h.1)

  -- When a scan was asked for and ob_wifi.c frees its networks before the waiting thread goes on,
  -- as it does directly behind the callback, the thread reads the first of the freed nodes,
  -- whatever was found; when a scan found no network it reads a node that is not there.
  scan_and_update_list_freed :
      (now : ℕ) (found : List Ssid) (s : Aps) (wifi : Wifi C W)
      → is_skipped now s ≡ false
      → s.scan_semaphore ≡ false
      → (scan_and_update_list stack encode now (ends found true) s wifi ≡ none)
        × (scan_and_update_list stack encode now (ends [] false) s wifi ≡ none)
  unfolding scan_and_update_list scan_now take_scan_semaphore during scan_complete ssid_init_list
      update_from
  scan_and_update_list_freed now found s wifi asked idle =
      (rw (asked, idle) refl, rw (asked, idle) refl)
