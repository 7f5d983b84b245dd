-- ===== src/Wifi/Listing.antt =====
-- Which networks a scan lists: the properties of `ssid_add_item` of src/ob_wifi.c.
use onboarding.Base.{
  ℕ, zero, suc, ◌≡◌, refl, sym, ap, ◌∙◌, Bool, true, false, ◌||◌, List, [], ◌∷◌, ◌++◌, inl, inr,
  Bytes, take, All, Bool-cases, strn_eq, strn_eq-take, strn_eq-append, length, ==-refl,
}
use onboarding.Wifi.Ssids.{
  Ssid, ScanResult, is_listed, ssid_add_item, handle_wifi_scan_result, scanned,
}

-- The name of each entry does not begin the name of any entry before it.
abbrev pub IsFresh : List Ssid → Type 0
IsFresh [] = Unit
IsFresh (it ∷ items) = All (λ j. strn_eq j.len j.ssid it.ssid ≡ false) items × IsFresh items

true_≢ : true ≡ false → ⊥
true_≢ e = cc

||-false : (a b : Bool) → (a || b) ≡ false → (a ≡ false) × (b ≡ false)
||-false true b h = elim (true_≢ h) [ ]
||-false false b h = (refl, h)

All-snoc :
    {A : Type 0} (P : A → Type 0) (xs : List A) {x : A} → All P xs → P x → All P (xs ++ (x ∷ []))
All-snoc P [] h p = (p, tt)
All-snoc P (y ∷ xs) h p = (h.0, All-snoc P xs h.1 p)

snoc-IsFresh :
    (items : List Ssid) (it : Ssid)
    → is_listed it.ssid it.len items ≡ false
    → IsFresh items
    → IsFresh (items ++ (it ∷ []))
unfolding is_listed
snoc-IsFresh [] it e h = (tt, tt)
snoc-IsFresh (x ∷ items) it e h =
    let both = ||-false (strn_eq it.len it.ssid x.ssid) (is_listed it.ssid it.len items) e in
    (All-snoc _ items h.0 both.0, snoc-IsFresh items it both.1 h.1)

is_listed-take :
    (ssid : Bytes) (n : ℕ) (items : List Ssid)
    → is_listed (take n ssid) n items ≡ is_listed ssid n items
unfolding is_listed
is_listed-take ssid n [] = refl
is_listed-take ssid n (x ∷ items) =
    rw (strn_eq-take n ssid x.ssid, is_listed-take ssid n items) refl

is_listed-append :
    (ssid : Bytes) (n : ℕ) (items more : List Ssid)
    → is_listed ssid n items ≡ true
    → is_listed ssid n (items ++ more) ≡ true
unfolding is_listed
is_listed-append ssid n [] more h = elim (true_≢ (sym h)) [ ]
is_listed-append ssid n (x ∷ items) more h = elim (Bool-cases (strn_eq n ssid x.ssid)) [
  | inl e ↦ rw (e) refl
  | inr e ↦
      rw (e)
        (is_listed-append ssid n items more (sym (ap (λ b. b || is_listed ssid n items) e) ∙ h))
]

strn_eq-take_self : (n : ℕ) (a : Bytes) → strn_eq n a (take n a) ≡ true
strn_eq-take_self zero a = refl
strn_eq-take_self (suc n) [] = refl
strn_eq-take_self (suc n) (x ∷ a) = rw (==-refl x, strn_eq-take_self n a) refl

is_listed-last :
    (n : ℕ) (items : List Ssid) (it : Ssid) (ssid : Bytes)
    → it.ssid ≡ take n ssid
    → is_listed ssid n (items ++ (it ∷ [])) ≡ true
unfolding is_listed
is_listed-last n [] it ssid h = rw (h, strn_eq-take_self n ssid) refl
is_listed-last n (x ∷ items) it ssid h = elim (Bool-cases (strn_eq n ssid x.ssid)) [
  | inl e ↦ rw (e) refl
  | inr e ↦ rw (e) (is_listed-last n items it ssid h)
]

-- Every entry of the list keeps the property that its name begins no earlier entry's, whatever
-- the length, the strength and the allocations of the result.
handle_wifi_scan_result-IsFresh :
    (r : ScanResult) (items : List Ssid) → IsFresh items → IsFresh (handle_wifi_scan_result r items)
unfolding handle_wifi_scan_result ssid_add_item
handle_wifi_scan_result-IsFresh r items h =
    elim (Bool-cases (is_listed r.ssid r.ssid_length items)) [
      | inl e ↦ rw (e) h
      | inr e ↦ elim (Bool-cases r.item_allocated) [
        | inr e' ↦ rw (e, e') h
        | inl e' ↦ elim (Bool-cases r.ssid_allocated) [
          | inr f ↦ rw (e, e', f) h
          | inl f ↦
              rw (e, e', f) (snoc-IsFresh items _ (is_listed-take r.ssid r.ssid_length items ∙ e) h)
        ]
      ]
    ]

-- No scan lists a name twice: whatever results arrive, in whatever order and with whatever
-- failed allocations, the name of an entry begins the name of no entry before it.
pub scanned-IsFresh :
    (results : List ScanResult) (items : List Ssid)
    → IsFresh items
    → IsFresh (scanned results items)
scanned-IsFresh [] items h = h
scanned-IsFresh (r ∷ results) items h =
    scanned-IsFresh results (handle_wifi_scan_result r items)
      (handle_wifi_scan_result-IsFresh r items h)

-- Both allocations of a result succeed.
abbrev pub IsAllocated : ScanResult → Type 0
IsAllocated r = (r.item_allocated ≡ true) × (r.ssid_allocated ≡ true)

handle_wifi_scan_result-kept :
    (r : ScanResult) (items : List Ssid) (ssid : Bytes) (n : ℕ)
    → is_listed ssid n items ≡ true
    → is_listed ssid n (handle_wifi_scan_result r items) ≡ true
unfolding handle_wifi_scan_result ssid_add_item
handle_wifi_scan_result-kept r items ssid n h =
    elim (Bool-cases (is_listed r.ssid r.ssid_length items)) [
      | inl e ↦ rw (e) h
      | inr e ↦ elim (Bool-cases r.item_allocated) [
        | inr e' ↦ rw (e, e') h
        | inl e' ↦ elim (Bool-cases r.ssid_allocated) [
          | inr f ↦ rw (e, e', f) h
          | inl f ↦ rw (e, e', f) (is_listed-append ssid n items _ h)
        ]
      ]
    ]

scanned-kept :
    (results : List ScanResult) (items : List Ssid) (ssid : Bytes) (n : ℕ)
    → is_listed ssid n items ≡ true
    → is_listed ssid n (scanned results items) ≡ true
scanned-kept [] items ssid n h = h
scanned-kept (r ∷ results) items ssid n h =
    scanned-kept results (handle_wifi_scan_result r items) ssid n
      (handle_wifi_scan_result-kept r items ssid n h)

handle_wifi_scan_result-is_listed :
    (r : ScanResult) (items : List Ssid)
    → IsAllocated r
    → is_listed r.ssid r.ssid_length (handle_wifi_scan_result r items) ≡ true
unfolding handle_wifi_scan_result ssid_add_item
handle_wifi_scan_result-is_listed r items (a, b) =
    elim (Bool-cases (is_listed r.ssid r.ssid_length items)) [
      | inl e ↦ rw (e) e
      | inr e ↦ rw (e, a, b) (is_listed-last r.ssid_length items _ r.ssid refl)
    ]

-- When the allocations of a scan succeed, the name of every result begins the name of an entry
-- of the final list.
pub scanned-is_listed :
    (results : List ScanResult) (items : List Ssid)
    → All IsAllocated results
    → All (λ r. is_listed r.ssid r.ssid_length (scanned results items) ≡ true) results
scanned-is_listed [] items h = tt
scanned-is_listed (r ∷ rs) items h = (
  scanned-kept rs (handle_wifi_scan_result r items) r.ssid r.ssid_length
      (handle_wifi_scan_result-is_listed r items h.0),
  scanned-is_listed rs (handle_wifi_scan_result r items) h.1,
)

is_listed-inside :
    (before after : List Ssid) (it : Ssid) (ssid : Bytes) (n : ℕ)
    → strn_eq n ssid it.ssid ≡ true
    → is_listed ssid n (before ++ it ∷ after) ≡ true
unfolding is_listed
is_listed-inside [] after it ssid n h = rw (h) refl
is_listed-inside (x ∷ before) after it ssid n h = elim (Bool-cases (strn_eq n ssid x.ssid)) [
  | inl e ↦ rw (e) refl
  | inr e ↦ rw (e) (is_listed-inside before after it ssid n h)
]

-- A network whose name begins the longer name of a listed one is not added: "cafe" is missing
-- from a list that already has "cafe-guest".
pub handle_wifi_scan_result_prefix :
    (r : ScanResult) (it : Ssid) (before after : List Ssid) (more : Bytes)
    → r.ssid_length ≡ length r.ssid
    → it.ssid ≡ r.ssid ++ more
    → handle_wifi_scan_result r (before ++ it ∷ after) ≡ before ++ it ∷ after
unfolding handle_wifi_scan_result ssid_add_item
handle_wifi_scan_result_prefix r it before after more n e =
    rw
      (is_listed-inside before after it r.ssid r.ssid_length
        (rw (n, e) (strn_eq-append r.ssid more)))
      refl
