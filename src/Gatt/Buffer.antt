-- ===== src/Gatt/Buffer.antt =====
-- The buffer of the writes of src/ob_bluetooth_gatt.c.
use onboarding.Base.{
  ℕ, zero, suc, ◌+◌, ◌≤◌, ◌<◌, ◌≡◌, refl, ap, ◌∙◌, negsuc, Option, some, true, false, List, [], ◌∷◌,
  ◌++◌, Bytes, ltb, length, take, drop, c_str, c_str-append, store, store-in_range, store_past,
  set-append, length-append, length-drop, length-take, arith, IsText,
}
use onboarding.Nvs.{Settings}
use onboarding.Wifi.State.{Stack}
use onboarding.Wifi.Events.{Event}
use onboarding.Gatt.Join.{
  Gatt, Peer, wrote, fault, parsed, stored, write_current_ap, copy_at, joins,
}

joins_always : (flags : ℕ) → joins flags ≡ true
joins_always flags = ground arith

pub below : (n m : ℕ) → n ≤ m → ltb m n ≡ false
below n m h = ground arith

drop-inside :
    (n : ℕ) (buffer : Bytes)
    → n < length buffer
    → (x : ℕ) × (rest : Bytes) × (drop n buffer ≡ x ∷ rest)
drop-inside n [] h = absurd (omega arith)
drop-inside zero (x ∷ buffer) h = (x, buffer, refl)
drop-inside (suc n) (x ∷ buffer) h = drop-inside n buffer (omega arith)

-- The text at the start of the buffer, with the NUL behind it.
c_str-copied :
    (buf buffer : Bytes)
    → IsText buf
    → length buf < length buffer
    → (whole : Bytes) × (store (copy_at 0 buf buffer) (0 + length buf) 0 ≡ some whole)
      × (c_str whole ≡ buf)
c_str-copied buf buffer text room =
    let (x, rest, e) = drop-inside (length buf) buffer room in
    let start : 0 + length buf ≡ length buf = omega arith in
    (
      buf ++ 0 ∷ rest,
      ap (λ n. store (buf ++ drop n buffer) n 0) start
          ∙ ap (λ t. store (buf ++ t) (length buf) 0) e
          ∙ store-in_range (buf ++ x ∷ rest) (length buf) 0
              (omega (arith, length-append buf (x ∷ rest)))
          ∙ ap some (set-append buf rest x 0),
      c_str-append buf rest text,
    )

length-copy_at :
    (offset : ℕ) (buf buffer : Bytes)
    → offset + length buf ≤ length buffer
    → length (copy_at offset buf buffer) ≡ length buffer
length-copy_at offset buf buffer h = omega (
  arith,
  length-append (take offset buffer) (buf ++ drop (offset + length buf) buffer),
  length-append buf (drop (offset + length buf) buffer),
  length-take offset buffer,
  length-drop (offset + length buf) buffer,
)

module _ {C D W : Type 0} (stack : Stack C W) (settings : Settings W) (peer : Peer W)
    (arrive : ℕ → List Event) (events : List Event) where
  stored-parsed :
      (len flags : ℕ) (o : Option Bytes) (whole : Bytes) (s : Gatt C D W)
      → o ≡ some whole
      → stored stack settings peer arrive events len flags o s
        ≡ parsed stack settings peer arrive events len
            (peer.parse (c_str whole))
            (record s { tmp_write_buffer = whole })
  unfolding stored
  stored-parsed len flags o whole s e = rw (e, joins_always flags) refl

  inside :
      (buf : Bytes) (offset flags : ℕ) (s : Gatt C D W)
      → offset + length buf ≤ length s.tmp_write_buffer
      → write_current_ap stack settings peer arrive events buf offset flags s
        ≡ stored stack settings peer arrive events
            (length buf)
            flags
            (store (copy_at offset buf s.tmp_write_buffer) (offset + length buf) 0)
            s
  unfolding write_current_ap
  inside buf offset flags s room =
      rw (below (offset + length buf) (length s.tmp_write_buffer) room) refl

  past :
      (buf : Bytes) (offset flags : ℕ) (s : Gatt C D W)
      → length s.tmp_write_buffer < offset + length buf
      → write_current_ap stack settings peer arrive events buf offset flags s
        ≡ wrote (negsuc 6) s events
  unfolding write_current_ap
  past buf offset flags s h = ground arith

  -- A text without NUL that is shorter than the buffer is parsed as it was written, whatever
  -- the buffer held before and whatever the flags of the write are, also where they say that
  -- the write is a first part of a longer one.
  pub write_current_ap-parsed :
      (buf : Bytes) (flags : ℕ) (s : Gatt C D W)
      → IsText buf
      → length buf < length s.tmp_write_buffer
      → (whole : Bytes) × (write_current_ap stack settings peer arrive events buf 0 flags s
          ≡ parsed stack settings peer arrive events
              (length buf)
              (peer.parse buf)
              (record s { tmp_write_buffer = whole }))
        × (c_str whole ≡ buf)
  write_current_ap-parsed buf flags s text room =
      let (whole, put, read) = c_str-copied buf s.tmp_write_buffer text room in
      (
        whole,
        inside buf 0 flags s (omega arith)
            ∙ stored-parsed (length buf) flags _ whole s put
            ∙ ap
                (λ t.
                  parsed stack settings peer arrive events (length buf) (peer.parse t)
                    (record s { tmp_write_buffer = whole }))
                read,
        read,
      )

  -- A write that ends exactly where the buffer ends passes the check and puts its NUL behind the
  -- buffer; a longer one is refused, and changes nothing.
  write_current_ap_end :
      (buf : Bytes) (offset flags : ℕ) (s : Gatt C D W)
      → offset + length buf ≡ length s.tmp_write_buffer
      → (write_current_ap stack settings peer arrive events buf offset flags s ≡ fault)
        × ((c : ℕ)
            → write_current_ap stack settings peer arrive events (buf ++ c ∷ []) offset flags s
              ≡ wrote (negsuc 6) s events)
  unfolding stored
  write_current_ap_end buf offset flags s at = (
    inside buf offset flags s (omega arith)
        ∙ ap (λ o. stored stack settings peer arrive events (length buf) flags o s)
            (store_past (copy_at offset buf s.tmp_write_buffer) (offset + length buf) 0
              (omega (arith, length-copy_at offset buf s.tmp_write_buffer (omega arith)))),
    λ c. past (buf ++ c ∷ []) offset flags s (omega (arith, length-append buf (c ∷ []))),
  )
