-- ===== src/Web/Send.antt =====
-- `sendall` of src/ob_web_server.c, and what it delivers.
use onboarding.Base.{
  ℕ, zero, suc, ◌+◌, ◌≤◌, ◌<◌, ◌≡◌, refl, sym, ap, ◌∙◌, ℤ, pos, negsuc, Option, none, some, [], ◌∷◌,
  ◌++◌, Bytes, ltb, if◌then◌else◌, length, take, drop, arith, length-drop, length-take,
  take-append-drop,
}
use onboarding.Web.Net.{Net}
use mathlib.Core.List.{append_assoc, append-nil}

-- SENDALL_MAX_LEN
abbrev pub sendall_max_len : ℕ
sendall_max_len = 1024

-- `len>SENDALL_MAX_LEN?SENDALL_MAX_LEN: len`
abbrev pub chunk_len : ℕ → ℕ
chunk_len len = if ltb sendall_max_len len then sendall_max_len else len

-- The bytes that one round hands to `zsock_send`.
abbrev pub chunk : Bytes → Bytes
chunk buf = take (chunk_len (length buf)) buf

module _ {W : Type 0} (net : Net W) where
  -- The loop, on the bytes not yet sent. `none` means that the rounds ran out: the C loop does
  -- not end while `zsock_send` reports that it sent nothing.
  unfoldable pub send_rounds : ℕ → ℕ → Bytes → W → Option (ℤ × W)
  send_rounds fuel sock [] w = some (pos 0, w)
  send_rounds zero sock (b ∷ bs) w = none
  send_rounds (suc fuel) sock (b ∷ bs) w =
      let (rc, w') = net.send sock (chunk (b ∷ bs)) w in
      elim rc [
        | pos n ↦ send_rounds fuel sock (drop n (b ∷ bs)) w'
        | negsuc e ↦ some (negsuc e, w')
      ]

  -- Each round sends a byte at least, so there are at most as many rounds as bytes.
  unfoldable pub sendall : ℕ → Bytes → W → Option (ℤ × W)
  unfolding send_rounds
  sendall sock buf w = send_rounds (length buf) sock buf w

-- What `zsock_send` documents, of a call with 1 to 1024 bytes: it sends a first part of them, of
-- a byte at least, or fails and sends nothing. `wire` is what has been sent on the socket.
pub record Sends {W : Type 0} (net : Net W) (sock : ℕ) (wire : W → Bytes) : Type 0 where
  pub sent :
      (buf : Bytes) (w w' : W) (n : ℕ)
      → 1 ≤ length buf
      → length buf ≤ sendall_max_len
      → net.send sock buf w ≡ (pos n, w')
      → (1 ≤ n) × (n ≤ length buf) × (wire w' ≡ wire w ++ take n buf)
  pub failed :
      (buf : Bytes) (w w' : W) (e : ℕ) → net.send sock buf w ≡ (negsuc e, w') → wire w' ≡ wire w

-- All of `buf` arrived, or the error of a send is passed on behind a first part of `buf`.
pub data Delivered {W : Type 0} (wire : W → Bytes) (buf : Bytes) (w : W) : ℤ × W → Type 0 where
  all : {w' : W} → wire w' ≡ wire w ++ buf → Delivered wire buf w (pos 0, w')
  part :
      {w' : W} (e : ℕ) (k : ℕ)
      → k < length buf
      → wire w' ≡ wire w ++ take k buf
      → Delivered wire buf w (negsuc e, w')

take-take : (n m : ℕ) (xs : Bytes) → n ≤ m → take n (take m xs) ≡ take n xs
take-take zero m xs h = refl
take-take (suc n) zero xs h = absurd (omega arith)
take-take (suc n) (suc m) [] h = refl
take-take (suc n) (suc m) (x ∷ xs) h = ap (◌∷◌ x) (take-take n m xs (omega arith))

chunk_size :
    (n : ℕ) → (chunk_len n ≤ sendall_max_len) × (chunk_len n ≤ n) × (1 ≤ n → 1 ≤ chunk_len n)
chunk_size n = ground arith

-- A part of a chunk is a part of the buffer, and a chunk is neither empty nor too large.
length-chunk :
    (buf : Bytes)
    → (length (chunk buf) ≤ sendall_max_len)
      × (length (chunk buf) ≤ length buf)
      × (1 ≤ length buf → 1 ≤ length (chunk buf))
length-chunk buf =
    let size = chunk_size (length buf) in
    omega (arith, size, length-take (chunk_len (length buf)) buf)

take-chunk : (n : ℕ) (buf : Bytes) → n ≤ length (chunk buf) → take n (chunk buf) ≡ take n buf
take-chunk n buf h = take-take n _ buf (omega (arith, h, length-take (chunk_len (length buf)) buf))

suc-add : (n k : ℕ) → suc (n + k) ≡ suc n + k
suc-add n k = omega arith

take-append-take :
    (n k : ℕ) (xs : Bytes) → n ≤ length xs → take n xs ++ take k (drop n xs) ≡ take (n + k) xs
take-append-take zero k xs h = ap (λ m. take m xs) (omega arith)
take-append-take (suc n) k [] h = absurd (omega arith)
take-append-take (suc n) k (x ∷ xs) h =
    ap (◌∷◌ x) (take-append-take n k xs (omega arith)) ∙ ap (λ m. take m (x ∷ xs)) (suc-add n k)

module _ {W : Type 0} (wire : W → Bytes) where
  -- What was delivered behind a first part.
  pub Delivered-more :
      (buf : Bytes) (n : ℕ) {w w' : W} (r : ℤ × W)
      → n ≤ length buf
      → wire w' ≡ wire w ++ take n buf
      → Delivered wire (drop n buf) w' r
      → Delivered wire buf w r
  Delivered-more buf n {w} r l e (all d) = all (
      d
      ∙ ap (λ t. t ++ drop n buf) e
      ∙ append_assoc (wire w) (take n buf) (drop n buf)
      ∙ ap (λ t. wire w ++ t) (take-append-drop n buf))
  Delivered-more buf n {w} r l e (part x k m d) =
      part x (n + k) (omega (arith, m, length-drop n buf)) (
        d
        ∙ ap (λ t. t ++ take k (drop n buf)) e
        ∙ append_assoc (wire w) (take n buf) (take k (drop n buf))
        ∙ ap (λ t. wire w ++ t) (take-append-take n k buf l))

module _ {W : Type 0} (net : Net W) (sock : ℕ) where
  abbrev pub after : ℕ → Bytes → ℤ × W → Option (ℤ × W)
  after fuel buf (rc, w') = elim rc [
    | pos n ↦ send_rounds net fuel sock (drop n buf) w'
    | negsuc e ↦ some (negsuc e, w')
  ]

  pub send_rounds_step :
      (fuel b : ℕ) (bs : Bytes) (w : W)
      → send_rounds net (suc fuel) sock (b ∷ bs) w
        ≡ after fuel (b ∷ bs) (net.send sock (chunk (b ∷ bs)) w)
  unfolding send_rounds
  send_rounds_step fuel b bs w = refl

module _ {W : Type 0} (net : Net W) (sock : ℕ) (wire : W → Bytes) (h : Sends net sock wire) where
  Ends : ℕ → Bytes → W → Type 0
  Ends fuel buf w =
      (r : ℤ × W) × (send_rounds net fuel sock buf w ≡ some r) × Delivered wire buf w r

  Ends-after :
      (fuel b : ℕ) (bs : Bytes) (w : W) (o : ℤ × W)
      → net.send sock (chunk (b ∷ bs)) w ≡ o
      → ((n : ℕ) (w' : W) → 1 ≤ n → Ends fuel (drop n (b ∷ bs)) w')
      → (r : ℤ × W) × (after net sock fuel (b ∷ bs) o ≡ some r) × Delivered wire (b ∷ bs) w r
  unfolding Ends
  Ends-after fuel b bs w (negsuc e, w') o later = (
    (negsuc e, w'),
    refl,
    part e 0 (omega arith) (h.failed _ w w' e o ∙ sym (append-nil (wire w))),
  )
  Ends-after fuel b bs w (pos n, w') o later =
      let size = length-chunk (b ∷ bs) in
      let (one, fits, wired) = h.sent (chunk (b ∷ bs)) w w' n (size.2 (omega arith)) size.0 o in
      let (r, ran, d) = later n w' one in
      (
        r,
        ran,
        Delivered-more wire (b ∷ bs) n r (omega (arith, fits, size.1))
            (wired ∙ ap (λ t. wire w ++ t) (take-chunk n (b ∷ bs) fits)) d,
      )

  send_rounds-Ends : (fuel : ℕ) (buf : Bytes) (w : W) → length buf ≤ fuel → Ends fuel buf w
  unfolding Ends
  send_rounds-Ends fuel [] w l =
      ((pos 0, w), unfold send_rounds in refl, all (sym (append-nil (wire w))))
  send_rounds-Ends zero (b ∷ bs) w l = absurd (omega arith)
  send_rounds-Ends (suc fuel) (b ∷ bs) w l = rw (send_rounds_step net sock fuel b bs w) (
      Ends-after fuel b bs w (net.send sock (chunk (b ∷ bs)) w) refl (λ n w' one.
        send_rounds-Ends fuel (drop n (b ∷ bs)) w' (omega (arith, length-drop n (b ∷ bs)))))

  -- `sendall` returns for every buffer, where `zsock_send` keeps its contract: with 0 when all
  -- the bytes were sent in their order and none besides, or with the error of a send when a
  -- proper first part of them was.
  pub sendall-Delivered :
      (buf : Bytes) (w : W)
      → (r : ℤ × W) × (sendall net sock buf w ≡ some r) × Delivered wire buf w r
  unfolding sendall Ends
  sendall-Delivered buf w = send_rounds-Ends (length buf) buf w (omega arith)
