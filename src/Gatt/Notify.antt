-- ===== src/Gatt/Notify.antt =====
-- The notifications of the list of networks: the loop of `send_ap_list_work_handler` of
-- src/ob_bluetooth_gatt.c.
use onboarding.Base.{
  ℕ, zero, suc, ◌+◌, ◌-◌, ◌%◌, ◌^◌, ◌≤◌, ◌<◌, ◌≡◌, refl, sym, ap, ◌∙◌, ℤ, pos, negsuc, Option, none,
  some, true, false, [], ◌∷◌, ◌++◌, Bytes, ltb, ◌==◌, ==_iff, if◌then◌else◌, length, take, drop,
  arith, length-drop, length-take, Bool-cases, inl, inr,
}
use onboarding.Web.Send.{Delivered, all, part, Delivered-more}
use mathlib.Core.List.{append-nil}

-- The connection of a peer, over the state `W` of the world.
pub record Peer (W : Type 0) : Type 0 where
  -- `bt_gatt_get_mtu`, which is 0 for a peer that is gone
  pub mtu : W → ℕ
  -- `bt_gatt_notify_cb`, on the data of its parameters
  pub notify : Bytes → W → ℤ × W
  -- `k_sleep` of 10 ms
  pub sleep : W → W
  -- `k_yield`
  pub yields : W → W

-- `uint16_t chunk_size = bt_gatt_get_mtu(conn) - 3`
abbrev pub chunk_size : ℕ → ℕ
chunk_size mtu = (mtu + (2 ^ 16 - 3)) % 2 ^ 16

-- `len_to_send`
abbrev pub len_to_send : ℕ → ℕ → ℕ
len_to_send size left = if ltb size left then size else left

-- -ENOMEM is `negsuc 11`.
abbrev pub enomem : ℕ
enomem = 11

module _ {W : Type 0} (peer : Peer W) where
  -- The loop, on the bytes not yet sent: the error that ended it, if any. `none` means that the
  -- rounds ran out.
  pub notify_rounds : ℕ → ℕ → Bytes → W → Option (ℤ × W)
  notify_rounds fuel size [] w = some (pos 0, w)
  notify_rounds zero size (b ∷ bs) w = none
  notify_rounds (suc fuel) size (b ∷ bs) w =
      let n = len_to_send size (length (b ∷ bs)) in
      let (err, w') = peer.notify (take n (b ∷ bs)) w in
      elim err [
        | pos _ ↦ notify_rounds fuel size (drop n (b ∷ bs)) (peer.yields w')
        | negsuc e ↦ elim (e == enomem) [
          | true ↦ notify_rounds fuel size (b ∷ bs) (peer.sleep w')
          | false ↦ some (negsuc e, w')
        ]
      ]

  -- `send_ap_list_work_handler` behind its scan, on the text of the list
  unfoldable pub send_ap_list : ℕ → Bytes → W → Option (ℤ × W)
  unfolding notify_rounds
  send_ap_list fuel ap_list_data w = notify_rounds fuel (chunk_size (peer.mtu w)) ap_list_data w

-- What the Bluetooth stack documents of notifications of at most n bytes: one is queued whole,
-- or refused whole. `wire` is what was notified, and `refusals` bounds how often in a row the
-- stack still finds no buffer: buffers come free while the thread sleeps.
pub record Notifies {W : Type 0} (peer : Peer W) (n : ℕ) (wire : W → Bytes) (refusals : W → ℕ)
    : Type 0 where
  pub queued :
      (value : Bytes) (w w' : W) (k : ℕ)
      → 1 ≤ length value
      → length value ≤ n
      → peer.notify value w ≡ (pos k, w')
      → (wire (peer.yields w') ≡ wire w ++ value) × (refusals (peer.yields w') ≤ refusals w)
  pub no_buffer :
      (value : Bytes) (w w' : W)
      → peer.notify value w ≡ (negsuc enomem, w')
      → (wire (peer.sleep w') ≡ wire w) × (refusals (peer.sleep w') + 1 ≤ refusals w)
  pub failed :
      (value : Bytes) (w w' : W) (e : ℕ) → peer.notify value w ≡ (negsuc e, w') → wire w' ≡ wire w

module _ {W : Type 0} (peer : Peer W) where
  -- What a round does with the report of the stack
  abbrev after : ℕ → ℕ → Bytes → ℤ × W → Option (ℤ × W)
  after fuel size bs (err, w') = elim err [
    | pos _ ↦ notify_rounds peer fuel size (drop (len_to_send size (length bs)) bs) (peer.yields w')
    | negsuc e ↦ elim (e == enomem) [
      | true ↦ notify_rounds peer fuel size bs (peer.sleep w')
      | false ↦ some (negsuc e, w')
    ]
  ]

  notify_rounds_step :
      (fuel size b : ℕ) (bs : Bytes) (w : W)
      → notify_rounds peer (suc fuel) size (b ∷ bs) w
        ≡ after fuel size
            (b ∷ bs)
            (peer.notify (take (len_to_send size (length (b ∷ bs))) (b ∷ bs)) w)
  unfolding notify_rounds
  notify_rounds_step fuel size b bs w = refl

-- A chunk is neither empty nor larger than the stack takes.
chunk_fits :
    (size : ℕ) (bs : Bytes)
    → 1 ≤ size
    → 1 ≤ length bs
    → let n = len_to_send size (length bs) in
      (length (take n bs) ≡ n) × (1 ≤ n) × (n ≤ size) × (n ≤ length bs)
chunk_fits size bs h l = ground (arith, length-take (len_to_send size (length bs)) bs)

module _ {W : Type 0} (peer : Peer W) (size : ℕ) (wire : W → Bytes) (refusals : W → ℕ)
    (h : Notifies peer size wire refusals) where
  Ends : ℕ → Bytes → W → Type 0
  Ends fuel buf w =
      (r : ℤ × W) × (notify_rounds peer fuel size buf w ≡ some r) × Delivered wire buf w r

  Ends-after :
      (fuel b : ℕ) (bs : Bytes) (w : W) (o : ℤ × W)
      → 1 ≤ size
      → length (b ∷ bs) + refusals w ≤ suc fuel
      → peer.notify (take (len_to_send size (length (b ∷ bs))) (b ∷ bs)) w ≡ o
      → ((buf : Bytes) (w' : W) → length buf + refusals w' ≤ fuel → Ends fuel buf w')
      → (r : ℤ × W) × (after peer fuel size (b ∷ bs) o ≡ some r) × Delivered wire (b ∷ bs) w r
  unfolding Ends
  Ends-after fuel b bs w (pos k, w') one f o later =
      let n = len_to_send size (length (b ∷ bs)) in
      let (len, some_byte, small, inside) = chunk_fits size (b ∷ bs) one (omega arith) in
      let (wired, fewer) = h.queued (take n (b ∷ bs)) w w' k (omega arith) (omega arith) o in
      let (r, ran, d) =
        later (drop n (b ∷ bs)) (peer.yields w') (omega (arith, length-drop n (b ∷ bs))) in
      (r, ran, Delivered-more wire (b ∷ bs) n r inside wired d)
  Ends-after fuel b bs w (negsuc e, w') one f o later = elim (Bool-cases (e == enomem)) [
    | inl same ↦
        let full = o ∙ ap {A = ℕ} {B = ℤ × W} (λ m. (negsuc m, w')) ((==_iff e enomem).0 same) in
        let (wired, fewer) =
          h.no_buffer (take (len_to_send size (length (b ∷ bs))) (b ∷ bs)) w w' full in
        let (r, ran, d) = later (b ∷ bs) (peer.sleep w') (omega arith) in
        (
          r,
          rw (same, after) ran,
          Delivered-more wire (b ∷ bs) 0 r (omega arith) (wired ∙ sym (append-nil (wire w))) d,
        )
    | inr other ↦ (
      (negsuc e, w'),
      rw (other, after) refl,
      part e 0 (omega arith) (h.failed _ w w' e o ∙ sym (append-nil (wire w))),
    )
  ]

  notify_rounds-Ends :
      (fuel : ℕ) (buf : Bytes) (w : W) → 1 ≤ size → length buf + refusals w ≤ fuel → Ends fuel buf w
  unfolding Ends
  notify_rounds-Ends fuel [] w one f =
      ((pos 0, w), unfold notify_rounds in refl, all (sym (append-nil (wire w))))
  notify_rounds-Ends zero (b ∷ bs) w one f = absurd (omega arith)
  notify_rounds-Ends (suc fuel) (b ∷ bs) w one f = rw (notify_rounds_step peer fuel size b bs w) (
      Ends-after fuel b bs w (peer.notify (take (len_to_send size (length (b ∷ bs))) (b ∷ bs)) w)
        one f refl (λ buf w' g. notify_rounds-Ends fuel buf w' one g))

usable : (mtu : ℕ) → 3 < mtu → mtu < 2 ^ 16 → chunk_size mtu ≡ mtu - 3
usable mtu l u = omega arith

-- With an MTU above the 3 bytes of overhead, the notifications of a list end, within as many
-- rounds as the list has bytes and the stack is out of buffers: with all the bytes notified in
-- their order and none besides, or with the error of a notification behind a proper first part.
pub send_ap_list-Delivered :
    {W : Type 0} (peer : Peer W) (wire : W → Bytes) (refusals : W → ℕ) (fuel : ℕ) (buf : Bytes)
    (w : W)
    → 3 < peer.mtu w
    → peer.mtu w < 2 ^ 16
    → Notifies peer (peer.mtu w - 3) wire refusals
    → length buf + refusals w ≤ fuel
    → (r : ℤ × W) × (send_ap_list peer fuel buf w ≡ some r) × Delivered wire buf w r
unfolding send_ap_list Ends
send_ap_list-Delivered peer wire refusals fuel buf w l u h f =
    rw (usable (peer.mtu w) l u)
      (notify_rounds-Ends peer (peer.mtu w - 3) wire refusals h fuel buf w (omega arith) f)
