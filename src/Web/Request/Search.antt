-- ===== src/Web/Request/Search.antt =====
-- The search for the name of the Content-Length header in src/ob_web_server.c.
use onboarding.Base.{
  ℕ, suc, ◌+◌, ◌<◌, ◌≤◌, ◌≡◌, ◌≢◌, refl, sym, ap, subst, true, false, some, [], ◌∷◌, ◌++◌, arith,
  Bytes, codes, ◌==◌, ==_iff, get_elem?, drop, inl, inr, Bool-cases, dec_lt, Below, Below-at,
  Subseq, nil, keep, skip, Subseq-ne, not-Subseq-nil, Subseq-tails,
}
use onboarding.Web.Request.Length.{Length, content_length, length_byte, length_bytes}

-- The name of the header with the blank behind its colon.
abbrev pub header : Bytes
header = codes "Content-Length: "

record Expected (k : ℕ) : Type 0 where
  byte : ℕ
  at : get_elem? content_length k ≡ some byte
  rest : drop k header ≡ byte ∷ drop (suc k) header

expected : (k : ℕ) → k ≤ 15 → Expected k
expected k h = Below-at 16 Expected k table (omega arith)
  where
    at :
        (k b : ℕ)
        → get_elem? content_length k ≡ some b
        → drop k header ≡ b ∷ drop (suc k) header
        → Expected k
    at k b p q = record { byte = b; at = p; rest = q }

    table : Below 16 Expected
    table = (
      at 15 b' ' refl refl,
      (
        at 14 b':' refl refl,
        (
          at 13 b'h' refl refl,
          (
            at 12 b't' refl refl,
            (
              at 11 b'g' refl refl,
              (
                at 10 b'n' refl refl,
                (
                  at 9 b'e' refl refl,
                  (
                    at 8 b'L' refl refl,
                    (
                      at 7 b'-' refl refl,
                      (
                        at 6 b't' refl refl,
                        (
                          at 5 b'n' refl refl,
                          (
                            at 4 b'e' refl refl,
                            (
                              at 3 b't' refl refl,
                              (
                                at 2 b'n' refl refl,
                                (at 1 b'o' refl refl, (at 0 b'C' refl refl, tt)),
                              ),
                            ),
                          ),
                        ),
                      ),
                    ),
                  ),
                ),
              ),
            ),
          ),
        ),
      ),
    )

-- The search for the header has not ended, and no digit is being read.
pub record Searching (s : Length) : Type 0 where
  pub idle : s.do_get_length ≡ false
  pub within : s.ct_index ≤ 15

-- One byte of the search.
length_byte-miss :
    (s : Length) (c b : ℕ)
    → Searching s
    → get_elem? content_length s.ct_index ≡ some b
    → (b == c) ≡ false
    → length_byte s c ≡ some s
unfolding length_byte
length_byte-miss s c b h e n = ground arith

length_byte-hit :
    (s : Length) (c b : ℕ)
    → Searching s
    → get_elem? content_length s.ct_index ≡ some b
    → (b == c) ≡ true
    → s.ct_index < 15
    → length_byte s c ≡ some (record s { ct_index = s.ct_index + 1 })
unfolding length_byte
length_byte-hit s c b h e n l = ground arith

length_byte-last :
    (s : Length) (c b : ℕ)
    → Searching s
    → get_elem? content_length s.ct_index ≡ some b
    → (b == c) ≡ true
    → s.ct_index ≡ 15
    → length_byte s c ≡ some (record s { do_get_length = true; ct_index = 0 })
unfolding length_byte
length_byte-last s c b h e n l = ground arith

Subseq-hit :
    (k : ℕ) (h : k ≤ 15) (c : ℕ) (bs : Bytes)
    → ((expected k h).byte == c) ≡ true
    → Subseq (drop (suc k) header) bs
    → Subseq (drop k header) (c ∷ bs)
Subseq-hit k h c bs hit q =
    let e = expected k h in
    let same : e.byte ≡ c = (==_iff e.byte c).0 hit in rw (e.rest, same) (keep q)

Subseq-miss :
    (k : ℕ) (h : k ≤ 15) (c : ℕ) (bs : Bytes)
    → ((expected k h).byte == c) ≡ false
    → Subseq (drop k header) (c ∷ bs)
    → Subseq (drop k header) bs
Subseq-miss k h c bs miss q =
    let e = expected k h in
    let other : e.byte ≢ c = ground (arith, ==_iff e.byte c) in
    rw e.rest (Subseq-ne (subst (λ t. Subseq t (c ∷ bs)) e.rest q) other)

Subseq-advance :
    (k : ℕ) (h : k ≤ 15) (c : ℕ) (bs : Bytes)
    → Subseq (drop k header) (c ∷ bs)
    → Subseq (drop (suc k) header) bs
Subseq-advance k h c bs q = Subseq-tails (subst (λ t. Subseq t (c ∷ bs)) (expected k h).rest q)

drop_past : (k : ℕ) → k ≡ 15 → drop (suc k) header ≡ []
drop_past k e = rw e refl

add_suc_one : (k : ℕ) → k + 1 ≡ suc k
add_suc_one k = omega arith

-- Where the header is no scattered subsequence of the bytes read, no digit is read.
pub length_bytes-quiet :
    (bs : Bytes) (s : Length)
    → Searching s
    → ¬ Subseq (drop s.ct_index header) bs
    → (k : ℕ) × (length_bytes s bs ≡ some (record s { ct_index = k })) × (k ≤ 15)
unfolding length_bytes
length_bytes-quiet [] s h n = (s.ct_index, refl, h.within)
length_bytes-quiet (c ∷ bs) s h n =
    let e = expected s.ct_index h.within in
    elim (Bool-cases (e.byte == c)) [
      | inr miss ↦
          rw (length_byte-miss s c e.byte h e.at miss) (length_bytes-quiet bs s h (λ q. n (skip q)))
      | inl hit ↦ elim (dec_lt s.ct_index 15) [
        | yes l ↦ rw (length_byte-hit s c e.byte h e.at hit l) (
            length_bytes-quiet bs (record s { ct_index = s.ct_index + 1 })
              (record { idle = h.idle; within = omega arith })
              (λ q. n (
                Subseq-hit s.ct_index h.within c bs hit
                  (subst (λ m. Subseq (drop m header) bs) (add_suc_one s.ct_index) q))))
        | no l ↦ absurd (
            n (
              Subseq-hit s.ct_index h.within c bs hit
                (rw (drop_past s.ct_index (omega (arith, h.within))) nil)))
      ]
    ]

not_below : (s : Length) → Searching s → ¬ (s.ct_index < 15) → s.ct_index ≡ 15
not_below s h l = omega (arith, h.within)

-- Where the header is a scattered subsequence, some prefix makes the handler read digits.
pub length_bytes-armed :
    (bs : Bytes) (s : Length)
    → Searching s
    → Subseq (drop s.ct_index header) bs
    → (pre post : Bytes) × (bs ≡ pre ++ post)
      × (length_bytes s pre ≡ some (record s { do_get_length = true; ct_index = 0 }))
unfolding length_bytes
length_bytes-armed [] s h q =
    absurd (not-Subseq-nil (subst (λ t. Subseq t []) (expected s.ct_index h.within).rest q))
length_bytes-armed (c ∷ bs) s h q =
    let e = expected s.ct_index h.within in
    elim (Bool-cases (e.byte == c)) [
      | inr miss ↦
          let (pre, post, split, ran) =
            length_bytes-armed bs s h (Subseq-miss s.ct_index h.within c bs miss q) in
          (c ∷ pre, post, ap (◌∷◌ c) split, rw (length_byte-miss s c e.byte h e.at miss) ran)
      | inl hit ↦ elim (dec_lt s.ct_index 15) [
        | yes l ↦
            let (pre, post, split, ran) =
              length_bytes-armed bs (record s { ct_index = s.ct_index + 1 })
                (record { idle = h.idle; within = omega arith })
                (subst (λ m. Subseq (drop m header) bs) (sym (add_suc_one s.ct_index))
                  (Subseq-advance s.ct_index h.within c bs q)) in
            (c ∷ pre, post, ap (◌∷◌ c) split, rw (length_byte-hit s c e.byte h e.at hit l) ran)
        | no l ↦
            (c ∷ [], bs, refl, rw (length_byte-last s c e.byte h e.at hit (not_below s h l)) refl)
      ]
    ]
