-- ===== src/Web/Request/ContentLength.antt =====
-- What the handler of src/ob_web_server.c takes for the Content-Length of a request.
use onboarding.Base.{
  ℕ, ◌+◌, ◌-◌, ◌*◌, ◌<◌, ◌≤◌, ◌≡◌, refl, true, false, some, [], ◌∷◌, ◌++◌, arith, Bytes, ◌>>=◌, All,
  Option-cases, inl, inr, Below-at, Subseq,
}
use onboarding.Web.Request.Length.{Length, initial, int_mod, length_byte, length_bytes}
use onboarding.Web.Request.Search.{length_bytes-quiet, length_bytes-armed, header}

-- The value of a row of decimal digits behind the digits of n.
abbrev pub value_from : ℕ → Bytes → ℕ
value_from n [] = n
value_from n (d ∷ ds) = value_from (n * 10 + (d - b'0')) ds

abbrev pub IsDigit : ℕ → Type 0
IsDigit d = (b'0' ≤ d) × (d ≤ b'9')

value_from-ge : (n : ℕ) (ds : Bytes) → n ≤ value_from n ds
value_from-ge n [] = omega arith
value_from-ge n (d ∷ ds) = omega (arith, value_from-ge (n * 10 + (d - b'0')) ds)

length_byte_digit :
    (n d : ℕ)
    → IsDigit d
    → n * 10 + (d - b'0') < int_mod
    → length_byte (record { do_get_length = true; length = n; ct_index = 0 }) d
      ≡ some (record { do_get_length = true; length = n * 10 + (d - b'0'); ct_index = 0 })
unfolding length_byte
length_byte_digit n d h l = ground arith

length_bytes_digits :
    (ds : Bytes) (n : ℕ)
    → All IsDigit ds
    → value_from n ds < int_mod
    → length_bytes (record { do_get_length = true; length = n; ct_index = 0 }) (ds ++ b'\r' ∷ [])
      ≡ some (record { do_get_length = false; length = value_from n ds; ct_index = 0 })
unfolding length_bytes
length_bytes_digits [] n h l = unfold length_byte in refl
length_bytes_digits (d ∷ ds) n h l =
    rw (length_byte_digit n d h.0 (omega (arith, value_from-ge (n * 10 + (d - b'0')) ds)))
      (length_bytes_digits ds (n * 10 + (d - b'0')) h.1 l)

abbrev FindsHeader : ℕ → ℕ → Type 0
FindsHeader n k =
    length_bytes (record { do_get_length = false; length = n; ct_index = k }) header
    ≡ some (record { do_get_length = true; length = n; ct_index = 0 })

-- Wherever the search stands, the header ends it at its last byte.
length_bytes_header : (n k : ℕ) → k ≤ 15 → FindsHeader n k
unfolding length_bytes length_byte
length_bytes_header n k h =
    Below-at 16 (FindsHeader n) k
      (
        refl,
        (
          refl,
          (
            refl,
            (
              refl,
              (
                refl,
                (
                  refl,
                  (
                    refl,
                    (refl, (refl, (refl, (refl, (refl, (refl, (refl, (refl, (refl, tt))))))))),
                  ),
                ),
              ),
            ),
          ),
        ),
      )
      (omega arith)

pub length_bytes-append :
    (xs ys : Bytes) (s : Length)
    → length_bytes s (xs ++ ys) ≡ (length_bytes s xs >>= λ t. length_bytes t ys)
unfolding length_bytes
length_bytes-append [] ys s = refl
length_bytes-append (x ∷ xs) ys s = elim (Option-cases (length_byte s x)) [
  | inl e ↦ rw e refl
  | inr (t, e) ↦ rw e (length_bytes-append xs ys t)
]

-- The head of a request with a Content-Length header.
abbrev pub with_length : Bytes → Bytes → Bytes → Bytes
with_length pre ds post = pre ++ (header ++ ((ds ++ b'\r' ∷ []) ++ post))

-- The handler reads the value of the Content-Length header, where neither the bytes before it
-- nor those behind its line hold the header's name as a scattered subsequence, and where the
-- value is the digits `ds` with no blank behind them and fits an int.
pub content_length_value :
    (pre ds post : Bytes)
    → ¬ Subseq header pre
    → ¬ Subseq header post
    → All IsDigit ds
    → value_from 0 ds < int_mod
    → (k : ℕ) × (length_bytes initial (with_length pre ds post)
        ≡ some (record { do_get_length = false; length = value_from 0 ds; ct_index = k }))
content_length_value pre ds post before behind digits fits =
    let (k, quiet, within) =
      length_bytes-quiet pre initial (record { idle = refl; within = omega arith }) before in
    let read : Length = record { do_get_length = false; length = value_from 0 ds; ct_index = 0 } in
    let (j, silent, still) =
      length_bytes-quiet post read (record { idle = refl; within = omega arith }) behind in
    (
      j,
      rw (length_bytes-append pre, quiet)
          (rw (length_bytes-append header, length_bytes_header 0 k within)
            (rw (length_bytes-append (ds ++ b'\r' ∷ []), length_bytes_digits ds 0 digits fits)
              silent)),
    )

-- Any bytes that hold the header's name as a scattered subsequence make the handler read a
-- length: at some place in them it starts to take digits, although there may be no header.
pub content_length_scattered :
    (bs : Bytes)
    → Subseq header bs
    → (pre post : Bytes) × (bs ≡ pre ++ post)
      × (length_bytes initial pre ≡ some (record initial { do_get_length = true }))
content_length_scattered bs q =
    length_bytes-armed bs initial (record { idle = refl; within = omega arith }) q
