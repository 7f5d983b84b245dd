-- ===== src/Web/Menu/Header.antt =====
-- What the header of a page declares: `CreateHeader200` of src/ob_web_server.c.
use Prim.Native.Nat.{◌^◌}
use native.Mathlib.Nat.{pow-suc}
use onboarding.Base.{
  ℕ, zero, suc, ◌+◌, ◌*◌, ◌-◌, ◌/◌, ◌%◌, ◌≤◌, ◌<◌, ◌≡◌, sym, ap, ◌∙◌, true, false, List, [], ◌∷◌,
  ◌++◌, arith, Bytes, codes, length, length-append, ltb, take_of_le, ◌==◌, Bool-cases, inl, inr,
}
use onboarding.Web.Page.{Page}
use onboarding.Web.Request.ContentLength.{value_from}
use onboarding.Web.Menu.Sizes.{held_fits}
use onboarding.Web.Menu.Build.{
  create_menu, text, decimal, decimal_rounds, item, body_length, counted, fill_header,
  create_header200, http1_1_ok, content_type, content_head, content_head_tail, header200_size,
}
use mathlib.Core.List.{append_assoc}

small : (n : ℕ) → n < 10 → (n / 10 == 0) ≡ true
small n h = ground arith

tenth : (n p : ℕ) → n < 10 * p → n / 10 < p
tenth n p h = omega arith

tenth_lt : (n fuel : ℕ) → n < suc fuel → (n / 10 == 0) ≡ false → n / 10 < fuel
tenth_lt n fuel h e = ground arith

last_digit : (n : ℕ) → (n / 10 == 0) ≡ true → 0 + (b'0' + n % 10 - b'0') ≡ n
last_digit n e = ground arith

with_digit : (n : ℕ) → n / 10 * 10 + (b'0' + n % 10 - b'0') ≡ n
with_digit n = omega arith

lt-pow-suc : (n k : ℕ) → n < 10 ^ suc (suc k) → n < 10 * 10 ^ suc k
lt-pow-suc n k h = omega (arith, h, pow-suc 10 (suc k))

length-decimal_rounds :
    (k fuel n : ℕ) (ds : Bytes)
    → n < 10 ^ suc k
    → length (decimal_rounds fuel n ds) ≤ suc k + length ds
unfolding decimal_rounds
length-decimal_rounds k zero n ds h = omega arith
length-decimal_rounds zero (suc fuel) n ds h =
    let last : (n / 10 == 0) ≡ true = small n h in rw last (omega arith)
length-decimal_rounds (suc k) (suc fuel) n ds h = elim (Bool-cases (n / 10 == 0)) [
  | inl e ↦ rw e (omega arith)
  | inr e ↦ rw e (
      omega (
        arith,
        length-decimal_rounds k fuel (n / 10) ((b'0' + n % 10) ∷ ds)
            (tenth n (10 ^ suc k) (lt-pow-suc n k h)),
      ))
]

value_from-decimal_rounds :
    (fuel n : ℕ) (ds : Bytes) → n < fuel → value_from 0 (decimal_rounds fuel n ds) ≡ value_from n ds
unfolding decimal_rounds
value_from-decimal_rounds zero n ds h = absurd (omega arith)
value_from-decimal_rounds (suc fuel) n ds h = elim (Bool-cases (n / 10 == 0)) [
  | inl e ↦ rw e (ap (λ m. value_from m ds) (last_digit n e))
  | inr e ↦ rw e (
      value_from-decimal_rounds fuel (n / 10) ((b'0' + n % 10) ∷ ds) (tenth_lt n fuel h e)
      ∙ ap (λ m. value_from m ds) (with_digit n))
]

-- The digits of a number have its value.
value_from-decimal : (n : ℕ) → value_from 0 (decimal n) ≡ n
unfolding decimal
value_from-decimal n = value_from-decimal_rounds (suc n) n [] (omega arith)

length-decimal : (n : ℕ) → n < 2 ^ 31 → length (decimal n) ≤ 10
unfolding decimal
length-decimal n h = length-decimal_rounds 9 (suc n) n [] (omega arith)

-- `snprintf` does not cut the header of a body whose length is an int.
item_whole : (n : ℕ) → n < 2 ^ 31 → item n ≡ codes "Content-Length: " ++ (decimal n ++ codes "\r\n")
item_whole n h =
    take_of_le 39 (codes "Content-Length: " ++ (decimal n ++ codes "\r\n"))
      (omega (arith, length-decimal n h, length-append (decimal n) (codes "\r\n")))

abbrev pub body : Bytes → Bytes → Bytes
body title menu = content_head ++ (title ++ (content_head_tail ++ menu))

length-body :
    (contentlen : ℕ) (title menu : Bytes)
    → body_length contentlen title menu ≡ contentlen + length (body title menu)
length-body contentlen title menu = omega (arith, length-append title (content_head_tail ++ menu))

-- The head that declares the length n.
abbrev pub declares : ℕ → Bytes
declares n =
    http1_1_ok ++ ((codes "Content-Length: " ++ (decimal n ++ codes "\r\n")) ++ content_type)

header_text :
    (n : ℕ) (title menu : Bytes)
    → n < 2 ^ 31
    → http1_1_ok ++ (item n ++ (content_type ++ body title menu)) ≡ declares n ++ body title menu
header_text n title menu h =
    ap (λ t. http1_1_ok ++ (t ++ (content_type ++ body title menu))) (item_whole n h)
    ∙ ap (λ t. http1_1_ok ++ t)
        (sym (
          append_assoc (codes "Content-Length: " ++ (decimal n ++ codes "\r\n")) content_type
            (body title menu)))

length-item : (n : ℕ) → n < 2 ^ 31 → length (item n) ≤ 28
length-item n h = omega (
  arith,
  ap length (item_whole n h),
  length-decimal n h,
  length-append (decimal n) (codes "\r\n"),
)

below_size : (n : ℕ) → n < header200_size → ltb n header200_size ≡ true
below_size n h = ground arith

fill_header_fits :
    (contentlen : ℕ) (title menu : Bytes)
    → length menu < 256
    → length title ≤ 600
    → body_length contentlen title menu < 2 ^ 31
    → fill_header contentlen title menu
      ≡ text (
          http1_1_ok
          ++ (item (body_length contentlen title menu) ++ (content_type ++ body title menu)))
unfolding fill_header
fill_header_fits contentlen title menu l t b =
    let n : ℕ = body_length contentlen title menu in
    let itembuf : Bytes = item n in
    rw (below_size (counted itembuf menu) (omega (arith, length-item n b))) (
      held_fits header200_size (http1_1_ok ++ (itembuf ++ (content_type ++ body title menu))) (
        omega (
          arith,
          length-item n b,
          length-append itembuf (content_type ++ body title menu),
          length-append title (content_head_tail ++ menu),
        )))

-- With a menu that was built, a title of at most 600 bytes and a body length that is an int, the
-- header is built whole; the Content-Length that it declares is the length of what the page
-- itself sends and of all that follows the head of the answer, and its digits read back as it.
pub header_complete :
    {C : Type 0} (pages : List (Page C)) (contentlen : ℕ) (title menu : Bytes)
    → create_menu pages ≡ text menu
    → length menu < 256
    → length title ≤ 600
    → body_length contentlen title menu < 2 ^ 31
    → (n : ℕ) × (create_header200 pages contentlen title ≡ text (declares n ++ body title menu))
      × (n ≡ contentlen + length (body title menu))
      × (value_from 0 (decimal n) ≡ n)
unfolding create_header200
header_complete pages contentlen title menu m l t b =
    let n : ℕ = body_length contentlen title menu in
    (
      n,
      rw (m, create_header200)
          (fill_header_fits contentlen title menu l t b ∙ ap text (header_text n title menu b)),
      length-body contentlen title menu,
      value_from-decimal n,
    )
