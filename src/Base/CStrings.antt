-- ===== src/Base/CStrings.antt =====
-- Bytes, C strings and fixed buffers. A C string is the list of its bytes without the NUL.
use Prim.Native.Nat.{ℕ, zero, suc, ◌≤◌, ◌<◌}
use Prim.Native.Char.{code}
use Prim.Native.String.{String}
use mathlib.Core.Path.{◌≡◌, refl, ap, ◌∙◌}
use mathlib.Core.Logic.{◌≢◌, ◌↔◌}
use mathlib.Core.Bool.{Bool, true, false, ◌&&◌}
use mathlib.Core.Option.{Option, none, some}
use mathlib.Core.List.{List, [], ◌∷◌, ◌++◌}
use native.Mathlib.Omega.{arith}
use onboarding.Base.Tests.{ltb, ◌==◌, ==-refl, if◌then◌else◌}
use onboarding.Base.Lists.{length, set, take, replicate, length-append, All}

abbrev pub Bytes : Type 0
Bytes = List ℕ

-- The bytes of an ASCII literal.
abbrev pub codes : String → Bytes
codes String.[] = []
codes (String.◌∷◌ c s) = code c ∷ codes s

-- The C string that a buffer holds: its bytes before the first NUL.
abbrev pub c_str : Bytes → Bytes
c_str [] = []
c_str (b ∷ bs) = if b == 0 then [] else b ∷ c_str bs

-- `strncpy` fills the array with NULs, where there is room.
abbrev pub strncpy : ℕ → Bytes → Bytes
strncpy n text = take n (text ++ replicate n 0)

-- What `%s` prints of an array, and `strlen` counts. `none`: the array has no NUL and is read past its end.
abbrev pub printed : Bytes → Option Bytes
printed array = if ltb (length (c_str array)) (length array) then some (c_str array) else none

-- `0 == strncmp(a, b, n)`
abbrev pub strn_eq : ℕ → Bytes → Bytes → Bool
strn_eq zero a b = true
strn_eq (suc n) [] [] = true
strn_eq (suc n) [] (y ∷ b) = false
strn_eq (suc n) (x ∷ a) [] = false
strn_eq (suc n) (x ∷ a) (y ∷ b) = x == y && strn_eq n a b

-- `buf[i] = v`; a write past the end of the buffer is undefined behaviour in C, here `none`.
abbrev pub store : Bytes → ℕ → ℕ → Option Bytes
store buf i v = if ltb i (length buf) then some (set buf i v) else none

-- No NUL byte inside, as in the text of a C string.
abbrev pub IsText : Bytes → Type 0
IsText = All (λ b. b ≢ 0)

-- `strncmp` compares the first n bytes.
pub strn_eq_iff : (n : ℕ) (a b : Bytes) → (strn_eq n a b ≡ true) ↔ (take n a ≡ take n b)
strn_eq_iff zero a b = (λ _. refl, λ _. refl)
strn_eq_iff (suc n) [] [] = (λ _. refl, λ _. refl)
strn_eq_iff (suc n) [] (y ∷ b) = (λ h. cc, λ h. cc)
strn_eq_iff (suc n) (x ∷ a) [] = (λ h. cc, λ h. cc)
strn_eq_iff (suc n) (x ∷ a) (y ∷ b) = ground (arith, strn_eq_iff n a b)

pub strn_eq_refl : (n : ℕ) (a : Bytes) → strn_eq n a a ≡ true
strn_eq_refl n a = (strn_eq_iff n a a).1 refl

pub c_str-append : (p rest : Bytes) → IsText p → c_str (p ++ 0 ∷ rest) ≡ p
c_str-append [] rest h = refl
c_str-append (b ∷ p) rest h = ground (arith, c_str-append p rest h.1)

pub store-in_range : (buf : Bytes) (i v : ℕ) → i < length buf → store buf i v ≡ some (set buf i v)
store-in_range buf i v h = ground arith

pub store_past : (buf : Bytes) (i v : ℕ) → length buf ≤ i → store buf i v ≡ none
store_past buf i v h = ground arith

-- The next write in a buffer that is filled from the front.
pub set-append : (p rest : Bytes) (x v : ℕ) → set (p ++ x ∷ rest) (length p) v ≡ p ++ v ∷ rest
set-append [] rest x v = refl
set-append (b ∷ p) rest x v = ap (◌∷◌ b) (set-append p rest x v)

-- Cutting at n bytes is not seen by a comparison of n bytes.
pub strn_eq-take : (n : ℕ) (a b : Bytes) → strn_eq n (take n a) b ≡ strn_eq n a b
strn_eq-take zero a b = refl
strn_eq-take (suc n) [] [] = refl
strn_eq-take (suc n) [] (y ∷ b) = refl
strn_eq-take (suc n) (x ∷ a) [] = refl
strn_eq-take (suc n) (x ∷ a) (y ∷ b) = rw (strn_eq-take n a b) refl

-- A text begins every text that goes on from it.
pub strn_eq-append : (a more : Bytes) → strn_eq (length a) a (a ++ more) ≡ true
strn_eq-append [] more = refl
strn_eq-append (x ∷ a) more = rw (==-refl x, strn_eq-append a more) refl

-- A text is followed by the C string of what stands behind it.
pub c_str-text : (p rest : Bytes) → IsText p → c_str (p ++ rest) ≡ p ++ c_str rest
c_str-text [] rest h = refl
c_str-text (b ∷ p) rest h = ground (arith, c_str-text p rest h.1)

-- Behind a short text there is a NUL.
padded :
    (n m : ℕ) (text : Bytes)
    → length text < n
    → n ≤ m
    → (rest : Bytes) × (take n (text ++ replicate m 0) ≡ text ++ 0 ∷ rest)
padded zero m text h l = absurd (omega arith)
padded (suc n) zero text h l = absurd (omega arith)
padded (suc n) (suc m) [] h l = (take n (replicate m 0), refl)
padded (suc n) (suc m) (c ∷ text) h l =
    let (rest, e) = padded n (suc m) text (omega arith) (omega arith) in (rest, ap (◌∷◌ c) e)

-- A text that fills the array leaves no room for a NUL.
cut :
    (n m : ℕ) (text : Bytes)
    → n ≤ length text
    → IsText text
    → (c_str (take n (text ++ replicate m 0)) ≡ take n (text ++ replicate m 0))
cut zero m text h t = refl
cut (suc n) m [] h t = absurd (omega arith)
cut (suc n) m (c ∷ text) h t = ground (arith, cut n m text (omega arith) t.1)

printed_text : (text rest : Bytes) → IsText text → printed (text ++ 0 ∷ rest) ≡ some text
printed_text text rest t =
    rw (c_str-append text rest t) (ground (arith, length-append text (0 ∷ rest)))

printed_full : (array : Bytes) → c_str array ≡ array → printed array ≡ none
printed_full array e = rw (e) (ground arith)

-- A text that is shorter than the array is copied whole.
pub printed-strncpy :
    (n : ℕ) (text : Bytes) → length text < n → IsText text → printed (strncpy n text) ≡ some text
printed-strncpy n text h t =
    let (rest, e) = padded n n text h (omega arith) in ap printed e ∙ printed_text text rest t

pub printed-strncpy_long :
    (n : ℕ) (text : Bytes) → n ≤ length text → IsText text → printed (strncpy n text) ≡ none
printed-strncpy_long n text h t = printed_full (strncpy n text) (cut n n text h t)
