-- ===== src/Web/Request/HeadSearch.antt =====
-- The end of a head as the handler of src/ob_web_server.c looks for it, byte by byte, against
-- the search for CR LF CR LF in the whole text.
use onboarding.Base.{
  ℕ, ◌≡◌, ◌≢◌, refl, ap, ◌∙◌, Bool, true, false, ◌&&◌, Option, none, some, [], ◌∷◌, ◌++◌, map,
  arith, Bytes, drop, All, Bool-cases, inl, inr, ◌==◌, if◌then◌else◌, >>=-eq-some,
}
use onboarding.Web.Net.{byte}
use onboarding.Web.Request.Name
use onboarding.Web.Request.Length
use onboarding.Web.Request.Name.{Name, name_byte, name_bytes}
use onboarding.Web.Request.Length.{Length, length_byte, length_bytes}
use onboarding.Web.Request.Head.{
  Head, Received, initial, is_end, next_state, end_of_head, left, waiting, read_head,
}

abbrev pub is_prefix : Bytes → Bytes → Bool
is_prefix [] bs = true
is_prefix (x ∷ p) [] = false
is_prefix (x ∷ p) (b ∷ bs) = x == b && is_prefix p bs

abbrev pub end_mark : Bytes
end_mark = b'\r' ∷ b'\n' ∷ b'\r' ∷ b'\n' ∷ []

-- What stands behind the first CR LF CR LF
abbrev pub behind_mark : Bytes → Option Bytes
behind_mark [] = none
behind_mark (c ∷ bs) = if is_prefix end_mark (c ∷ bs) then some (drop 3 bs) else behind_mark bs

-- No CR stands behind a CR.
abbrev pub NoDoubleCr : Bytes → Type 0
NoDoubleCr [] = Unit
NoDoubleCr (c ∷ []) = Unit
NoDoubleCr (c ∷ d ∷ bs) = ((c == b'\r' && d == b'\r') ≡ false) × NoDoubleCr (d ∷ bs)

-- What stands behind the byte at which the ladder on `req_state` sees the end
run : ℕ → Bytes → Option Bytes
run r [] = none
run r (c ∷ bs) = if is_end r c then some bs else run (next_state r c) bs

NoDoubleCr-tail : (c : ℕ) (bs : Bytes) → NoDoubleCr (c ∷ bs) → NoDoubleCr bs
NoDoubleCr-tail c [] h = tt
NoDoubleCr-tail c (d ∷ bs) h = h.1

run-matched :
    (bs : Bytes)
    → (NoDoubleCr bs → run 0 bs ≡ behind_mark bs)
      × (NoDoubleCr (b'\r' ∷ bs) → run 1 bs ≡ behind_mark (b'\r' ∷ bs))
      × (NoDoubleCr bs → run 2 bs ≡ behind_mark (b'\r' ∷ b'\n' ∷ bs))
      × (NoDoubleCr (b'\r' ∷ bs) → run 3 bs ≡ behind_mark (b'\r' ∷ b'\n' ∷ b'\r' ∷ bs))
unfolding run
run-matched [] = (λ _. refl, λ _. refl, λ _. refl, λ _. refl)
run-matched (c ∷ bs) =
    let (zero_, one, two, three) = run-matched bs in
    let tail = NoDoubleCr-tail c bs in
    (
      λ h. ground (arith, zero_ (tail h), one),
      λ h. ground (arith, zero_ (tail h.1), two (tail h.1)),
      λ h. ground (arith, zero_ (tail h), three),
      λ h. ground (arith, zero_ (tail h.1)),
    )

-- What the loop reports: it was left behind the mark, or it waits for more.
abbrev pub answer : Head → Option Bytes → Received
answer h none = waiting h
answer h (some rest) = left end_of_head h (map byte rest)

read_head-run :
    (bs : Bytes) (h : Head) {n : Name} {l : Length}
    → name_bytes h.name bs ≡ some n
    → length_bytes h.length bs ≡ some l
    → (h' : Head) × (read_head h (map byte bs) ≡ answer h' (run h.req_state bs))
unfolding read_head name_bytes length_bytes run
read_head-run [] h nb lb = (h, refl)
read_head-run (c ∷ bs) h nb lb =
    let (n', ne, n_eq) = >>=-eq-some (name_byte h.name c) _ nb in
    let (l', le, l_eq) = >>=-eq-some (length_byte h.length c) _ lb in
    let t : Head = record { name = n'; length = l'; req_state = next_state h.req_state c } in
    elim (Bool-cases (is_end h.req_state c)) [
      | inl e ↦ (t, rw (ne, le, e, read_head) refl)
      | inr e ↦
          let (h', rest) = read_head-run bs t n_eq l_eq in (h', rw (ne, le, e, read_head) rest)
    ]

-- On any bytes in which no CR stands behind a CR, and over which neither the file name nor the
-- Content-Length overflows, the loop is left exactly behind the first CR LF CR LF, and waits
-- for more where there is none.
pub read_head-behind_mark :
    (bs : Bytes) {n : Name} {l : Length}
    → NoDoubleCr bs
    → name_bytes Name.initial bs ≡ some n
    → length_bytes Length.initial bs ≡ some l
    → (h : Head) × (read_head initial (map byte bs) ≡ answer h (behind_mark bs))
read_head-behind_mark bs single nb lb =
    let (h, ran) = read_head-run bs initial nb lb in
    (h, ran ∙ ap (answer h) ((run-matched bs).0 single))

-- With a second CR before it the mark is not seen.
double_cr : (bs : Bytes) → All (λ c. c ≢ b'\r') bs → run 0 (bs ++ b'\r' ∷ end_mark) ≡ none
unfolding run
double_cr [] h = refl
double_cr (c ∷ bs) h = ground (arith, double_cr bs h.1, h.0)
