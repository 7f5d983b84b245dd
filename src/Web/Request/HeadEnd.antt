-- ===== src/Web/Request/HeadEnd.antt =====
-- Where the handler of src/ob_web_server.c takes the head of a request to end.
use onboarding.Base.{
  ℕ, ◌≡◌, ◌≢◌, refl, ap, true, false, some, List, [], ◌∷◌, ◌++◌, map, arith, Bytes, All,
  >>=-eq-some,
}
use onboarding.Web.Net.{Recv, byte}
use onboarding.Web.Request.Name
use onboarding.Web.Request.Length
use onboarding.Web.Request.Name.{Name, name_byte, name_bytes}
use onboarding.Web.Request.Length.{Length, length_byte, length_bytes}
use onboarding.Web.Request.Head.{Head, initial, is_end, next_state, end_of_head, left, read_head}

abbrev pub crlf : Bytes
crlf = b'\r' ∷ b'\n' ∷ []

-- A line of a head: not empty, with no CR or LF inside.
abbrev pub IsLine : Bytes → Type 0
IsLine l = (l ≢ []) × All (λ c. (c ≢ b'\r') × (c ≢ b'\n')) l

-- The lines of a head, each with its CR LF, and the empty line.
abbrev pub head_of : List Bytes → Bytes
head_of [] = crlf
head_of (l ∷ ls) = l ++ (b'\r' ∷ b'\n' ∷ head_of ls)

-- From the state `r` the end is seen at the last byte and not before.
data EndsAt : ℕ → Bytes → Type 0 where
  last : {r c : ℕ} → is_end r c ≡ true → EndsAt r (c ∷ [])
  more :
      {r c : ℕ} {bs : Bytes} → is_end r c ≡ false → EndsAt (next_state r c) bs → EndsAt r (c ∷ bs)

read_head-EndsAt :
    {r : ℕ} {bs : Bytes} (h : Head) {n : Name} {l : Length} (rest : List Recv)
    → EndsAt r bs
    → h.req_state ≡ r
    → name_bytes h.name bs ≡ some n
    → length_bytes h.length bs ≡ some l
    → (k : ℕ) × (read_head h (map byte bs ++ rest)
        ≡ left end_of_head (record { name = n; length = l; req_state = k }) rest)
unfolding read_head name_bytes length_bytes
read_head-EndsAt {r} h rest (last {c} e) s nb lb =
    let (n', ne, n_eq) = >>=-eq-some (name_byte h.name c) _ nb in
    let (l', le, l_eq) = >>=-eq-some (length_byte h.length c) _ lb in
    (next_state h.req_state c, rw (ne, le, s, e, read_head) (ground (arith, n_eq, l_eq)))
read_head-EndsAt {r} h rest (more {c} {bs} e t) s nb lb =
    let (n', ne, n_eq) = >>=-eq-some (name_byte h.name c) _ nb in
    let (l', le, l_eq) = >>=-eq-some (length_byte h.length c) _ lb in
    let going : is_end h.req_state c ≡ false = rw s e in
    rw (ne, le, going, read_head)
      (read_head-EndsAt (record { name = n'; length = l'; req_state = next_state h.req_state c })
        rest t (ap (λ k. next_state k c) s) n_eq l_eq)

next_state_plain : (r c : ℕ) → c ≢ b'\r' → c ≢ b'\n' → (next_state r c ≡ 0) × (is_end r c ≡ false)
next_state_plain r c p q = ground arith

EndsAt-line :
    (l : Bytes) (bs : Bytes)
    → All (λ c. (c ≢ b'\r') × (c ≢ b'\n')) l
    → EndsAt 0 bs
    → EndsAt 0 (l ++ bs)
EndsAt-line [] bs a t = t
EndsAt-line (c ∷ l) bs a t =
    let (z, e) = next_state_plain 0 c a.0.0 a.0.1 in more e (rw z (EndsAt-line l bs a.1 t))

-- The end of the head at the beginning of a line.
EndsAt-head_of : (ls : List Bytes) → All IsLine ls → EndsAt 2 (head_of ls)
EndsAt-head_of [] a = more refl (last refl)
EndsAt-head_of ([] ∷ ls) a = absurd (a.0.0 refl)
EndsAt-head_of ((c ∷ l) ∷ ls) a =
    let (z, e) = next_state_plain 2 c a.0.1.0.0 a.0.1.0.1 in
    more e (rw z (EndsAt-line l _ a.0.1.1 (more refl (more refl (EndsAt-head_of ls a.1)))))

-- A head of lines is read to its end and no further, whatever has been received behind it.
pub read_head-head_of :
    (l : Bytes) (ls : List Bytes) (rest : List Recv) {n : Name} {k : Length}
    → All IsLine (l ∷ ls)
    → name_bytes Name.initial (head_of (l ∷ ls)) ≡ some n
    → length_bytes Length.initial (head_of (l ∷ ls)) ≡ some k
    → (r : ℕ) × (read_head initial (map byte (head_of (l ∷ ls)) ++ rest)
        ≡ left end_of_head (record { name = n; length = k; req_state = r }) rest)
read_head-head_of l ls rest a n k =
    read_head-EndsAt initial rest
      (EndsAt-line l _ a.0.1 (more refl (more refl (EndsAt-head_of ls a.1)))) refl n k
