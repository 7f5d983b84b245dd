-- ===== src/Web/Post/Form.antt =====
-- What `ob_ws_process_post` (src/ob_web_server.c) makes of a form that a browser posts.
use onboarding.Base.{
  ℕ, zero, suc, ◌+◌, ◌-◌, ◌<◌, ◌≡◌, ◌≢◌, refl, sym, ap, subst, ◌∙◌, true, false, Option, none, some,
  List, [], ◌∷◌, ◌++◌, map, arith, Bytes, store, length, get_elem?, set, drop, All, IsText,
  length-append, set-append, c_str-append, store-in_range, get_elem?-set_self, set-set, set_same,
}
use onboarding.Web.Net.{Recv, byte}
use onboarding.Web.Post.Rounds.{
  Attribute, Post, find_attribute, store_value, Step, next, bad_name, fault, post_byte, post_rounds,
}
use mathlib.Core.List.{append_assoc, append-nil}

-- The bytes of a form, as text/plain.
abbrev pub encode : List (Bytes × Bytes) → Bytes
encode [] = []
encode ((n, v) ∷ fs) = n ++ (b'=' ∷ (v ++ (b'\r' ∷ b'\n' ∷ encode fs)))

-- Steps over bytes, as long as each is followed by another.
abbrev pub post_bytes : Post → Bytes → Option Post
post_bytes s [] = some s
post_bytes s (c ∷ cs) = elim (post_byte s c) [
  | next s' ↦ post_bytes s' cs
  | bad_name ↦ none
  | fault ↦ none
]

pub step_inv :
    (o : Step) (bs : Bytes) {t : Post}
    → elim o as (λ _. Option Post) [ next s' ↦ post_bytes s' bs | bad_name ↦ none | fault ↦ none ]
      ≡ some t
    → (s' : Post) × (o ≡ next s') × (post_bytes s' bs ≡ some t)
step_inv (next s') bs h = (s', refl, h)
step_inv bad_name bs h = cc
step_inv fault bs h = cc

meet : (n m : ℕ) → m ≡ 0 + n → m ≡ n
meet n m e = omega arith

post_rounds_next :
    (n : ℕ) (s s' : Post) (c : ℕ) (rs : List Recv)
    → post_byte s c ≡ next s'
    → post_rounds (suc n) s (byte c ∷ rs) ≡ post_rounds n s' rs
unfolding post_rounds
post_rounds_next n s s' c rs now = rw (now, post_rounds) refl

pub post_rounds-bytes :
    (bs : Bytes) (s : Post) {t : Post} (n m : ℕ) (rs : List Recv)
    → post_bytes s bs ≡ some t
    → m ≡ length bs + n
    → post_rounds m s (map byte bs ++ rs) ≡ post_rounds n t rs
post_rounds-bytes [] s n m rs h e = cc (meet n m e)
post_rounds-bytes (c ∷ bs) s n zero rs h e = absurd (omega arith)
post_rounds-bytes (c ∷ bs) s n (suc m) rs h e =
    let (s', now, later) = step_inv (post_byte s c) bs h in
    post_rounds_next m s s' c _ now ∙ post_rounds-bytes bs s' n m rs later (omega arith)

-- Between two bytes of a name, and of a value.
abbrev pub at_name : List Attribute → ℕ → ℕ → ℕ → Bytes → Post
at_name ap i start k name = record {
  attributes = ap;
  target = i;
  name = name;
  index = k;
  value_start = start;
  do_name = true;
}

abbrev pub with_buffer : Attribute → Bytes → Attribute
with_buffer a buf = record a { valuebuffer = buf }

abbrev pub at_value : List Attribute → ℕ → Attribute → Bytes → ℕ → ℕ → Bytes → Post
at_value ap i a name start k buf = record {
  attributes = set ap i (with_buffer a buf);
  target = i;
  name = name;
  index = k;
  value_start = start;
  do_name = false;
}

abbrev pub IsNameByte : ℕ → Type 0
IsNameByte c = (c ≢ b'=') × (c ≢ b'\r') × (c ≢ b'\n') × (c ≢ 0)

abbrev pub IsValueByte : ℕ → Type 0
IsValueByte c = (c ≢ b'\r') × (c ≢ b'\n') × (c ≢ 0)

store-append : (r z : Bytes) (y c : ℕ) → store (r ++ y ∷ z) (length r) c ≡ some (r ++ c ∷ z)
store-append r z y c =
    store-in_range _ _ c (omega (arith, length-append r (y ∷ z))) ∙ ap some (set-append r z y c)

post_byte-at_name :
    (ap : List Attribute) (i start k : ℕ) (r z : Bytes) (c y : ℕ)
    → IsNameByte c
    → k ≡ length r
    → length r < 32
    → post_byte (at_name ap i start k (r ++ y ∷ z)) c
      ≡ next (at_name ap i start (k + 1) (r ++ c ∷ z))
unfolding post_byte
post_byte-at_name ap i start k r z c y b e l = ground (arith, store-append r z y c)

store_value-set :
    (ap : List Attribute) (i : ℕ) (a : Attribute) (r z : Bytes) (c y : ℕ)
    → i < length ap
    → store_value (set ap i (with_buffer a (r ++ y ∷ z))) i (length r) c
      ≡ some (set ap i (with_buffer a (r ++ c ∷ z)))
unfolding store_value
store_value-set ap i a r z c y l =
    rw (get_elem?-set_self ap i (with_buffer a (r ++ y ∷ z)) l, store-append r z y c)
      (cc (set-set ap i (with_buffer a (r ++ y ∷ z)) (with_buffer a (r ++ c ∷ z))))

difference : (start k n : ℕ) → k ≡ start + n → k - start ≡ n
difference start k n e = omega arith

post_byte-at_value :
    (ap : List Attribute) (i : ℕ) (a : Attribute) (name : Bytes) (start k : ℕ) (r z : Bytes)
    (c y : ℕ)
    → i < length ap
    → IsValueByte c
    → k ≡ start + length r
    → post_byte (at_value ap i a name start k (r ++ y ∷ z)) c
      ≡ next (at_value ap i a name start (k + 1) (r ++ c ∷ z))
unfolding post_byte
post_byte-at_value ap i a name start k r z c y l b e =
    ground (arith, store_value-set ap i a r z c y l, difference start k (length r) e)

post_byte_end :
    (ap : List Attribute) (i : ℕ) (a : Attribute) (name : Bytes) (start k : ℕ) (r z : Bytes) (y : ℕ)
    → i < length ap
    → k ≡ start + length r
    → post_byte (at_value ap i a name start k (r ++ y ∷ z)) b'\r'
      ≡ next (at_name (set ap i (with_buffer a (r ++ 0 ∷ z))) i start 0 name)
unfolding post_byte
post_byte_end ap i a name start k r z y l e =
    ground (arith, store_value-set ap i a r z 0 y l, difference start k (length r) e)

post_byte_newline :
    (ap : List Attribute) (i start : ℕ) (name : Bytes)
    → post_byte (at_name ap i start 0 name) b'\n' ≡ next (at_name ap i start 0 name)
unfolding post_byte
post_byte_newline ap i start name = refl

post_byte_equals :
    (ap : List Attribute) (i start k j : ℕ) (r z : Bytes) (y : ℕ) (a : Attribute)
    → k ≡ length r
    → IsText r
    → find_attribute r ap ≡ some j
    → get_elem? ap j ≡ some a
    → post_byte (at_name ap i start k (r ++ y ∷ z)) b'='
      ≡ next (at_value ap j a (r ++ 0 ∷ z) (k + 1) (k + 1) a.valuebuffer)
unfolding post_byte
post_byte_equals ap i start k j r z y a e t f g =
    ground (arith, store-append r z y 0, c_str-append r z t, set_same ap j g)

pub post_bytes_step :
    (s s' : Post) (c : ℕ) (cs : Bytes)
    → post_byte s c ≡ next s'
    → post_bytes s (c ∷ cs) ≡ post_bytes s' cs
post_bytes_step s s' c cs h = rw (h, post_bytes) refl

snoc : (full r n : Bytes) (c : ℕ) → full ≡ r ++ c ∷ n → full ≡ (r ++ c ∷ []) ++ n
snoc full r n c e = e ∙ sym (append_assoc r (c ∷ []) n)

length-snoc : (r : Bytes) (c : ℕ) → length (r ++ c ∷ []) ≡ length r + 1
length-snoc r c = omega (arith, length-append r (c ∷ []))

-- What is left to read of the name `full`, of which `r` has been read into an array with the
-- free space `z`.
pub record Rest (full r n z : Bytes) : Type 0 where
  pub splits : full ≡ r ++ n
  pub bytes : All IsNameByte n
  pub room : length n < length z
  pub fits : length full < 32

Rest-next :
    {full r n z : Bytes} {c y : ℕ} → Rest full r (c ∷ n) (y ∷ z) → Rest full (r ++ c ∷ []) n z
Rest-next {full} {r} {n} {z} {c} q = record {
  splits = snoc full r n c q.splits;
  bytes = q.bytes.1;
  room = omega (arith, q.room);
  fits = q.fits;
}

Rest-lt : {full r n z : Bytes} {c : ℕ} → Rest full r (c ∷ n) z → length r < 32
Rest-lt {full} {r} {n} {z} {c} q =
    omega (arith, q.fits, ap length q.splits, length-append r (c ∷ n))

-- A name and its `=`.
pub post_bytes_name :
    (n r z full cs : Bytes) (attrs : List Attribute) (i start k j : ℕ) (a : Attribute)
    → Rest full r n z
    → k ≡ length r
    → IsText full
    → find_attribute full attrs ≡ some j
    → get_elem? attrs j ≡ some a
    → (name : Bytes) × (m : ℕ) × (post_bytes (at_name attrs i start k (r ++ z)) (n ++ (b'=' ∷ cs))
        ≡ post_bytes (at_value attrs j a name m m a.valuebuffer) cs)
      × (length name ≡ length (r ++ z))
post_bytes_name n r [] full cs attrs i start k j a q e t f g = absurd (omega (arith, q.room))
post_bytes_name [] r (y ∷ z) full cs attrs i start k j a q e t f g =
    let same : full ≡ r = q.splits ∙ append-nil r in
    (
      r ++ 0 ∷ z,
      k + 1,
      post_bytes_step _ _ b'=' cs (
          post_byte_equals attrs i start k j r z y a e (subst IsText same t)
            (ap (λ p. find_attribute p attrs) (sym same) ∙ f) g),
      length-append r (0 ∷ z) ∙ sym (length-append r (y ∷ z)),
    )
post_bytes_name (c ∷ n) r (y ∷ z) full cs attrs i start k j a q e t f g =
    let (name, m, ran, size) =
      post_bytes_name n (r ++ c ∷ []) z full cs attrs i start (k + 1) j a (Rest-next q)
        (omega (arith, e, length-snoc r c)) t f g in
    (
      name,
      m,
      post_bytes_step _ _ c _ (post_byte-at_name attrs i start k r z c y q.bytes.0 e (Rest-lt q))
          ∙ ap (λ p. post_bytes (at_name attrs i start (k + 1) p) (n ++ (b'=' ∷ cs)))
              (sym (append_assoc r (c ∷ []) z))
          ∙ ran,
      size
          ∙ ap length (append_assoc r (c ∷ []) z)
          ∙ length-append r (c ∷ z)
          ∙ sym (length-append r (y ∷ z)),
    )

-- A value and its line end.
pub post_bytes_value :
    (v r z cs : Bytes) (attrs : List Attribute) (j : ℕ) (a : Attribute) (name : Bytes) (start k : ℕ)
    → All IsValueByte v
    → length v < length z
    → j < length attrs
    → k ≡ start + length r
    → post_bytes (at_value attrs j a name start k (r ++ z)) (v ++ (b'\r' ∷ b'\n' ∷ cs))
      ≡ post_bytes
          (at_name
            (set attrs j (with_buffer a ((r ++ v) ++ 0 ∷ drop (suc (length v)) z)))
            j
            start
            0
            name)
          cs
post_bytes_value v r [] cs attrs j a name start k b m l e = absurd (omega arith)
post_bytes_value [] r (y ∷ z) cs attrs j a name start k b m l e =
    post_bytes_step _ _ b'\r' (b'\n' ∷ cs) (post_byte_end attrs j a name start k r z y l e)
    ∙ post_bytes_step _ _ b'\n' cs (post_byte_newline _ j start name)
    ∙ ap (λ p. post_bytes (at_name (set attrs j (with_buffer a (p ++ 0 ∷ z))) j start 0 name) cs)
        (sym (append-nil r))
post_bytes_value (c ∷ v) r (y ∷ z) cs attrs j a name start k b m l e =
    post_bytes_step _ _ c _ (post_byte-at_value attrs j a name start k r z c y l b.0 e)
    ∙ ap (λ p. post_bytes (at_value attrs j a name start (k + 1) p) (v ++ (b'\r' ∷ b'\n' ∷ cs)))
        (sym (append_assoc r (c ∷ []) z))
    ∙ post_bytes_value v (r ++ c ∷ []) z cs attrs j a name start (k + 1) b.1 (omega arith) l
        (omega (arith, e, length-snoc r c))
    ∙ ap
        (λ p.
          post_bytes
            (at_name (set attrs j (with_buffer a (p ++ 0 ∷ drop (suc (length v)) z))) j start 0
              name)
            cs)
        (append_assoc r (c ∷ []) v)
