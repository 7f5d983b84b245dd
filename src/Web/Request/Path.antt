-- ===== src/Web/Request/Path.antt =====
-- How the handler of src/ob_web_server.c reads a path into `filename`.
use onboarding.Base.{
  ℕ, ◌+◌, ◌<◌, ◌≤◌, ◌≡◌, ◌≢◌, refl, sym, ap, ◌∙◌, false, none, some, [], ◌∷◌, ◌++◌, arith, Bytes,
  codes, c_str, strn_eq, store, ◌>>=◌, set, length, All, IsText, set-append, c_str-append,
  store-in_range, store_past, length-append, Option-cases, inl, inr,
}
use onboarding.Web.Request.Name.{Name, name_byte, name_bytes}
use mathlib.Core.List.{append_assoc, append-nil}

-- A byte of a file name: neither the blank that ends it nor NUL.
abbrev pub IsPathByte : ℕ → Type 0
IsPathByte c = (c ≢ b' ') × (c ≢ 0)

pub texts : (p : Bytes) → All IsPathByte p → IsText p
texts [] a = tt
texts (x ∷ p) a = (a.0.1, texts p a.1)

-- The state in which the bytes `r` of the file name have been read, and `z` is the free space.
pub record Reading (s : Name) (r z : Bytes) : Type 0 where
  pub starts : 4 ≤ s.start_page
  pub at : s.i ≡ s.start_page + length r
  pub begun : 1 ≤ length r
  pub filled : s.filename ≡ r ++ z
  pub not_post : s.start_page ≡ 4 → strn_eq 4 (codes "POST") (c_str s.getbuf) ≡ false

name_byte-Reading :
    (s : Name) (r z : Bytes) (c : ℕ)
    → Reading s r z
    → c ≢ b' '
    → name_byte s c
      ≡ (store s.filename (length r) c >>= λ f. some (record s { filename = f; i = s.i + 1 }))
unfolding name_byte
name_byte-Reading s r z c h n = ground arith

name_byte-blank :
    (s : Name) (r z : Bytes)
    → Reading s r z
    → name_byte s b' ' ≡ (
        store s.filename (length r) 0 >>= λ f.
        some (record s { filename = f; start_page = 0; i = s.i + 1 }))
unfolding name_byte
name_byte-blank s r z h = ground arith

-- Behind the request line nothing of it changes any more.
name_byte-after :
    (s : Name) (c : ℕ)
    → s.start_page ≡ 0
    → 6 ≤ s.i
    → name_byte s c ≡ some (record s { i = s.i + 1 })
unfolding name_byte
name_byte-after s c h k = ground arith

pub name_bytes-after :
    (s : Name) (cs : Bytes)
    → s.start_page ≡ 0
    → 6 ≤ s.i
    → name_bytes s cs ≡ some (record s { i = s.i + length cs })
unfolding name_bytes
name_bytes-after s [] h k = ground arith
name_bytes-after s (c ∷ cs) h k =
    rw (name_byte-after s c h k)
      (ground (arith, name_bytes-after (record s { i = s.i + 1 }) cs h (omega arith)))

Reading-next :
    (s : Name) (r z : Bytes) (c y : ℕ)
    → Reading s r (y ∷ z)
    → Reading (record s { filename = set s.filename (length r) c; i = s.i + 1 }) (r ++ c ∷ []) z
Reading-next s r z c y h = record {
  starts = h.starts;
  at = omega (arith, h.at, length-append r (c ∷ []));
  begun = omega (arith, length-append r (c ∷ []));
  filled =
      ap (λ f. set f (length r) c) h.filled ∙ set-append r z y c ∙ sym (append_assoc r (c ∷ []) z);
  not_post = h.not_post;
}

-- What is true at the end of a file name `p`.
pub record Named (s : Name) (p : Bytes) (t : Name) : Type 0 where
  pub same_type : t.page_type ≡ s.page_type
  pub name_is : c_str t.filename ≡ p
  pub over : t.start_page ≡ 0
  pub past : 6 ≤ t.i

pub name_bytes-Named :
    (q : Bytes) (s : Name) (r z : Bytes)
    → Reading s r z
    → All IsPathByte q
    → IsText (r ++ q)
    → length q < length z
    → (t : Name) × (name_bytes s (q ++ b' ' ∷ []) ≡ some t) × Named s (r ++ q) t
unfolding name_bytes
name_bytes-Named q s r [] h a x l = absurd (omega arith)
name_bytes-Named [] s r (y ∷ z) h a x l =
    let room : length r < length s.filename =
      omega (arith, ap length h.filled, length-append r (y ∷ z)) in
    (
      record s { filename = set s.filename (length r) 0; start_page = 0; i = s.i + 1 },
      rw (name_byte-blank s r (y ∷ z) h, store-in_range s.filename (length r) 0 room) refl,
      record {
        same_type = refl;
        name_is =
            ap (λ f. c_str (set f (length r) 0)) h.filled
            ∙ ap c_str (set-append r z y 0)
            ∙ c_str-append r z (rw append-nil at x)
            ∙ sym (append-nil r);
        over = refl;
        past = omega (arith, h.at, h.starts, h.begun);
      },
    )
name_bytes-Named (c ∷ q) s r (y ∷ z) h a x l =
    let room : length r < length s.filename =
      omega (arith, ap length h.filled, length-append r (y ∷ z)) in
    let s' : Name = record s { filename = set s.filename (length r) c; i = s.i + 1 } in
    let (t, ran, named) =
      name_bytes-Named q s' (r ++ c ∷ []) z (Reading-next s r z c y h) a.1
        (rw (append_assoc r (c ∷ []) q) x) (omega arith) in
    (
      t,
      rw (name_byte-Reading s r (y ∷ z) c h a.0.0, store-in_range s.filename (length r) c room) ran,
      record {
        same_type = named.same_type;
        name_is = named.name_is ∙ append_assoc r (c ∷ []) q;
        over = named.over;
        past = named.past;
      },
    )

pub name_bytes-overflow :
    (q : Bytes) (s : Name) (r z : Bytes)
    → Reading s r z
    → All IsPathByte q
    → length z ≤ length q
    → name_bytes s (q ++ b' ' ∷ []) ≡ none
unfolding name_bytes
name_bytes-overflow [] s r (y ∷ z) h a l = absurd (omega arith)
name_bytes-overflow [] s r [] h a l =
    rw
      (
        name_byte-blank s r [] h,
        store_past s.filename (length r) 0 (omega (arith, ap length h.filled, length-append r [])),
      )
      refl
name_bytes-overflow (c ∷ q) s r [] h a l =
    rw
      (
        name_byte-Reading s r [] c h a.0.0,
        store_past s.filename (length r) c (omega (arith, ap length h.filled, length-append r [])),
      )
      refl
name_bytes-overflow (c ∷ q) s r (y ∷ z) h a l =
    let room : length r < length s.filename =
      omega (arith, ap length h.filled, length-append r (y ∷ z)) in
    rw (name_byte-Reading s r (y ∷ z) c h a.0.0, store-in_range s.filename (length r) c room)
      (name_bytes-overflow q (record s { filename = set s.filename (length r) c; i = s.i + 1 })
        (r ++ c ∷ []) z (Reading-next s r z c y h) a.1 (omega arith))

pub name_bytes-append :
    (xs ys : Bytes) (s : Name)
    → name_bytes s (xs ++ ys) ≡ (name_bytes s xs >>= λ t. name_bytes t ys)
unfolding name_bytes
name_bytes-append [] ys s = refl
name_bytes-append (x ∷ xs) ys s = elim (Option-cases (name_byte s x)) [
  | inl e ↦ rw e refl
  | inr (t, e) ↦ rw e (name_bytes-append xs ys t)
]
