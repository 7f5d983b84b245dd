-- ===== src/Web/Post/Fields.antt =====
-- The attributes after `ob_ws_process_post` (src/ob_web_server.c) has read a posted form.
use onboarding.Base.{
  ℕ, suc, ◌≤◌, ◌≡◌, ◌≢◌, refl, ap, ◌∙◌, none, some, List, [], ◌∷◌, ◌++◌, map, arith, pos, Bytes,
  strn_eq, length, get_elem?, set, drop, All, IsText, length-append, length-drop, if◌then◌else◌,
  Bool-cases, inl, inr, lt-length,
}
use onboarding.Web.Net.{Recv, byte}
use onboarding.Web.Post.Rounds.{
  Attribute, initial, find_attribute, name_buffer_size, returned, post_rounds, process_post,
}
use onboarding.Web.Post.Form.{
  encode, post_bytes, post_rounds-bytes, at_name, with_buffer, IsNameByte, IsValueByte,
  post_bytes_name, post_bytes_value,
}

-- The value `v` with its NUL at the front of an attribute's buffer.
abbrev pub put : Attribute → Bytes → Attribute
put a v = with_buffer a (v ++ 0 ∷ drop (suc (length v)) a.valuebuffer)

-- The first attribute of the name `n` takes the value `v`; the others stay.
abbrev pub assign : Bytes → Bytes → List Attribute → List Attribute
assign n v [] = []
assign n v (a ∷ attrs) =
    if strn_eq name_buffer_size n a.name then put a v ∷ attrs else a ∷ assign n v attrs

-- The fields of a form, in their order.
abbrev pub assign_all : List (Bytes × Bytes) → List Attribute → List Attribute
assign_all [] attrs = attrs
assign_all ((n, v) ∷ fs) attrs = assign_all fs (assign n v attrs)

-- A field that a form may have: a known name of at most 31 bytes and a value of at most 64.
pub record IsField (attrs : List Attribute) (f : Bytes × Bytes) : Type 0 where
  pub name_bytes : All IsNameByte f.0
  pub name_fits : length f.0 ≤ 31
  pub known : find_attribute f.0 attrs ≢ none
  pub value_bytes : All IsValueByte f.1
  pub value_fits : length f.1 ≤ 64

-- VALUE_BUFFER_SIZE
abbrev pub IsSized : Attribute → Type 0
IsSized a = length a.valuebuffer ≡ 65

find_attribute-assign :
    (m n v : Bytes) (attrs : List Attribute)
    → find_attribute m (assign n v attrs) ≡ find_attribute m attrs
unfolding find_attribute
find_attribute-assign m n v [] = refl
find_attribute-assign m n v (a ∷ attrs) = elim (Bool-cases (strn_eq name_buffer_size n a.name)) [
  | inl e ↦ rw e refl
  | inr e ↦ rw (e, find_attribute-assign m n v attrs) refl
]

pub length-put : (a : Attribute) (v : Bytes) → IsSized a → length v ≤ 64 → IsSized (put a v)
length-put a v s l = omega (
  arith,
  length-append v (0 ∷ drop (suc (length v)) a.valuebuffer),
  length-drop (suc (length v)) a.valuebuffer,
)

IsSized-assign :
    (n v : Bytes) (attrs : List Attribute)
    → length v ≤ 64
    → All IsSized attrs
    → All IsSized (assign n v attrs)
IsSized-assign n v [] l h = tt
IsSized-assign n v (a ∷ attrs) l h = elim (Bool-cases (strn_eq name_buffer_size n a.name)) [
  | inl e ↦ rw e (length-put a v h.0 l, h.1)
  | inr e ↦ rw e (h.0, IsSized-assign n v attrs l h.1)
]

-- The attribute that a name finds.
record Found (n v : Bytes) (attrs : List Attribute) : Type 0 where
  j : ℕ
  a : Attribute
  finds : find_attribute n attrs ≡ some j
  at : get_elem? attrs j ≡ some a
  writes : set attrs j (put a v) ≡ assign n v attrs
  sized : length a.valuebuffer ≡ 65

found :
    (n v : Bytes) (attrs : List Attribute)
    → find_attribute n attrs ≢ none
    → All IsSized attrs
    → Found n v attrs
unfolding find_attribute
found n v [] k h = absurd (k refl)
found n v (a ∷ attrs) k h = elim (Bool-cases (strn_eq name_buffer_size n a.name)) [
  | inl e ↦ record { j = 0; a = a; finds = rw e refl; at = refl; writes = rw e refl; sized = h.0 }
  | inr e ↦
      let f = found n v attrs (λ q. k (rw (e, q) refl)) h.1 in
      record {
        j = suc f.j;
        a = f.a;
        finds = rw (e, f.finds) refl;
        at = f.at;
        writes = rw e (ap (◌∷◌ a) f.writes);
        sized = f.sized;
      }
]

IsField-assign :
    (n v : Bytes) (attrs : List Attribute) (fs : List (Bytes × Bytes))
    → All (IsField attrs) fs
    → All (IsField (assign n v attrs)) fs
IsField-assign n v attrs [] h = tt
IsField-assign n v attrs (f ∷ fs) h = (
  record {
    name_bytes = h.0.name_bytes;
    name_fits = h.0.name_fits;
    known = rw (find_attribute-assign f.0 n v attrs) h.0.known;
    value_bytes = h.0.value_bytes;
    value_fits = h.0.value_fits;
  },
  IsField-assign n v attrs fs h.1,
)

name-IsText : (n : Bytes) → All IsNameByte n → IsText n
name-IsText [] h = tt
name-IsText (c ∷ n) h = (h.0.3, name-IsText n h.1)

-- The state between two fields, after the array `name` and `value_start` have been used.
pub post_bytes_fields :
    (fs : List (Bytes × Bytes)) (attrs : List Attribute) (i start : ℕ) (name : Bytes)
    → length name ≡ 32
    → All IsSized attrs
    → All (IsField attrs) fs
    → (i' start' : ℕ) × (name' : Bytes) × (post_bytes (at_name attrs i start 0 name) (encode fs)
        ≡ some (at_name (assign_all fs attrs) i' start' 0 name'))
post_bytes_fields [] attrs i start name l s h = (i, start, name, refl)
post_bytes_fields ((n, v) ∷ fs) attrs i start name l s h =
    let f = found n v attrs h.0.known s in
    let (name', m, named, size) =
      post_bytes_name n [] name n (v ++ (b'\r' ∷ b'\n' ∷ encode fs)) attrs i start 0 f.j f.a
        (record {
          splits = refl;
          bytes = h.0.name_bytes;
          room = omega (arith, l, h.0.name_fits);
          fits = omega (arith, h.0.name_fits);
        })
        refl (name-IsText n h.0.name_bytes) f.finds f.at in
    let valued =
      post_bytes_value v [] f.a.valuebuffer (encode fs) attrs f.j f.a name' m m h.0.value_bytes
        (omega (arith, f.sized, h.0.value_fits)) (lt-length attrs f.j f.at) (omega arith) in
    let (i', start', name'', rest) =
      post_bytes_fields fs (assign n v attrs) f.j m name' (omega (arith, size, l))
        (IsSized-assign n v attrs h.0.value_fits s) (IsField-assign n v attrs fs h.1) in
    (
      i',
      start',
      name'',
      named ∙ valued ∙ ap (λ t. post_bytes (at_name t f.j m 0 name') (encode fs)) f.writes ∙ rest,
    )

-- A posted text/plain form of known fields, with names of at most 31 bytes and values of at most
-- 64, whose Content-Length is its size: the function returns 0, each field's value stands as a C
-- string in the buffer of its attribute, and what was received behind the form is left alone.
-- The array `name` may hold any bytes at the start.
pub process_post-encode :
    (fs : List (Bytes × Bytes)) (attrs : List Attribute) (stack : Bytes) (rest : List Recv)
    → length stack ≡ 32
    → All IsSized attrs
    → All (IsField attrs) fs
    → process_post stack attrs (length (encode fs)) (map byte (encode fs) ++ rest)
      ≡ returned (pos 0) (assign_all fs attrs) rest
unfolding process_post
process_post-encode fs attrs stack rest l s h =
    let (i, start, name, ran) = post_bytes_fields fs attrs 0 0 stack l s h in
    post_rounds-bytes (encode fs) (initial stack attrs) 0 (length (encode fs)) rest ran
      (omega arith)
    ∙ (unfold post_rounds in refl)
