-- ===== src/Web/Request/FileName.antt =====
-- Which file name the handler of src/ob_web_server.c reads from a request line, and when the
-- array `filename` overflows.
use onboarding.Base.{
  ℕ, ◌+◌, ◌≤◌, ◌≡◌, refl, sym, ap, ◌∙◌, none, some, [], ◌∷◌, ◌++◌, arith, Bytes, codes, c_str,
  ◌>>=◌, replicate, length, All,
}
use onboarding.Web.Request.Name.{PageType, get, post, Name, initial, name_byte, name_bytes}
use mathlib.Core.List.{append_assoc}
use onboarding.Web.Request.Path.{
  texts, Reading, name_bytes-Named, name_bytes-overflow, IsPathByte, name_bytes-after,
  name_bytes-append,
}

-- The two methods that the server knows, with what it reads before the file name.
pub data Method : Type 0 where
  get_method post_method : Method

abbrev pub verb : Method → Bytes
verb get_method = codes "GET "
verb post_method = codes "POST "

abbrev pub type_of : Method → PageType
type_of get_method = get
type_of post_method = post

-- The state after the method and the first byte of the file name.
started :
    (m : Method) (x : ℕ)
    → (s : Name) × (name_bytes initial (verb m ++ x ∷ []) ≡ some s)
      × (s.page_type ≡ type_of m)
      × Reading s (x ∷ []) (replicate 31 0)
unfolding name_bytes name_byte
started get_method x = (
  record {
    i = 5;
    start_page = 4;
    page_type = get;
    filename = x ∷ replicate 31 0;
    getbuf = codes "GET " ++ x ∷ 0 ∷ [];
  },
  refl,
  refl,
  record {
    starts = omega arith;
    at = omega arith;
    begun = omega arith;
    filled = refl;
    not_post = λ _. refl;
  },
)
started post_method x = (
  record {
    i = 6;
    start_page = 5;
    page_type = post;
    filename = x ∷ replicate 31 0;
    getbuf = codes "POST " ++ 0 ∷ [];
  },
  refl,
  refl,
  record {
    starts = omega arith;
    at = omega arith;
    begun = omega arith;
    filled = refl;
    not_post = λ e. absurd (omega arith);
  },
)

-- A request for the path `p`, up to the version.
abbrev pub request : Method → Bytes → Bytes → Bytes
request m p rest = verb m ++ (p ++ b' ' ∷ rest)

request-split :
    (m : Method) (x : ℕ) (q rest : Bytes)
    → request m (x ∷ q) rest ≡ (verb m ++ x ∷ []) ++ ((q ++ b' ' ∷ []) ++ rest)
request-split m x q rest =
    ap (λ t. verb m ++ x ∷ t) (sym (append_assoc q (b' ' ∷ []) rest))
    ∙ sym (append_assoc (verb m) (x ∷ []) ((q ++ b' ' ∷ []) ++ rest))

name_bytes-request :
    (m : Method) (x : ℕ) (q rest : Bytes)
    → name_bytes initial (request m (x ∷ q) rest)
      ≡ (name_bytes (started m x).0 (q ++ b' ' ∷ []) >>= λ t. name_bytes t rest)
name_bytes-request m x q rest =
    let (s, ran, kind, reading) = started m x in
    rw (request-split m x q rest, name_bytes-append (verb m ++ x ∷ []), ran)
      (name_bytes-append (q ++ b' ' ∷ []) rest s)

-- A GET or POST request for a path of 1 to 31 bytes, none of them a blank or NUL, leaves that
-- path as the C string in `filename` and its method in `page_type`, whatever follows the blank
-- that ends the path.
pub request_line :
    (m : Method) (x : ℕ) (q rest : Bytes)
    → All IsPathByte (x ∷ q)
    → length q ≤ 30
    → (t : Name) × (name_bytes initial (request m (x ∷ q) rest) ≡ some t)
      × (t.page_type ≡ type_of m)
      × (c_str t.filename ≡ x ∷ q)
request_line m x q rest a l =
    let (s, ran, kind, reading) = started m x in
    let (t, read, named) =
      name_bytes-Named q s (x ∷ []) (replicate 31 0) reading a.1 (texts (x ∷ q) a) (omega arith) in
    (
      record t { i = t.i + length rest },
      rw (name_bytes-request m x q rest, read) (name_bytes-after t rest named.over named.past),
      named.same_type ∙ kind,
      named.name_is,
    )

-- A path of 32 bytes or more, none of them a blank or NUL, makes the handler write past the end
-- of `filename`.
pub request_line_overflow :
    (m : Method) (x : ℕ) (q rest : Bytes)
    → All IsPathByte (x ∷ q)
    → 31 ≤ length q
    → name_bytes initial (request m (x ∷ q) rest) ≡ none
request_line_overflow m x q rest a l =
    let (s, ran, kind, reading) = started m x in
    rw
      (
        name_bytes-request m x q rest,
        name_bytes-overflow q s (x ∷ []) (replicate 31 0) reading a.1 l,
      )
      refl
