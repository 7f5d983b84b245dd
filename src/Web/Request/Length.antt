-- ===== src/Web/Request/Length.antt =====
-- The Content-Length header of a request: the part of the loop of `client_conn_handler`
-- (src/ob_web_server.c) that fills `length`.
use onboarding.Base.{
  ℕ, ◌+◌, ◌-◌, ◌*◌, ◌^◌, Bool, true, false, ◌&&◌, Option, none, some, [], ◌∷◌, Bytes, codes, ltb,
  leb, ◌==◌, if◌then◌else◌, ◌>>=◌, get_elem?,
}

-- The format string `content_length`.
abbrev pub content_length : Bytes
content_length = codes "Content-Length: %d\r\n"

-- CONTENT_LENGTH_END
abbrev pub content_length_end : ℕ
content_length_end = 15

-- `int` overflow is undefined behaviour.
abbrev pub int_mod : ℕ
int_mod = 2 ^ 31

-- The locals of the handler that concern the header.
pub record Length : Type 0 where
  pub do_get_length : Bool
  pub length : ℕ
  pub ct_index : ℕ

abbrev pub initial : Length
initial = record { do_get_length = false; length = 0; ct_index = 0 }

-- `length *= 10; length += (c - '0')`
pub add_digit : ℕ → ℕ → Option ℕ
add_digit n c = let m = n * 10 + (c - b'0') in if ltb m int_mod then some m else none

-- `if(doGetLength) ...`
pub read_length : Length → ℕ → Option Length
unfolding add_digit
read_length s c =
    if s.do_get_length
    then (if c == b'\r'
        then some (record s { do_get_length = false })
        else (if leb b'0' c && leb c b'9'
            then (add_digit s.length c >>= λ n. some (record s { length = n }))
            else some s))
    else some s

-- `content_length[ct_index] == c`, undefined out of the array.
abbrev pub expects : ℕ → ℕ → Option Bool
expects k c = get_elem? content_length k >>= λ b. some (b == c)

-- `if( content_length[ct_index] == c) ...`
pub find_header : Length → ℕ → Option Length
find_header s c = expects s.ct_index c >>= λ hit.
    if hit
    then (if s.ct_index == content_length_end
        then some (record s { do_get_length = true; ct_index = 0 })
        else some (record s { ct_index = s.ct_index + 1 }))
    else some s

-- One byte of the request.
unfoldable pub length_byte : Length → ℕ → Option Length
unfolding read_length find_header
length_byte s c = read_length s c >>= λ t. find_header t c

unfoldable pub length_bytes : Length → Bytes → Option Length
length_bytes s [] = some s
length_bytes s (c ∷ cs) = length_byte s c >>= λ t. length_bytes t cs
