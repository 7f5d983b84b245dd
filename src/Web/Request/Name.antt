-- ===== src/Web/Request/Name.antt =====
-- The method and the file name of a request: the part of the loop of `client_conn_handler`
-- (src/ob_web_server.c) that fills `getbuf` and `filename`.
use onboarding.Base.{
  ℕ, ◌+◌, ◌-◌, ◌&&◌, Option, none, some, [], ◌∷◌, Bytes, codes, c_str, strn_eq, store, ltb, ◌==◌,
  if◌then◌else◌, ◌>>=◌, replicate, set,
}

pub data PageType : Type 0 where
  get post unknown : PageType

-- MAX_WEB_PATH_NAME_LEN
abbrev pub max_web_path_name_len : ℕ
max_web_path_name_len = 32

-- The locals of the handler that concern the request line.
pub record Name : Type 0 where
  pub i : ℕ
  pub start_page : ℕ
  pub page_type : PageType
  pub filename : Bytes
  pub getbuf : Bytes

abbrev pub initial : Name
initial = record {
  i = 0;
  start_page = 0;
  page_type = unknown;
  filename = replicate max_web_path_name_len 0;
  getbuf = replicate 6 0;
}

-- `if(i < 5) getbuf[i] = c`
pub keep_method : Name → ℕ → Name
keep_method s c = if ltb s.i 5 then record s { getbuf = set s.getbuf s.i c } else s

-- `filename[i-start_page] = v`, undefined out of the array.
abbrev pub write_name : Name → ℕ → Option Bytes
write_name s v = if ltb s.i s.start_page then none else store s.filename (s.i - s.start_page) v

-- `if(start_page > 0) ...`
pub keep_name : Name → ℕ → Option Name
keep_name s c =
    if ltb 0 s.start_page
    then (if c == b' '
        then (write_name s 0 >>= λ f. some (record s { filename = f; start_page = 0 }))
        else (write_name s c >>= λ f. some (record s { filename = f })))
    else some s

-- `if(i == 4) ...`
pub start_get : Name → ℕ → Option Name
start_get s c =
    if s.i == 4 && strn_eq 4 (codes "GET ") (c_str s.getbuf)
    then (store s.filename 0 c >>= λ f.
        some (record s { page_type = get; start_page = 4; filename = f }))
    else some s

-- `if((!start_page) && (i == 5)) ...`
pub start_post : Name → ℕ → Option Name
start_post s c =
    if s.start_page == 0 && s.i == 5 && strn_eq 4 (codes "POST") (c_str s.getbuf)
    then (store s.filename 0 c >>= λ f.
        some (record s { page_type = post; start_page = 5; filename = f }))
    else some s

-- One byte of the request. `i` is a C int; a head of 2^31 bytes is not considered.
unfoldable pub name_byte : Name → ℕ → Option Name
unfolding keep_method keep_name start_get start_post
name_byte s c =
    (keep_name (keep_method s c) c >>= λ t. start_get t c >>= λ u. start_post u c) >>= λ v.
    some (record v { i = v.i + 1 })

unfoldable pub name_bytes : Name → Bytes → Option Name
name_bytes s [] = some s
name_bytes s (c ∷ cs) = name_byte s c >>= λ t. name_bytes t cs
