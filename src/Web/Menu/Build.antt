-- ===== src/Web/Menu/Build.antt =====
-- `create_menu` and `CreateHeader200` of src/ob_web_server.c. A page's path and title are C
-- strings here, so they are taken to be shorter than their arrays.
use onboarding.Base.{
  ℕ, zero, suc, ◌+◌, ◌/◌, ◌%◌, List, [], ◌∷◌, ◌++◌, Bytes, codes, length, take, ltb, ◌==◌,
  if◌then◌else◌,
}
use onboarding.Web.Page.{Page}

-- WEB_MENU_LEN
abbrev pub web_menu_len : ℕ
web_menu_len = 256

abbrev pub menu_start : Bytes
menu_start =
    codes
      "<div>\n<h1 style=\"text-align:center;background-color:#3EE427;\">Beechwoods</h1>\n</div>\n<div>\n<h3 style=\"background-color:#1E90FF;\">"

abbrev pub menu_end : Bytes
menu_end = codes "</h3>\n</div>\n"

-- MENU_ELEM_START and MENU_ELEM_END
abbrev pub menu_elem_start : Bytes
menu_elem_start = codes "<a href=\""

abbrev pub menu_elem_end : Bytes
menu_elem_end = codes "</a>"

-- A text, NULL, or a write past the end of the static buffer.
pub data Built : Type 0 where
  text : Bytes → Built
  null overflow : Built

-- The texts that `strcat` appends for a page.
abbrev pub menu_elem : {C : Type 0} → Page C → Bytes
menu_elem p =
    codes "&nbsp;"
    ++ (menu_elem_start ++ (p.pathname ++ (codes "\">" ++ (p.title ++ menu_elem_end))))

-- A buffer of n bytes holds the text with its NUL.
abbrev pub held : ℕ → Bytes → Built
held n t = if ltb (length t) n then text t else overflow

module _ {C : Type 0} where
  -- The loop, on the length that the code counts and the menu so far. What `strcat` appends is
  -- looked at once at the end: a text that has once passed the end of the buffer stays past it.
  unfoldable pub menu_loop : ℕ → Bytes → List (Page C) → Built
  menu_loop len menu [] = held web_menu_len (menu ++ menu_end)
  menu_loop len menu (p ∷ ps) =
      let len' = len + 19 + length p.pathname + length p.title in
      let rest = menu_loop len' (menu ++ menu_elem p) ps in
      if ltb web_menu_len len'
      then (if ltb (length menu) web_menu_len then null else overflow)
      else rest

  unfoldable pub create_menu : List (Page C) → Built
  unfolding menu_loop
  create_menu pages = menu_loop (5 + length menu_start) menu_start pages

-- `%d` of a number that is not negative: its decimal digits, with more rounds than it has digits.
unfoldable pub decimal_rounds : ℕ → ℕ → Bytes → Bytes
decimal_rounds zero n ds = ds
decimal_rounds (suc fuel) n ds =
    let d = (b'0' + n % 10) ∷ ds in
    let rest = decimal_rounds fuel (n / 10) d in if n / 10 == 0 then d else rest

unfoldable pub decimal : ℕ → Bytes
unfolding decimal_rounds
decimal n = decimal_rounds (suc n) n []

-- MAX_HEADER_CONTENT_LEN and HEADER200_SIZE
abbrev pub max_header_content_len : ℕ
max_header_content_len = 40

abbrev pub header200_size : ℕ
header200_size = 1024

abbrev pub http1_1_ok : Bytes
http1_1_ok = codes "HTTP/1.1 200 OK\r\n"

abbrev pub content_type : Bytes
content_type = codes "Content-Type: text/html; charset=UTF-8\r\n\r\n"

abbrev pub content_head : Bytes
content_head = codes "<html>\n<head>\n<title>"

abbrev pub content_head_tail : Bytes
content_head_tail = codes "</title>\n</head>\n<body>\n"

-- `contentlen` with the lengths of what the header brings of the body
abbrev pub body_length : ℕ → Bytes → Bytes → ℕ
body_length contentlen title menu =
    contentlen + (length content_head + length title + length content_head_tail + length menu)

-- `itembuf`, which `snprintf` fills with 39 bytes at most
abbrev pub item : ℕ → Bytes
item n = take 39 (codes "Content-Length: " ++ (decimal n ++ codes "\r\n"))

-- The check before the copy, which counts neither the title nor `content_head_tail`.
abbrev pub counted : Bytes → Bytes → ℕ
counted itembuf menu =
    length http1_1_ok
    + length itembuf
    + length content_head
    + suc (length content_type)
    + length menu
    + 1

-- The copy, on a menu that was built.
unfoldable pub fill_header : ℕ → Bytes → Bytes → Built
fill_header contentlen title menu =
    let itembuf = item (body_length contentlen title menu) in
    if ltb (counted itembuf menu) header200_size
    then held header200_size (
        http1_1_ok
        ++ (itembuf ++ (content_type ++ (content_head ++ (title ++ (content_head_tail ++ menu))))))
    else null

unfoldable pub create_header200 : {C : Type 0} → List (Page C) → ℕ → Bytes → Built
unfolding fill_header
create_header200 pages contentlen title = elim (create_menu pages) [
  | text menu ↦ fill_header contentlen title menu
  | null ↦ null
  | overflow ↦ overflow
]
