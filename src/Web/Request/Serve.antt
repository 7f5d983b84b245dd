-- ===== src/Web/Request/Serve.antt =====
-- The answer to a request: `client_conn_handler` of src/ob_web_server.c behind its loop.
use onboarding.Base.{
  ℕ, Bool, false, Option, none, some, List, [], ◌∷◌, ℤ, minus_one, is_neg, Bytes, codes, c_str,
  strn_eq, length, ◌==◌, if◌then◌else◌, ◌>>=◌,
}
use onboarding.Web.Net.{Net, Recv}
use onboarding.Web.Page.{Page, is_home_page, is_captive_portal}
use onboarding.Web.Send.{sendall}
use onboarding.Web.Request.Name.{get, post, unknown}
use onboarding.Web.Request.Head.{Head, initial, left, waiting, fault, read_head}

abbrev pub http1_1_404 : Bytes
http1_1_404 =
    codes
      "HTTP/1.1 404 Not Found\r\nContent-Length=162\r\n\r\n<html><head><title>404 Not Found</title></head>\n<body bgcolor=\"white\"><center><h1>404 Not Found</h1></center><hr><center>nginx/0.8.54</center></body></html>"

abbrev pub http1_1_500 : Bytes
http1_1_500 =
    codes
      "HTTP/1.1 500 Internal Server Error\r\nContent-Length=199\r\n\r\n<html><head><title>500 Internal Server Error</title></head>\n<body bgcolor=\"white\"><center><h1>500 Internal Server Error</h1></center><hr><center>nginx/0.8.54</center></body></html>"

-- `0 == strncmp(wp->pathname, filename, strlen(wp->pathname))`
abbrev pub is_under : {C : Type 0} → Page C → Bytes → Bool
is_under p filename = strn_eq (length p.pathname) p.pathname filename

-- Callbacks of pages: how the server runs a page's callback on a client.
abbrev pub Call : Type 0 → Type 0 → Type 0
Call C W = C → ℕ → Page C → W → ℤ × W

module _ {C : Type 0} where
  -- The first page marked for `/`: the captive portal's in access point mode, the home page else.
  unfoldable pub find_home : Bool → List (Page C) → Option (Page C)
  find_home has_ap [] = none
  find_home has_ap (p ∷ ps) =
      if (if has_ap then is_captive_portal p else is_home_page p)
      then some p
      else find_home has_ap ps

  -- The first page with a GET callback whose path begins the requested one.
  unfoldable pub find_page : Bytes → List (Page C) → Option (Page C)
  find_page filename [] = none
  find_page filename (p ∷ ps) = elim p.get_callback [
    | none ↦ find_page filename ps
    | some _ ↦ if is_under p filename then some p else find_page filename ps
  ]

  -- `wp->content_length = length` on that page.
  unfoldable pub set_content_length : ℕ → Bytes → List (Page C) → List (Page C)
  set_content_length n filename [] = []
  set_content_length n filename (p ∷ ps) = elim p.get_callback [
    | none ↦ p ∷ set_content_length n filename ps
    | some _ ↦
        if is_under p filename
        then record p { content_length = n } ∷ ps
        else p ∷ set_content_length n filename ps
  ]

module _ {W : Type 0} (net : Net W) where
  -- `display_404` and `display_500`; the result of `sendall` is only logged.
  unfoldable pub display_404 : ℕ → W → Option W
  display_404 client w = sendall net client http1_1_404 w >>= λ (_, w'). some w'

  unfoldable pub display_500 : ℕ → W → Option W
  display_500 client w = sendall net client http1_1_500 w >>= λ (_, w'). some w'

pub record Conn (C W : Type 0) : Type 0 where
  pub pages : List (Page C)
  pub sock : ℤ
  pub in_use : Bool
  pub world : W

pub data Handled (C W : Type 0) : Type 0 where
  handled : Conn C W → Handled C W
  waiting_peer undefined : Handled C W

module _ {C W : Type 0} (net : Net W) (call : Call C W) where
  -- A page was found and its callback gave `rc`.
  pub answered : ℕ → ℤ × W → Option W
  answered client (rc, w) = if is_neg rc then display_500 net client w else some w

  -- The page of the loop over paths that was found, or 404.
  pub run_get : ℕ → Option (Page C) → W → Option W
  run_get client none w = display_404 net client w
  run_get client (some p) w = elim p.get_callback [
    | none ↦ display_404 net client w
    | some cb ↦ answered client (call cb client p w)
  ]

  -- The page for `/`. Its `break` leaves the switch, so a negative result of the callback is
  -- not answered.
  pub run_home : ℕ → Option (Page C) → W → Option W
  run_home client none w = display_404 net client w
  run_home client (some p) w = elim p.get_callback [
    | none ↦ display_404 net client w
    | some cb ↦ some (call cb client p w).1
  ]

  -- `case GET`
  unfoldable pub serve_get : Bool → List (Page C) → ℕ → Bytes → W → Option W
  unfolding run_home run_get find_home find_page answered
  serve_get has_ap pages client filename w =
      if length filename == 1
      then run_home client (find_home has_ap pages) w
      else run_get client (find_page filename pages) w

  -- `case POST`. The guard is on the GET callback and the call is of the POST callback: `none`
  -- is the call of a null pointer.
  unfoldable pub serve_post : List (Page C) → ℕ → Bytes → ℕ → W → Option W
  unfolding find_page answered
  serve_post pages client filename n w = elim (find_page filename pages) [
    | none ↦ display_404 net client w
    | some p ↦ elim p.post_callback [
      | none ↦ none
      | some cb ↦ answered client (call cb client (record p { content_length = n }) w)
    ]
  ]

  -- The switch on `page_type`.
  unfoldable pub serve : Bool → List (Page C) → ℕ → Head → W → Option (List (Page C) × W)
  unfolding serve_get serve_post set_content_length
  serve has_ap pages client h w =
      let filename = c_str h.name.filename in
      elim h.name.page_type [
        | get ↦ serve_get has_ap pages client filename w >>= λ w'. some (pages, w')
        | post ↦ serve_post pages client filename h.length.length w >>= λ w'.
            some (set_content_length h.length.length filename pages, w')
        | unknown ↦ some (pages, w)
      ]

  -- What the handler leaves behind: the registered pages, `*sock` (-1), `*in_use` and the world.
  -- `waiting_peer`: it waits for a byte. `undefined`: it writes out of an array, overflows an int
  -- or calls a null pointer, or its `sendall` does not end.
  unfoldable pub client_conn_handler : Bool → List (Page C) → ℕ → List Recv → W → Handled C W
  unfolding read_head serve
  client_conn_handler has_ap pages client reports w = elim (read_head initial reports) [
    | fault ↦ undefined
    | waiting h ↦ waiting_peer
    | left why h rest ↦ elim (serve has_ap pages client h w) [
      | none ↦ undefined
      | some (pages', w') ↦
          handled (record {
            pages = pages';
            sock = minus_one;
            in_use = false;
            world = net.close client w';
          })
    ]
  ]
