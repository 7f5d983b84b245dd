-- ===== src/Web/Request/Replies.antt =====
-- What a client of the web server gets: whole requests through `client_conn_handler` of
-- src/ob_web_server.c.
use onboarding.Base.{
  ℕ, ◌≤◌, ◌≡◌, ◌≢◌, refl, ap, ◌∙◌, Bool, false, Option, none, some, List, [], ◌∷◌, ◌++◌, map, ℤ,
  is_neg, minus_one, arith, Bytes, c_str, length, if◌then◌else◌, ◌==◌, All, ◌>>=◌,
}
use onboarding.Web.Net.{Net, Recv, byte}
use onboarding.Web.Page.{Page}
use onboarding.Web.Send.{sendall}
use onboarding.Web.Request.Name
use onboarding.Web.Request.Name.{Name, name_bytes}
use onboarding.Web.Request.FileName.{
  Method, get_method, post_method, type_of, verb, request, request_line,
}
use onboarding.Web.Request.Path.{IsPathByte}
use onboarding.Web.Request.Length
use onboarding.Web.Request.Length.{Length, length_bytes}
use onboarding.Web.Request.Head.{Head, initial, left, end_of_head, read_head}
use onboarding.Web.Request.HeadEnd.{IsLine, head_of, read_head-head_of}
use onboarding.Web.Request.Serve.{
  Call, find_home, find_page, set_content_length, http1_1_404, http1_1_500, Handled, handled,
  undefined, serve_get, serve_post, display_404, display_500, serve, client_conn_handler,
}
use mathlib.Core.List.{append_assoc}

-- The first line of a request.
abbrev pub first_line : Method → Bytes → Bytes → Bytes
first_line m p version = verb m ++ (p ++ b' ' ∷ version)

-- A request of method `m` for the path `p`: lines, a path that fits `filename`, and `n` for the
-- length that the handler reads.
pub record IsRequest (m : Method) (p version : Bytes) (ls : List Bytes) (n : ℕ) : Type 0 where
  pub lines : All IsLine (first_line m p version ∷ ls)
  pub path : All IsPathByte p
  pub ne_nil : p ≢ []
  pub fits : length p ≤ 31
  pub state : Length
  pub reads : length_bytes Length.initial (head_of (first_line m p version ∷ ls)) ≡ some state
  pub length_is : state.length ≡ n

abbrev pub sent : Method → Bytes → Bytes → List Bytes → List Recv → List Recv
sent m p version ls rest = map byte (head_of (first_line m p version ∷ ls)) ++ rest

request_head :
    (m : Method) (p version : Bytes) (ls : List Bytes)
    → head_of (first_line m p version ∷ ls) ≡ request m p (version ++ b'\r' ∷ b'\n' ∷ head_of ls)
request_head m p version ls =
    append_assoc (verb m) (p ++ b' ' ∷ version) _
    ∙ ap (λ t. verb m ++ t) (append_assoc p (b' ' ∷ version) _)

pub record Understood (m : Method) (p : Bytes) (n : ℕ) (h : Head) : Type 0 where
  pub type_is : h.name.page_type ≡ type_of m
  pub file_is : c_str h.name.filename ≡ p
  pub length_is : h.length.length ≡ n

pub understood :
    (m : Method) (p version : Bytes) (ls : List Bytes) (n : ℕ) (rest : List Recv)
    → IsRequest m p version ls n
    → (h : Head) × (read_head initial (sent m p version ls rest) ≡ left end_of_head h rest)
      × Understood m p n h
understood m [] version ls n rest q = absurd (q.ne_nil refl)
understood m (x ∷ p) version ls n rest q =
    let (t, ran, type_is, file_is) =
      request_line m x p (version ++ b'\r' ∷ b'\n' ∷ head_of ls) q.path (omega (arith, q.fits)) in
    let (r, done) =
      read_head-head_of (first_line m (x ∷ p) version) ls rest q.lines
        (ap (name_bytes Name.initial) (request_head m (x ∷ p) version ls) ∙ ran) q.reads in
    (
      record { name = t; length = q.state; req_state = r },
      done,
      record { type_is = type_is; file_is = file_is; length_is = q.length_is },
    )

longer_than_one : (p : Bytes) → 2 ≤ length p → (length p == 1) ≡ false
longer_than_one p h = ground arith

module _ {C W : Type 0} (net : Net W) (call : Call C W) (has_ap : Bool) (pages : List (Page C))
    (client : ℕ) where
  -- How a connection ends: the slot is free again and the socket is closed.
  abbrev pub ended : List (Page C) → W → Handled C W
  ended ps w =
      handled (record { pages = ps; sock = minus_one; in_use = false; world = net.close client w })

  -- The answer to a request of method `m` for `p` with the length `n`.
  served : Method → Bytes → ℕ → W → Option (List (Page C) × W)
  served get_method p n w = serve_get net call has_ap pages client p w >>= λ w'. some (pages, w')
  served post_method p n w =
      serve_post net call pages client p n w >>= λ w'. some (set_content_length n p pages, w')

  -- What a POST callback's result is turned into.
  answer : C → Page C → ℕ → W → Option W
  answer cb page n w =
      let (rc, w') = call cb client (record page { content_length = n }) w in
      if is_neg rc then display_500 net client w' else some w'

  handler_served :
      (rs rest : List Recv) (h : Head) (w : W) {o : Option (List (Page C) × W)}
      → read_head initial rs ≡ left end_of_head h rest
      → serve net call has_ap pages client h w ≡ o
      → client_conn_handler net call has_ap pages client rs w
        ≡ (elim o as (λ _. Handled C W) [ none ↦ undefined | some (ps, w') ↦ ended ps w' ])
  unfolding client_conn_handler
  handler_served rs rest h w r s = rw (r, s, client_conn_handler) refl

  serve_head :
      (h : Head) (w : W) {m : Method} {p : Bytes} {n : ℕ}
      → Understood m p n h
      → serve net call has_ap pages client h w ≡ served m p n w
  unfolding serve served
  serve_head h w {m = get_method} u = rw (u.type_is, u.file_is, serve) refl
  serve_head h w {m = post_method} u = rw (u.type_is, u.file_is, u.length_is, serve) refl

  -- The branches of `serve_post`, with the search for the page shut.
  serve_post_found :
      (p : Bytes) (n : ℕ) (w : W) {page : Page C}
      → find_page p pages ≡ some page
      → serve_post net call pages client p n w ≡ (elim page.post_callback as (λ _. Option W) [
        | none ↦ none
        | some cb ↦ answer cb page n w
      ])
  unfolding serve_post answer
  serve_post_found p n w found = rw (found, serve_post) refl

  -- A request that is understood ends as `served` says.
  request_served :
      (m : Method) (p version : Bytes) (ls : List Bytes) (n : ℕ) (rest : List Recv) (w w' : W)
      {ps : List (Page C)}
      → IsRequest m p version ls n
      → served m p n w ≡ some (ps, w')
      → client_conn_handler net call has_ap pages client (sent m p version ls rest) w ≡ ended ps w'
  request_served m p version ls n rest w w' q s =
      let (h, read, u) = understood m p version ls n rest q in
      handler_served _ rest h w read (serve_head h w u ∙ s)

  -- A GET of a path of 2 to 31 bytes for which the search finds a page runs its GET callback on the
  -- client; a callback that does not fail has the last word, and then the socket is closed and the
  -- slot is free.
  pub get_found :
      (p version : Bytes) (ls : List Bytes) (n : ℕ) (rest : List Recv) (w w' : W) {page : Page C}
      {cb : C} {rc : ℤ}
      → IsRequest get_method p version ls n
      → 2 ≤ length p
      → find_page p pages ≡ some page
      → page.get_callback ≡ some cb
      → call cb client page w ≡ (rc, w')
      → is_neg rc ≡ false
      → client_conn_handler net call has_ap pages client (sent get_method p version ls rest) w
        ≡ ended pages w'
  get_found p version ls n rest w w' q long found has ran good =
      request_served get_method p version ls n rest w w' q (unfold served serve_get in ground arith)

  -- A GET of a path of one byte, such as `/`, runs the GET callback of the first page that is
  -- marked for the mode, and ends the connection whatever the callback returns: unlike for the
  -- other pages, a failure is not answered by a 500 page.
  pub get_home :
      (p version : Bytes) (ls : List Bytes) (n : ℕ) (rest : List Recv) (w w' : W) {page : Page C}
      {cb : C} {rc : ℤ}
      → IsRequest get_method p version ls n
      → length p ≡ 1
      → find_home has_ap pages ≡ some page
      → page.get_callback ≡ some cb
      → call cb client page w ≡ (rc, w')
      → client_conn_handler net call has_ap pages client (sent get_method p version ls rest) w
        ≡ ended pages w'
  get_home p version ls n rest w w' q one found has ran =
      request_served get_method p version ls n rest w w' q (unfold served serve_get in ground arith)

  -- A POST to a path for which the search finds a page runs its POST callback on the client, with
  -- the length of the request in the page. A callback that fails is answered by the 500 page.
  pub post_found :
      (p version : Bytes) (ls : List Bytes) (n : ℕ) (rest : List Recv) (w w' w'' : W)
      {page : Page C} {cb : C} {rc sent_rc : ℤ}
      → IsRequest post_method p version ls n
      → find_page p pages ≡ some page
      → page.post_callback ≡ some cb
      → call cb client (record page { content_length = n }) w ≡ (rc, w')
      → sendall net client http1_1_500 w' ≡ some (sent_rc, w'')
      → client_conn_handler net call has_ap pages client (sent post_method p version ls rest) w
        ≡ ended (set_content_length n p pages) (if is_neg rc then w'' else w')
  post_found p version ls n rest w w' w'' {page} {cb} {rc} q found has ran failed =
      request_served post_method p version ls n rest w _ q (
        unfold served in
        rw (serve_post_found p n w found, has) (unfold answer display_500 in ground arith))

  -- The same where the callback does not fail, whatever a 500 page would meet
  pub post_page_good :
      (p version : Bytes) (ls : List Bytes) (n : ℕ) (rest : List Recv) (w w' : W) {page : Page C}
      {cb : C} {rc : ℤ}
      → IsRequest post_method p version ls n
      → find_page p pages ≡ some page
      → page.post_callback ≡ some cb
      → call cb client (record page { content_length = n }) w ≡ (rc, w')
      → is_neg rc ≡ false
      → client_conn_handler net call has_ap pages client (sent post_method p version ls rest) w
        ≡ ended (set_content_length n p pages) w'
  post_page_good p version ls n rest w w' q found has ran good =
      request_served post_method p version ls n rest w w' q
        (unfold served in rw (serve_post_found p n w found, has) (unfold answer in ground arith))

  -- A request for a path for which the search finds no page is answered by the 404 page, for both
  -- methods.
  pub missing_page :
      (m : Method) (p version : Bytes) (ls : List Bytes) (n : ℕ) (rest : List Recv) (w w' : W)
      {sent_rc : ℤ}
      → IsRequest m p version ls n
      → 2 ≤ length p
      → find_page p pages ≡ none
      → sendall net client http1_1_404 w ≡ some (sent_rc, w')
      → set_content_length n p pages ≡ pages
      → client_conn_handler net call has_ap pages client (sent m p version ls rest) w
        ≡ ended pages w'
  missing_page get_method p version ls n rest w w' q long missing done same =
      let not_root : (length p == 1) ≡ false = longer_than_one p long in
      request_served get_method p version ls n rest w w' q
        (unfold served serve_get display_404 in rw (missing, not_root, done, serve_get) refl)
  missing_page post_method p version ls n rest w w' q long missing done same =
      request_served post_method p version ls n rest w w' q (
        unfold served serve_post display_404 in
        rw (missing, serve_post, done) (ap (λ ps. some (ps, w')) same))

  -- A POST to a page that has a GET callback and no POST callback calls a null pointer.
  pub post_without_callback :
      (p version : Bytes) (ls : List Bytes) (n : ℕ) (rest : List Recv) (w : W) {page : Page C}
      → IsRequest post_method p version ls n
      → find_page p pages ≡ some page
      → page.post_callback ≡ none
      → client_conn_handler net call has_ap pages client (sent post_method p version ls rest) w
        ≡ undefined
  post_without_callback p version ls n rest w q found lacks =
      let (h, read, u) = understood post_method p version ls n rest q in
      handler_served _ rest h w {o = none} read
        (serve_head h w u ∙ (unfold served in rw (serve_post_found p n w found, lacks) refl))
