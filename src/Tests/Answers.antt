-- ===== src/Tests/Answers.antt =====
-- Concrete answers of src/ob_web_server.c.
use onboarding.Base.{
  ℕ, ◌≡◌, refl, true, false, none, List, [], ◌∷◌, ◌++◌, inl, inr, All, pos, minus_one, arith, Bytes,
  codes,
}
use onboarding.Web.Page.{Page}
use onboarding.Web.Send.{sendall}
use onboarding.Web.Request.Length
use onboarding.Web.Request.Length.{length_bytes, length_byte}
use onboarding.Web.Request.FileName.{get_method}
use onboarding.Web.Request.Serve.{http1_1_404, find_page, handled, client_conn_handler}
use onboarding.Web.Request.Replies.{IsRequest, sent}
use onboarding.Web.Request.Pages.{Begins, Passes, Begins-strn_eq, get_page, unknown_page}
use onboarding.Tests.Fixtures.{test_net, test_call, test_page, line_bytes, path_bytes}

abbrev version : Bytes
version = codes "HTTP/1.1"

abbrev lines : List Bytes
lines = codes "Host: h" ∷ []

is_get : IsRequest get_method (codes "/a.html") version lines 0
unfolding length_bytes length_byte
is_get = record {
  lines = (
    (λ e. cc, line_bytes (codes "GET /a.html HTTP/1.1") refl),
    ((λ e. cc, line_bytes (codes "Host: h") refl), tt),
  );
  path = path_bytes (codes "/a.html") refl;
  ne_nil = λ e. cc;
  fits = omega arith;
  state = Length.initial;
  reads = refl;
  length_is = refl;
}

is_root : IsRequest get_method (codes "/") version lines 0
unfolding length_bytes length_byte
is_root = record {
  lines = (
    (λ e. cc, line_bytes (codes "GET / HTTP/1.1") refl),
    ((λ e. cc, line_bytes (codes "Host: h") refl), tt),
  );
  path = path_bytes (codes "/") refl;
  ne_nil = λ e. cc;
  fits = omega arith;
  state = Length.initial;
  reads = refl;
  length_is = refl;
}

abbrev lines_5 : List Bytes
lines_5 = codes "Content-Length: 5" ∷ []

-- A page of another path, and one of the path itself without a GET callback
abbrev others : List (Page ℕ)
others =
    record test_page { pathname = codes "/b.html" } ∷ record test_page { get_callback = none } ∷ []

other_path : ¬ Begins (codes "/b.html") (codes "/a.html")
other_path b =
    let differ : false ≡ true = Begins-strn_eq (codes "/b.html") (codes "/a.html") b in cc

others_pass : All (Passes (codes "/a.html")) others
others_pass = (inr other_path, (inl refl, tt))

get_page_example :
    client_conn_handler test_net test_call false
      (others ++ test_page ∷ [])
      3
      (sent get_method (codes "/a.html") version lines [])
      []
    ≡ handled (record {
      pages = others ++ test_page ∷ [];
      sock = minus_one;
      in_use = false;
      world = 7 ∷ 3 ∷ [];
    })
get_page_example =
    get_page test_net test_call false 3 others [] test_page (codes "/a.html") version lines 0 [] []
      (7 ∷ 3 ∷ []) is_get (omega arith) others_pass ([], refl) refl refl refl

unknown_page_example :
    (client_conn_handler test_net test_call false others 3
        (sent get_method (codes "/a.html") version lines [])
        []
      ≡ handled (record { pages = others; sock = minus_one; in_use = false; world = http1_1_404 }))
    × ((more : List (Page ℕ))
        → find_page (codes "/a.html") (others ++ more) ≡ find_page (codes "/a.html") more)
unfolding sendall
unknown_page_example =
    unknown_page test_net test_call false 3 others get_method (codes "/a.html") version lines 0 []
      [] http1_1_404 {sent_rc = pos 0} is_get (omega arith) others_pass refl
