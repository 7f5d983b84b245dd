-- ===== src/Web/Request/Pages.antt =====
-- Which page of src/ob_web_server.c a request is for: whole requests through
-- `client_conn_handler`, on the registered pages in their order.
use onboarding.Base.{
  ℕ, ◌≤◌, ◌≡◌, refl, ◌∙◌, ◌⊎◌, inl, inr, Bool, true, false, none, some, List, [], ◌∷◌, ◌++◌, ℤ,
  is_neg, arith, Bytes, length, strn_eq, strn_eq-append, All, Bool-cases,
}
use onboarding.Web.Net.{Net, Recv}
use onboarding.Web.Page.{Page}
use onboarding.Web.Send.{sendall}
use onboarding.Web.Request.FileName.{Method, get_method}
use onboarding.Web.Request.Serve.{
  Call, find_page, set_content_length, http1_1_404, client_conn_handler,
}
use onboarding.Web.Request.Replies.{IsRequest, sent, ended, get_found, missing_page}

-- A path goes on from the path of a page.
abbrev pub Begins : Bytes → Bytes → Type 0
Begins path p = (more : Bytes) × (p ≡ path ++ more)

-- A page that does not answer to the path: without a GET callback, or of another path.
abbrev pub Passes : {C : Type 0} → Bytes → Page C → Type 0
Passes p page = (page.get_callback ≡ none) ⊎ (¬ Begins page.pathname p)

strn_eq-Begins : (path p : Bytes) → strn_eq (length path) path p ≡ true → Begins path p
strn_eq-Begins [] p h = (p, refl)
strn_eq-Begins (x ∷ path) [] h = cc
strn_eq-Begins (x ∷ path) (y ∷ p) h =
    let same : (x ≡ y) × (strn_eq (length path) path p ≡ true) = ground arith in
    let (more, e) = strn_eq-Begins path p same.1 in (more, cc)

not-Begins : (path p : Bytes) → ¬ Begins path p → strn_eq (length path) path p ≡ false
not-Begins path p h = elim (Bool-cases (strn_eq (length path) path p)) [
  | inl e ↦ absurd (h (strn_eq-Begins path p e))
  | inr e ↦ e
]

pub Begins-strn_eq : (path p : Bytes) → Begins path p → strn_eq (length path) path p ≡ true
Begins-strn_eq path p (more, e) = rw e (strn_eq-append path more)

module _ {C : Type 0} (p : Bytes) where
  find_page_first :
      (page : Page C) (after : List (Page C)) {cb : C}
      → Begins page.pathname p
      → page.get_callback ≡ some cb
      → find_page p (page ∷ after) ≡ some page
  unfolding find_page
  find_page_first page after b has = ground (arith, Begins-strn_eq page.pathname p b)

  -- The pages that pass are searched through.
  find_page-append :
      (before rest : List (Page C))
      → All (Passes p) before
      → find_page p (before ++ rest) ≡ find_page p rest
  unfolding find_page
  find_page-append [] rest h = refl
  find_page-append (q ∷ before) rest h = elim h.0 [
    | inl lacks ↦ ground (arith, find_page-append before rest h.1)
    | inr other ↦ ground (arith, find_page-append before rest h.1, not-Begins q.pathname p other)
  ]

  -- The search over pages that all pass
  find_page-nil : (pages : List (Page C)) → All (Passes p) pages → find_page p pages ≡ none
  unfolding find_page
  find_page-nil [] h = refl
  find_page-nil (q ∷ pages) h = elim h.0 [
    | inl lacks ↦ ground (arith, find_page-nil pages h.1)
    | inr other ↦ ground (arith, find_page-nil pages h.1, not-Begins q.pathname p other)
  ]

  set_content_length-nil :
      (n : ℕ) (pages : List (Page C)) → All (Passes p) pages → set_content_length n p pages ≡ pages
  unfolding set_content_length
  set_content_length-nil n [] h = refl
  set_content_length-nil n (q ∷ pages) h = elim h.0 [
    | inl lacks ↦ ground (arith, set_content_length-nil n pages h.1)
    | inr other ↦ ground (arith, set_content_length-nil n pages h.1, not-Begins q.pathname p other)
  ]

module _ {C W : Type 0} (net : Net W) (call : Call C W) (has_ap : Bool) (client : ℕ) where
  -- The page that a path of a GET or POST request is for
  module _ (before after : List (Page C)) (page : Page C) (p version : Bytes) (ls : List Bytes)
      (n : ℕ) (rest : List Recv) where
    -- A GET of a path of 2 to 31 bytes that goes on from the path of a registered page with a GET
    -- callback, where each page before it has no GET callback or a path that does not begin the
    -- requested one: the callback of that page runs on the client. If it does not fail, nothing
    -- else is answered, the pages stay as they are, the socket is closed and the slot is free.
    pub get_page :
        (w w' : W) {cb : C} {rc : ℤ}
        → IsRequest get_method p version ls n
        → 2 ≤ length p
        → All (Passes p) before
        → Begins page.pathname p
        → page.get_callback ≡ some cb
        → call cb client page w ≡ (rc, w')
        → is_neg rc ≡ false
        → client_conn_handler net call has_ap
            (before ++ page ∷ after)
            client
            (sent get_method p version ls rest)
            w
          ≡ ended net call has_ap (before ++ page ∷ after) client (before ++ page ∷ after) w'
    get_page w w' q long pass b has ran good =
        get_found net call has_ap (before ++ page ∷ after) client p version ls n rest w w' q long
          (find_page-append p before (page ∷ after) pass ∙ find_page_first p page after b has) has
          ran good

  -- A request of either method for a path of 2 to 31 bytes, where each registered page has no GET
  -- callback or a path that does not begin the requested one: it is answered by the 404 page, and
  -- the pages stay as they are. These pages hide none that is registered behind them: with more
  -- pages behind, the search gives what it gives on those alone.
  pub unknown_page :
      (pages : List (Page C)) (m : Method) (p version : Bytes) (ls : List Bytes) (n : ℕ)
      (rest : List Recv) (w w' : W) {sent_rc : ℤ}
      → IsRequest m p version ls n
      → 2 ≤ length p
      → All (Passes p) pages
      → sendall net client http1_1_404 w ≡ some (sent_rc, w')
      → (client_conn_handler net call has_ap pages client (sent m p version ls rest) w
          ≡ ended net call has_ap pages client pages w')
        × ((more : List (Page C)) → find_page p (pages ++ more) ≡ find_page p more)
  unknown_page pages m p version ls n rest w w' q long pass done = (
    missing_page net call has_ap pages client m p version ls n rest w w' q long
        (find_page-nil p pages pass) done (set_content_length-nil p n pages pass),
    λ more. find_page-append p pages more pass,
  )
