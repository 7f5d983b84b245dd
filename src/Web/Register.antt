-- ===== src/Web/Register.antt =====
-- `ob_ws_register_web_page` and `ob_web_server_display_home` of src/ob_web_server.c. A path or
-- title of 32 bytes or more is cut without a NUL; the reads past the array that follow in C are
-- not modelled, so the model is exact for shorter ones.
use onboarding.Base.{
  ℕ, ◌≤◌, ◌≡◌, ◌≢◌, refl, sym, ap, ◌∙◌, All, arith, strn_eq_refl, Bool, true, false, Option, none,
  some, List, [], ◌∷◌, ◌++◌, ℤ, pos, minus_one, Bytes, strn_eq, strn_eq-take, strn_eq-append, take,
  length, if◌then◌else◌, Bool-cases, inl, inr, ◌>>=◌, take_of_le,
}
use onboarding.Web.Net.{Net}
use onboarding.Web.Page.{Page, is_home_page}
use onboarding.Web.Request.Name.{max_web_path_name_len}
use onboarding.Web.Request.Serve.{Call, display_404, find_page}

-- MAX_WEB_TITLE_LEN
abbrev pub max_web_title_len : ℕ
max_web_title_len = 32

same_path : (a b : Bytes) → take 32 a ≡ b → strn_eq 32 a b ≡ true
same_path a b e =
    ap (λ x. strn_eq 32 a x) (sym e)
    ∙ sym (strn_eq-take 32 a (take 32 a))
    ∙ strn_eq_refl 32 (take 32 a)

module _ {C : Type 0} where
  -- The search for a page of the same path.
  unfoldable pub is_registered : Bytes → List (Page C) → Bool
  is_registered pathname [] = false
  is_registered pathname (p ∷ ps) =
      if strn_eq max_web_path_name_len pathname p.pathname then true else is_registered pathname ps

  -- The page that is put in front; `allocated` says whether `malloc` gave room for it.
  abbrev pub new_page : Bytes → Bytes → Option C → Option C → ℕ → Page C
  new_page pathname title get_callback post_callback flags = record {
    pathname = take max_web_path_name_len pathname;
    title = take max_web_title_len title;
    flags = flags;
    content_length = 0;
    get_callback = get_callback;
    post_callback = post_callback;
  }

  unfoldable pub register_web_page :
      Bool → Bytes → Bytes → Option C → Option C → ℕ → List (Page C) → ℤ × List (Page C)
  unfolding is_registered
  register_web_page allocated pathname title get_callback post_callback flags pages =
      if is_registered pathname pages
      then (pos 0, pages)
      else (if allocated
          then (pos 0, new_page pathname title get_callback post_callback flags ∷ pages)
          else (minus_one, pages))

  -- No two pages have the same path.
  abbrev pub IsDistinct : List (Page C) → Type 0
  IsDistinct [] = Unit
  IsDistinct (p ∷ ps) = All (λ q. p.pathname ≢ q.pathname) ps × IsDistinct ps

  -- A path that the search does not find is that of no page.
  not-is_registered :
      (pathname : Bytes) (ps : List (Page C))
      → is_registered pathname ps ≡ false
      → All (λ q. take 32 pathname ≢ q.pathname) ps
  unfolding is_registered
  not-is_registered pathname [] h = tt
  not-is_registered pathname (p ∷ ps) h =
      elim (Bool-cases (strn_eq max_web_path_name_len pathname p.pathname)) [
        | inl e ↦ absurd (ground (arith, e))
        | inr e ↦ (
          λ same. ground (arith, e, same_path pathname p.pathname same),
          not-is_registered pathname ps (ground (arith, e)),
        )
      ]

  module _ (pathname title : Bytes) (get_callback post_callback : Option C) (flags : ℕ)
      (pages : List (Page C)) where
    abbrev page : Page C
    page = new_page pathname title get_callback post_callback flags

    -- Registering a page never makes two pages of the same path, of which at most 32 bytes are
    -- kept.
    pub register-IsDistinct :
        (allocated : Bool)
        → IsDistinct pages
        → IsDistinct
            (register_web_page allocated pathname title get_callback post_callback flags pages).1
    unfolding register_web_page
    register-IsDistinct allocated h = elim (Bool-cases (is_registered pathname pages)) [
      | inl e ↦ rw e h
      | inr e ↦ elim (Bool-cases allocated) [
        | inl a ↦ rw (e, a) (not-is_registered pathname pages e, h)
        | inr a ↦ rw (e, a) h
      ]
    ]

  -- A new page with a GET callback gets every request for a path that begins with its own, of
  -- at most 32 bytes, whatever was registered before it.
  pub register-find_page :
      (pathname title more : Bytes) (cb : C) (post_callback : Option C) (flags : ℕ)
      (pages : List (Page C))
      → is_registered pathname pages ≡ false
      → length pathname ≤ 32
      → find_page
          (pathname ++ more)
          (register_web_page true pathname title (some cb) post_callback flags pages).1
        ≡ some (new_page pathname title (some cb) post_callback flags)
  unfolding register_web_page find_page
  register-find_page pathname title more cb post_callback flags pages n l =
      rw (n, take_of_le 32 pathname l, strn_eq-append pathname more) refl

module _ {C W : Type 0} (net : Net W) (call : Call C W) where
  -- The result of the first home page with a GET callback, else a 404 page and -1.
  unfoldable pub display_home : List (Page C) → ℕ → W → Option (ℤ × W)
  display_home [] client w = display_404 net client w >>= λ w'. some (minus_one, w')
  display_home (p ∷ ps) client w =
      let rest = display_home ps client w in
      if is_home_page p
      then elim p.get_callback [ none ↦ rest | some cb ↦ some (call cb client p w) ]
      else rest
