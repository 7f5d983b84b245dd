-- ===== src/Web/Menu/Sizes.antt =====
-- When the static buffers of `create_menu` and `CreateHeader200` (src/ob_web_server.c) suffice.
use onboarding.Base.{
  ℕ, ◌+◌, ◌*◌, ◌≤◌, ◌<◌, ◌≡◌, refl, sym, ap, ◌∙◌, false, List, [], ◌∷◌, ◌++◌, arith, Bytes, codes,
  length, length-append, ltb,
}
use onboarding.Web.Page.{Page}
use onboarding.Web.Menu.Build.{
  web_menu_len, menu_start, menu_end, menu_elem, menu_loop, create_menu, text, overflow, held,
}
use mathlib.Core.List.{append_assoc}

within : (len : ℕ) → len ≤ web_menu_len → ltb web_menu_len len ≡ false
within len h = ground arith

pub held_fits : (n : ℕ) (t : Bytes) → length t < n → held n t ≡ text t
held_fits n t h = ground arith

held_past : (n : ℕ) (t : Bytes) → n ≤ length t → held n t ≡ overflow
held_past n t h = ground arith

module _ {C : Type 0} where
  -- What the code counts for the pages, and what their elements take.
  abbrev pub counted_from : ℕ → List (Page C) → ℕ
  counted_from n [] = n
  counted_from n (p ∷ ps) = counted_from (n + 19 + length p.pathname + length p.title) ps

  abbrev pub menu_elems : List (Page C) → Bytes
  menu_elems [] = []
  menu_elems (p ∷ ps) = menu_elem p ++ menu_elems ps

  abbrev pub counted_menu : List (Page C) → ℕ
  counted_menu = counted_from (5 + length menu_start)

  counted_from-ge : (n : ℕ) (ps : List (Page C)) → n ≤ counted_from n ps
  counted_from-ge n [] = omega arith
  counted_from-ge n (p ∷ ps) =
      omega (arith, counted_from-ge (n + 19 + length p.pathname + length p.title) ps)

  menu_loop-held :
      (ps : List (Page C)) (len : ℕ) (menu : Bytes)
      → counted_from len ps ≤ web_menu_len
      → menu_loop len menu ps ≡ held web_menu_len (menu ++ (menu_elems ps ++ menu_end))
  unfolding menu_loop
  menu_loop-held [] len menu h = refl
  menu_loop-held (p ∷ ps) len menu h =
      let len' : ℕ = len + 19 + length p.pathname + length p.title in
      rw (within len' (omega (arith, h, counted_from-ge len' ps))) (
        menu_loop-held ps len' (menu ++ menu_elem p) h
        ∙ ap (held web_menu_len) (
            append_assoc menu (menu_elem p) (menu_elems ps ++ menu_end)
            ∙ ap (λ t. menu ++ t) (sym (append_assoc (menu_elem p) (menu_elems ps) menu_end))))

  length-menu_elem : (p : Page C) → length (menu_elem p) ≡ 21 + length p.pathname + length p.title
  length-menu_elem p = omega (
    arith,
    length-append p.pathname (codes "\">" ++ (p.title ++ codes "</a>")),
    length-append p.title (codes "</a>"),
  )

  length-menu_elems :
      (n : ℕ) (ps : List (Page C)) → n + length (menu_elems ps) ≡ counted_from n ps + 2 * length ps
  length-menu_elems n [] = omega arith
  length-menu_elems n (p ∷ ps) = omega (
    arith,
    length-append (menu_elem p) (menu_elems ps),
    length-menu_elem p,
    length-menu_elems (n + 19 + length p.pathname + length p.title) ps,
  )

  -- The menu of the pages takes 8 bytes, and 2 for each page, more than the code counts.
  pub length-menu :
      (ps : List (Page C))
      → length (menu_start ++ (menu_elems ps ++ menu_end)) ≡ counted_menu ps + 2 * length ps + 8
  length-menu ps =
      omega (
        arith,
        length-append (menu_elems ps) menu_end,
        length-menu_elems (5 + length menu_start) ps,
      )

  -- The menu is built whole, with an element for each page in the order of the list, if what the
  -- code counts leaves room for 8 bytes, 2 for each page and the NUL.
  pub menu_fits :
      (ps : List (Page C))
      → counted_menu ps + 2 * length ps + 8 < web_menu_len
      → create_menu ps ≡ text (menu_start ++ (menu_elems ps ++ menu_end))
  unfolding create_menu
  menu_fits ps h =
      menu_loop-held ps _ menu_start (omega (arith, h))
      ∙ held_fits web_menu_len (menu_start ++ (menu_elems ps ++ menu_end))
          (omega (arith, h, length-menu ps))

  -- Where the count passes the check of the code and leaves no such room, the menu is written
  -- past the end of its buffer.
  pub menu_overflow :
      (ps : List (Page C))
      → counted_menu ps ≤ web_menu_len
      → web_menu_len ≤ counted_menu ps + 2 * length ps + 8
      → create_menu ps ≡ overflow
  unfolding create_menu
  menu_overflow ps h l =
      menu_loop-held ps _ menu_start h
      ∙ held_past web_menu_len (menu_start ++ (menu_elems ps ++ menu_end))
          (omega (arith, l, length-menu ps))
