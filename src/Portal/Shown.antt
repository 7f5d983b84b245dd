-- ===== src/Portal/Shown.antt =====
-- What the page of src/ob_captive_portal.c sends, and that it uses no freed buffer.
use onboarding.Base.{
  ℕ, zero, suc, ◌+◌, ◌<◌, ◌^◌, ◌≡◌, ◌≢◌, refl, sym, ap, ◌∙◌, Bool, true, false, some, List, [], ◌∷◌,
  ◌++◌, ℤ, pos, negsuc, is_neg, arith, Bytes, codes, length, length-append, drop, >>=-eq-some,
}
use mathlib.Core.List.{append_assoc}
use onboarding.Portal.{ScanDone, no_memory, formatted, overrun, client_scan_done}
use onboarding.Wifi.Ssids.{Ssid}
use onboarding.Web.Net.{Net}
use onboarding.Web.Page.{Page}
use onboarding.Web.Send.{
  send_rounds, send_rounds_step, after, sendall, chunk, Sends, Delivered, all, part,
  sendall-Delivered,
}
use onboarding.Web.Menu.Build.{text, create_menu, create_header200, body_length}
use onboarding.Web.Menu.Header.{declares, body, header_complete}
use onboarding.Portal.Page.{
  body_start, body_tail, Portal, Content, nothing, freed, allocated, scan_finished, left_by,
  send_page, send_built, show_page, display_wifi_setup_page,
}

-- No send on the socket fails.
abbrev pub NoFailure : {W : Type 0} → Net W → ℕ → Type 0
NoFailure {W} net sock = (buf : Bytes) (w : W) → is_neg (net.send sock buf w).0 ≡ false

module _ {W : Type 0} (net : Net W) (sock : ℕ) where
  send_rounds-after :
      (fuel b : ℕ) (bs : Bytes) (w : W) (o r : ℤ × W)
      → net.send sock (chunk (b ∷ bs)) w ≡ o
      → is_neg o.0 ≡ false
      → send_rounds net (suc fuel) sock (b ∷ bs) w ≡ some r
      → (n : ℕ) × (send_rounds net fuel sock (drop n (b ∷ bs)) o.1 ≡ some r)
  send_rounds-after fuel b bs w (negsuc x, w') r o ok e = absurd (cc)
  send_rounds-after fuel b bs w (pos n, w') r o ok e = (
    n,
    sym (ap (after net sock fuel (b ∷ bs)) o) ∙ sym (send_rounds_step net sock fuel b bs w) ∙ e,
  )

  send_rounds-ok :
      (fuel : ℕ) (buf : Bytes) (w : W) (r : ℤ × W)
      → NoFailure net sock
      → send_rounds net fuel sock buf w ≡ some r
      → is_neg r.0 ≡ false
  unfolding send_rounds
  send_rounds-ok fuel [] w r ok e = ground arith
  send_rounds-ok zero (b ∷ bs) w r ok e = cc
  send_rounds-ok (suc fuel) (b ∷ bs) w r ok e =
      let sent = net.send sock (chunk (b ∷ bs)) w in
      let (n, later) = send_rounds-after fuel b bs w sent r refl (ok (chunk (b ∷ bs)) w) e in
      send_rounds-ok fuel (drop n (b ∷ bs)) sent.1 r ok later

module _ {W : Type 0} (net : Net W) (sock : ℕ) (wire : W → Bytes) (h : Sends net sock wire) where
  Delivered-ok :
      (buf : Bytes) (w : W) (r : ℤ × W)
      → is_neg r.0 ≡ false
      → Delivered wire buf w r
      → (w' : W) × (r ≡ (pos 0, w')) × (wire w' ≡ wire w ++ buf)
  Delivered-ok buf w r n (all {w'} e) = (w', refl, e)
  Delivered-ok buf w r n (part x k l e) = cc

  sendall-ok :
      (buf : Bytes) (w : W)
      → NoFailure net sock
      → (w' : W) × (sendall net sock buf w ≡ some (pos 0, w')) × (wire w' ≡ wire w ++ buf)
  unfolding sendall
  sendall-ok buf w ok =
      let (r, ran, d) = sendall-Delivered net sock wire h buf w in
      let (w', e, wired) =
        Delivered-ok buf w r (send_rounds-ok net sock (length buf) buf w r ok ran) d in
      (w', ran ∙ ap some e, wired)

-- What the page sends behind its header.
abbrev pub form_of : Bytes → Bytes
form_of ssids = body_start ++ (ssids ++ body_tail)

length-form_of :
    (ssids : Bytes) → length (form_of ssids) ≡ length body_start + length ssids + length body_tail
length-form_of ssids = simp (length-append) (omega arith)

appended :
    (a b c d e header start ssids tail : Bytes)
    → b ≡ a ++ header
    → c ≡ b ++ start
    → d ≡ c ++ ssids
    → e ≡ d ++ tail
    → e ≡ a ++ (header ++ (start ++ (ssids ++ tail)))
appended a b c d e header start ssids tail l1 l2 l3 l4 = rw (l4, l3, l2, l1) (simp (append_assoc))

total : (n : ℕ) (a b : Bytes) → n ≡ length b + length a → n ≡ length (a ++ b)
total n a b h = omega (arith, length-append a b)

module _ {C W : Type 0} (net : Net W) (pages : List (Page C)) (client : ℕ) (wire : W → Bytes)
    (h : Sends net client wire) where
  send_page-ok :
      (header ssids : Bytes) (w : W)
      → NoFailure net client
      → (w' : W) × (send_page net pages client header ssids w ≡ some (pos 0, w'))
        × (wire w' ≡ wire w ++ (header ++ form_of ssids))
  unfolding send_page
  send_page-ok header ssids w ok =
      let (w1, e1, l1) = sendall-ok net client wire h header w ok in
      let (w2, e2, l2) = sendall-ok net client wire h body_start w1 ok in
      let (w3, e3, l3) = sendall-ok net client wire h ssids w2 ok in
      let (w4, e4, l4) = sendall-ok net client wire h body_tail w3 ok in
      (w4, rw (e1, e2, e3) e4, appended _ _ _ _ _ header body_start ssids body_tail l1 l2 l3 l4)

  show_page-ok :
      (header ssids : Bytes) (w : W)
      → NoFailure net client
      → create_header200 pages
          (length body_start + length ssids + length body_tail)
          (codes "Wifi setup")
        ≡ text header
      → (w' : W) × (show_page net pages client ssids w ≡ some (pos 0, w'))
        × (wire w' ≡ wire w ++ (header ++ form_of ssids))
  unfolding show_page send_built
  show_page-ok header ssids w ok made =
      let (w', e, l) = send_page-ok header ssids w ok in
      (w', ap (λ b. send_built net pages client b ssids w) made ∙ e, l)

  display-shown :
      (ssids : Bytes) (sem : Bool) (w w' : W)
      → show_page net pages client ssids w ≡ some (pos 0, w')
      → display_wifi_setup_page net pages client
          (record { content = allocated ssids; scan_done_sem = sem })
          w
        ≡ some (pos 0, record { content = freed; scan_done_sem = false }, w')
  unfolding display_wifi_setup_page
  display-shown ssids sem w w' e = rw (e) refl

  -- When no send fails, the menu was built and the lengths are ints, the page of a list of
  -- networks is answered whole and with 0: the head of the answer declares as Content-Length the
  -- number of bytes that are sent behind it, and the list is freed.
  pub display_wifi_setup_page_whole :
      (ssids menu : Bytes) (sem : Bool) (w : W)
      → NoFailure net client
      → create_menu pages ≡ text menu
      → length menu < 256
      → body_length (length (form_of ssids)) (codes "Wifi setup") menu < 2 ^ 31
      → (w' : W) × (display_wifi_setup_page net pages client
            (record { content = allocated ssids; scan_done_sem = sem })
            w
          ≡ some (pos 0, record { content = freed; scan_done_sem = false }, w'))
        × (wire w'
            ≡ wire w
              ++ (declares (length (body (codes "Wifi setup") menu ++ form_of ssids))
                  ++ (body (codes "Wifi setup") menu ++ form_of ssids)))
  display_wifi_setup_page_whole ssids menu sem w ok built short int =
      let title : Bytes = codes "Wifi setup" in
      let (n, made, size, digits) =
        header_complete pages (length (form_of ssids)) title menu built short (omega arith) int in
      let (w', e, l) =
        show_page-ok (declares n ++ body title menu) ssids w ok
          (ap (λ m. create_header200 pages m title) (sym (length-form_of ssids)) ∙ made) in
      (
        w',
        display-shown ssids sem w w' e,
        l
            ∙ ap (λ t. wire w ++ t) (append_assoc (declares n) (body title menu) (form_of ssids))
            ∙ ap (λ m. wire w ++ (declares m ++ (body title menu ++ form_of ssids)))
                (total n (body title menu) (form_of ssids) size),
      )

module _ {C W : Type 0} (net : Net W) (pages : List (Page C)) where
  -- A scan that ends, or a page that is shown once its semaphore is given.
  data Step (p : Portal) (w : W) : Portal → W → Type 0 where
    scans :
        {q : Portal} (malloc : Bool) (items : List Ssid)
        → scan_finished malloc items p ≡ some q
        → Step p w q w
    shows :
        {q : Portal} {v : W} (client : ℕ) (rc : ℤ)
        → p.scan_done_sem ≡ true
        → display_wifi_setup_page net pages client p w ≡ some (rc, q, v)
        → Step p w q v

  data Reach (w0 : W) : Portal → W → Type 0 where
    boot : Reach w0 (record { content = nothing; scan_done_sem = false }) w0
    next : {p q : Portal} {w v : W} → Reach w0 p w → Step p w q v → Reach w0 q v

-- The semaphore is given only while the buffer is not a freed one.
abbrev Safe : Portal → Type 0
Safe p = p.scan_done_sem ≡ true → p.content ≢ freed

left_by-Safe : (o : ScanDone) (p q : Portal) → left_by o p ≡ some q → Safe q
unfolding left_by
left_by-Safe no_memory p q e t = cc
left_by-Safe (formatted x) p q e t = cc
left_by-Safe overrun p q e t = cc

module _ {C W : Type 0} (net : Net W) (pages : List (Page C)) where
  display-cleared :
      (client : ℕ) (content : Content) (sem : Bool) (q : Portal) (w v : W) (rc : ℤ)
      → display_wifi_setup_page net pages client
          (record { content = content; scan_done_sem = sem })
          w
        ≡ some (rc, q, v)
      → q.scan_done_sem ≡ false
  unfolding display_wifi_setup_page
  display-cleared client nothing sem q w v rc e = cc
  display-cleared client freed sem q w v rc e = cc
  display-cleared client (allocated ssids) sem q w v rc e =
      let (shown, ran, given) = >>=-eq-some (show_page net pages client ssids w) _ e in cc

  Step-Safe : {p q : Portal} {w v : W} → Step net pages p w q v → Safe p → Safe q
  Step-Safe {p} {q} (scans malloc items e) h t =
      left_by-Safe (client_scan_done malloc items) p q e t
  Step-Safe {p} {q} {w} {v} (shows client rc given e) h t =
      let cleared = display-cleared client p.content p.scan_done_sem q w v rc e in cc

  -- Whatever scans end, with or without memory, and whatever pages are shown by one thread at a
  -- time, in whatever order, a page that has taken the semaphore does not use a freed buffer.
  page_uses_no_freed_buffer :
      (w0 w : W) (p : Portal) → Reach net pages w0 p w → p.scan_done_sem ≡ true → p.content ≢ freed
  page_uses_no_freed_buffer w0 w p boot t = cc
  page_uses_no_freed_buffer w0 w p (next {p = before} {w = v} r st) t =
      Step-Safe st (page_uses_no_freed_buffer w0 v before r) t
