-- ===== src/Portal/Race.antt =====
-- The page of src/ob_captive_portal.c on the threads of the server: `content_wifi_body_ssid` and
-- `scan_done_sem` are shared by all that show it.
use onboarding.Base.{
  ℕ, ◌≡◌, ◌≢◌, arith, refl, Bool, true, false, some, List, ◌∷◌, ◌==◌, ==-refl, if◌then◌else◌,
}
use onboarding.Portal.{
  client_scan_done, client_scan_done_fits, scan_text, ScanDone, no_memory, formatted, overrun,
}
use onboarding.Portal.Page.{Content, nothing, freed, allocated, Portal, left_by, scan_finished}
use onboarding.Wifi.Ssids.{Ssid}

-- Where a thread stands in `display_wifi_setup_page`: outside, before the semaphore, or between
-- the semaphore and the `free`.
pub data Place : Type 0 where
  outside waits shows : Place

-- The shared variables and the places of the threads
pub record Pages : Type 0 where
  pub portal : Portal
  pub place : ℕ → Place

abbrev pub moved : Pages → ℕ → Place → ℕ → Place
moved s t p u = if u == t then p else s.place u

-- `free(content_wifi_body_ssid)` where it is not NULL; the pointer keeps its value.
abbrev pub after_free : Content → Content
after_free nothing = nothing
after_free freed = freed
after_free (allocated ssids) = freed

pub data Step (s : Pages) : Pages → Type 0 where
  -- `set_scan_done_callback` and `ob_wifi_scan`
  requests : (t : ℕ) → s.place t ≡ outside → Step s (record s { place = moved s t waits })
  -- `client_scan_done`, on the thread of the network's events
  scans :
      (malloc : Bool) (items : List Ssid) (q : Portal)
      → scan_finished malloc items s.portal ≡ some q
      → Step s (record s { portal = q })
  -- `k_sem_take`
  takes :
      (t : ℕ)
      → s.place t ≡ waits
      → s.portal.scan_done_sem ≡ true
      → Step s
          (record s { portal = record s.portal { scan_done_sem = false }; place = moved s t shows })
  -- The end of the function
  frees :
      (t : ℕ)
      → s.place t ≡ shows
      → Step s (record s {
        portal = record s.portal { content = after_free s.portal.content };
        place = moved s t outside;
      })

pub data Run (s : Pages) : Pages → Type 0 where
  here : Run s s
  next : {u v : Pages} → Run s u → Step u v → Run s v

-- A thread is about to read, or to free, a buffer that is freed.
pub record UsesFreed (s : Pages) (t : ℕ) : Type 0 where
  pub place_is : s.place t ≡ shows
  pub content_is : s.portal.content ≡ freed

-- A scan ends only while no page is between its semaphore and its `free`.
abbrev pub Orderly : {s v : Pages} → Step s v → Type 0
Orderly (requests t p) = Unit
Orderly {s} (scans malloc items q e) = (t : ℕ) → s.place t ≢ shows
Orderly (takes t p e) = Unit
Orderly (frees t p) = Unit

pub data OrderlyRun (s : Pages) : Pages → Type 0 where
  start : OrderlyRun s s
  and_then : {u v : Pages} → OrderlyRun s u → (st : Step u v) → Orderly st → OrderlyRun s v

record IsSafe (s : Pages) : Type 0 where
  given : s.portal.scan_done_sem ≡ true → s.portal.content ≢ freed
  shown :
      (t : ℕ) → s.place t ≡ shows → (s.portal.content ≢ freed) × (s.portal.scan_done_sem ≡ false)
  single : (t u : ℕ) → s.place t ≡ shows → s.place u ≡ shows → t ≡ u

left_by_not_freed : (o : ScanDone) (p q : Portal) → left_by o p ≡ some q → q.content ≢ freed
unfolding left_by
left_by_not_freed no_memory p q e f = cc
left_by_not_freed (formatted x) p q e f = cc
left_by_not_freed overrun p q e f = cc

moved-shows :
    (s : Pages) (t u : ℕ) (p : Place)
    → p ≢ shows
    → moved s t p u ≡ shows
    → ((u == t) ≡ false) × (s.place u ≡ shows)
moved-shows s t u p ne e = ground arith

Step-IsSafe : {s v : Pages} (st : Step s v) → Orderly st → IsSafe s → IsSafe v
Step-IsSafe {s} (requests t p) o h = record {
  given = h.given;
  shown = λ u e. h.shown u (moved-shows s t u waits (λ x. cc) e).1;
  single = λ u w e f.
      h.single u w (moved-shows s t u waits (λ x. cc) e).1 (moved-shows s t w waits (λ x. cc) f).1;
}
Step-IsSafe {s} (scans malloc items q e) o h = record {
  given = λ _. left_by_not_freed (client_scan_done malloc items) s.portal q e;
  shown = λ t p. absurd (o t p);
  single = λ t u p r. absurd (o t p);
}
Step-IsSafe {s} (takes t p e) o h = record {
  given = λ f. cc;
  shown = λ u f. (h.given e, refl);
  single = λ u w f g. ground (arith, h.shown u, h.shown w);
}
Step-IsSafe {s} (frees t p) o h = record {
  given = λ f. cc ((h.shown t p).1);
  shown = λ u f. ground (arith, moved-shows s t u outside (λ x. cc) f, h.single u t);
  single = λ u w f g. ground (arith, moved-shows s t u outside (λ x. cc) f, h.single u t);
}

run-IsSafe : {s v : Pages} → OrderlyRun s v → IsSafe s → IsSafe v
run-IsSafe start h = h
run-IsSafe (and_then r st o) h = Step-IsSafe st o (run-IsSafe r h)

-- The state of the device when it starts
abbrev pub booted : Pages
booted = record {
  portal = record { content = nothing; scan_done_sem = false };
  place = λ t. outside;
}

booted-IsSafe : IsSafe booted
booted-IsSafe = record { given = λ f. cc; shown = λ t f. cc; single = λ t u f g. cc }

-- Whatever pages are requested by whatever threads, in whatever order: as long as no scan ends
-- while a page is shown, no thread reads or frees a buffer that is freed, and two threads never
-- show the page at a time.
pub orderly_pages :
    (s : Pages)
    → OrderlyRun booted s
    → ((t : ℕ) → ¬ UsesFreed s t) × ((t u : ℕ) → s.place t ≡ shows → s.place u ≡ shows → t ≡ u)
orderly_pages s r =
    let h = run-IsSafe r booted-IsSafe in (λ t f. (h.shown t f.place_is).0 f.content_is, h.single)

formatted_at :
    (it : Ssid) (items : List Ssid) (p : Portal)
    → scan_finished true (it ∷ items) p
      ≡ some (record { content = allocated (scan_text (it ∷ items)); scan_done_sem = true })
unfolding left_by
formatted_at it items p = rw ((client_scan_done_fits it items).0) refl

-- Where two threads wait for their networks and both their scans find some, the second scan may
-- end while the first page is shown: the first thread then frees the buffer that the second one
-- goes on to read.
pub second_page-UsesFreed :
    (s : Pages) (t u : ℕ) (it it' : Ssid) (items items' : List Ssid)
    → (u == t) ≡ false
    → s.place t ≡ waits
    → s.place u ≡ waits
    → (v : Pages) × Run s v × UsesFreed v u
second_page-UsesFreed s t u it it' items items' differ p q =
    let first : Portal = record {
      content = allocated (scan_text (it ∷ items));
      scan_done_sem = true;
    } in
    let second : Portal = record {
      content = allocated (scan_text (it' ∷ items'));
      scan_done_sem = true;
    } in
    let s1 : Pages = record s { portal = first } in
    let s2 : Pages = record s1 {
      portal = record first { scan_done_sem = false };
      place = moved s1 t shows;
    } in
    let s3 : Pages = record s2 { portal = second } in
    let s4 : Pages = record s3 {
      portal = record second { scan_done_sem = false };
      place = moved s3 u shows;
    } in
    let s5 : Pages = record s4 {
      portal = record { content = freed; scan_done_sem = false };
      place = moved s4 t outside;
    } in
    (
      s5,
      next
          (next
            (next
              (next (next here (scans true (it ∷ items) first (formatted_at it items s.portal)))
                (takes t p refl))
              (scans true (it' ∷ items') second (formatted_at it' items' s2.portal)))
            (takes u (rw (differ) q) refl))
          (frees t (ground arith)),
      record { place_is = rw (differ, ==-refl u) refl; content_is = refl },
    )
