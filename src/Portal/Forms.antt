-- ===== src/Portal/Forms.antt =====
-- The form of src/ob_captive_portal.c on the threads of the server: `wifi_setup_attrib` and the
-- Content-Length of the page are shared by all that post it (`ob_ws_process_post` of
-- src/ob_web_server.c and `post_wifi_setup_page`). A thread that leaves stores both values in one
-- step.
use onboarding.Base.{
  ℕ, suc, ◌≡◌, true, false, List, [], ◌∷◌, ◌++◌, ℤ, pos, is_neg, neg_errno, Bytes, length, ltb,
  ◌==◌, if◌then◌else◌,
}
use onboarding.Nvs.{Settings, Nvs}
use onboarding.Web.Net.{Net}
use onboarding.Web.Page.{Page}
use onboarding.Web.Request.Serve.{Call}
use onboarding.Web.Post.Rounds.{Attribute, Post, initial, next, bad_name, post_byte, einval}
use onboarding.Portal.Setup.{SetUp, done, finish, post_values}

-- Where a thread stands in `post_wifi_setup_page`: outside, or in the loop with its counter `cl`,
-- its locals, and the bytes that it has received. The attributes among the locals stand for the
-- pointer to the shared ones.
pub data Place : Type 0 where
  outside : Place
  reads : ℕ → Post → Bytes → Place

-- The shared variables, the store, and the places of the threads
pub record Forms (D W : Type 0) : Type 0 where
  pub attributes : List Attribute
  pub content_length : ℕ
  pub nvs : Nvs D W
  pub place : ℕ → Place

abbrev pub moved : {D W : Type 0} → Forms D W → ℕ → Place → ℕ → Place
moved s t p u = if u == t then p else s.place u

abbrev pub shared : Post → List Attribute → Post
shared l attrs = record l { attributes = attrs }

-- Why the loop ends, with the result of `ob_ws_process_post`
pub data Cause {D W : Type 0} (s : Forms D W) (cl : ℕ) (l : Post) : ℤ → Type 0 where
  full : ltb cl s.content_length ≡ false → Cause s cl l (pos 0)
  closes : ltb cl s.content_length ≡ true → Cause s cl l (pos 0)
  fails : (e : ℕ) → ltb cl s.content_length ≡ true → Cause s cl l (neg_errno e)
  refuses :
      (c : ℕ)
      → ltb cl s.content_length ≡ true
      → post_byte (shared l s.attributes) c ≡ bad_name
      → Cause s cl l (neg_errno einval)

-- A step of a thread; `leave` is what `post_wifi_setup_page` does behind the loop.
pub data Step {D W : Type 0} (leave : ℕ → ℤ → List Attribute → Nvs D W → SetUp D W) (s : Forms D W)
    : Forms D W → Type 0 where
  -- `client_conn_handler` sets the length of the page and calls the callback.
  enters :
      (t n : ℕ) (stack : Bytes)
      → s.place t ≡ outside
      → length stack ≡ 32
      → Step leave s (record s {
        content_length = n;
        place = moved s t (reads 0 (initial stack s.attributes) []);
      })
  receives :
      (t cl c : ℕ) (l l' : Post) (got : Bytes)
      → s.place t ≡ reads cl l got
      → ltb cl s.content_length ≡ true
      → post_byte (shared l s.attributes) c ≡ next l'
      → Step leave s (record s {
        attributes = l'.attributes;
        place = moved s t (reads (suc cl) l' (got ++ c ∷ []));
      })
  -- EAGAIN or EINTR
  retries :
      (t cl : ℕ) (l : Post) (got : Bytes)
      → s.place t ≡ reads cl l got
      → ltb cl s.content_length ≡ true
      → Step leave s (record s { place = moved s t (reads (suc cl) l got) })
  leaves :
      (t cl : ℕ) (l : Post) (got : Bytes) (rc rc' : ℤ) (d : Nvs D W)
      → s.place t ≡ reads cl l got
      → Cause s cl l rc
      → leave t rc s.attributes s.nvs ≡ done rc' d
      → Step leave s (record s { nvs = d; place = moved s t outside })

pub data Run {D W : Type 0} (leave : ℕ → ℤ → List Attribute → Nvs D W → SetUp D W) (s : Forms D W)
    : Forms D W → Type 0 where
  here : Run leave s s
  and_then : {u v : Forms D W} → Run leave s u → Step leave u v → Run leave s v

-- What follows the loop, on the thread of each socket
module _ {C D W : Type 0} (settings : Settings W) (net : Net W) (call : Call C W) (reboot : W → W)
    (pages : List (Page C)) (sock : ℕ → ℕ) where
  unfoldable pub leave_form : ℕ → ℤ → List Attribute → Nvs D W → SetUp D W
  unfolding finish post_values
  leave_form t rc attrs s =
      if is_neg rc
      then finish settings net call reboot pages (sock t) rc s
      else post_values settings net call reboot pages (sock t) attrs s

-- A thread enters only while all others are outside.
abbrev pub Alone :
    {D W : Type 0} {leave : ℕ → ℤ → List Attribute → Nvs D W → SetUp D W} {s v : Forms D W}
    → Step leave s v
    → Type 0
Alone {s = s} (enters t n stack p l) = (u : ℕ) → s.place u ≡ outside
Alone (receives t cl c l l' got p b e) = Unit
Alone (retries t cl l got p b) = Unit
Alone (leaves t cl l got rc rc' d p b e) = Unit

pub data AloneRun {D W : Type 0} (leave : ℕ → ℤ → List Attribute → Nvs D W → SetUp D W)
    (s : Forms D W) : Forms D W → Type 0 where
  start : AloneRun leave s s
  after :
      {u v : Forms D W} → AloneRun leave s u → (st : Step leave u v) → Alone st → AloneRun leave s v
