-- ===== src/Portal/Request.antt =====
-- A request to a server that has the page of src/ob_captive_portal.c, from its first byte to the
-- store: `client_conn_handler` of src/ob_web_server.c with `post_wifi_setup_page` as a callback
-- that reads on from the same socket.
use onboarding.Base.{ℕ, Bool, List, ℤ, minus_one, Bytes, c_str}
use onboarding.Nvs.{Settings, Nvs}
use onboarding.Web.Net.{Net, Recv}
use onboarding.Web.Page.{Page}
use onboarding.Web.Post.Rounds.{Attribute}
use onboarding.Web.Request.Head.{Head, initial, left, waiting, fault, read_head}
use onboarding.Web.Request.Name.{get, post, unknown}
use onboarding.Web.Request.Serve.{
  Call, Handled, handled, waiting_peer, undefined, set_content_length, client_conn_handler,
}
use onboarding.Portal.Setup
use onboarding.Portal.Setup.{SetUp, done, waits, post_wifi_setup_page}

-- The callbacks of the pages: `post_wifi_setup_page`, and the others, of a type `A`.
pub data Callback (A : Type 0) : Type 0 where
  post_setup : Callback A
  other : A → Callback A

-- Whether the callback that runs came to its end
pub data Progress : Type 0 where
  ran stuck broken : Progress

-- The store with the world outside, as the pages' callbacks see it
pub record Site (D W : Type 0) : Type 0 where
  pub nvs : Nvs D W
  pub progress : Progress

module _ {D W : Type 0} where
  abbrev pub with_world : Site D W → W → Site D W
  with_world d w = record d { nvs = record d.nvs { world = w } }

  -- The sockets, in the world of the store
  abbrev pub site_net : Net W → Net (Site D W)
  site_net net = record {
    send = λ sock buf d. let (rc, w) = net.send sock buf d.nvs.world in (rc, with_world d w);
    close = λ sock d. with_world d (net.close sock d.nvs.world);
  }

  -- What a callback leaves; its result is read only where it came to its end.
  abbrev pub after_setup : SetUp D W → Site D W → ℤ × Site D W
  after_setup (done rc s) d = (rc, record d { nvs = s })
  after_setup waits d = (minus_one, record d { progress = stuck })
  after_setup Setup.fault d = (minus_one, record d { progress = broken })

  -- A handler whose callback did not come to its end has not done so either.
  abbrev pub settled : {C : Type 0} → Handled C (Site D W) → Handled C (Site D W)
  settled (handled c) = elim c.world.progress [
    | ran ↦ handled c
    | stuck ↦ waiting_peer
    | broken ↦ undefined
  ]
  settled waiting_peer = waiting_peer
  settled undefined = undefined

module _ {A : Type 0} where
  -- The pages while the callback runs: that of a POST has its Content-Length.
  abbrev pub pages_for : Head → List (Page (Callback A)) → List (Page (Callback A))
  pages_for h pages = elim h.name.page_type [
    | get ↦ pages
    | post ↦ set_content_length h.length.length (c_str h.name.filename) pages
    | unknown ↦ pages
  ]

module _ {A D W : Type 0} (settings : Settings W) (net : Net W) (call : Call (Callback A) W)
    (reboot : W → W) (stack : Bytes) (attrs : List Attribute) where
  -- The callbacks, where `body` is what the socket still receives: `post_wifi_setup_page` with
  -- the Content-Length that its page has, and the others by `call`.
  unfoldable pub run_callback : List (Page (Callback A)) → List Recv → Call (Callback A) (Site D W)
  run_callback pages body (other a) client page d =
      let (rc, w) = call (other a) client page d.nvs.world in (rc, with_world d w)
  run_callback pages body post_setup client page d =
      after_setup
        (post_wifi_setup_page settings net call reboot pages client stack attrs page.content_length
          body d.nvs)
        d

  -- The handler of a connection, whose callback reads what is behind the head of the request
  unfoldable pub handle_request :
      Bool → List (Page (Callback A)) → ℕ → List Recv → Site D W → Handled (Callback A) (Site D W)
  handle_request has_ap pages client reports d = elim (read_head initial reports) [
    | fault ↦ undefined
    | waiting h ↦ waiting_peer
    | left why h rest ↦ settled (
        client_conn_handler (site_net net) (run_callback (pages_for h pages) rest) has_ap pages
          client reports d)
  ]
