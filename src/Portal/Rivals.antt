-- ===== src/Portal/Rivals.antt =====
-- Two forms at a time on the attributes that src/ob_captive_portal.c shares.
use onboarding.Base.{
  ℕ, ◌≤◌, ◌≡◌, arith, refl, sym, ap, subst, ◌∙◌, false, some, List, [], ◌∷◌, ℤ, pos, is_neg, Bytes,
  codes, All, length, length-append, ltb, ◌==◌, ==-refl,
}
use onboarding.Nvs.{Settings, Nvs}
use onboarding.Web.Net.{Net}
use onboarding.Web.Page.{Page}
use onboarding.Web.Register.{display_home}
use onboarding.Web.Request.Serve.{Call}
use onboarding.Web.Post.Rounds.{Attribute, Post}
use onboarding.Web.Post.Form.{encode}
use onboarding.Web.Post.Fields.{put, assign_all, IsField, IsSized, length-put}
use onboarding.Portal.Setup.{
  SetUp, settings_id_wifi_ssid, settings_id_wifi_psk, wifi_setup_attrib, setup_form, setup_fields,
  IsValue, ssid_attribute, password_attribute, c_str-put, post_values-stored,
}
use onboarding.Portal.Forms.{
  outside, reads, Forms, moved, Step, enters, leaves, full, Run, here, and_then, start, leave_form,
}
use onboarding.Portal.Received.{entered, posting, run_alone, run_join}

-- A run after which the thread `t` has received the form of `v` and `w`, and the thread `u` the
-- SSID of the form of `x` and `y`, and a step of `t` that leaves the store `d`
pub record Mixed {D W : Type 0} (leave : ℕ → ℤ → List Attribute → Nvs D W → SetUp D W)
    (s : Forms D W) (t u : ℕ) (v w x y : Bytes) (d : Nvs D W) : Type 0 where
  pub before : Forms D W
  pub behind : Forms D W
  pub l : Post
  pub l' : Post
  pub first_has :
      before.place t ≡ reads (length (encode (setup_form v w))) l (encode (setup_form v w))
  pub second_has :
      before.place u
      ≡ reads (length (encode ((codes "ssid", x) ∷ []))) l' (encode ((codes "ssid", x) ∷ []))
  pub second_length : before.content_length ≡ length (encode (setup_form x y))
  pub run : Run leave s before
  pub stores : Step leave before behind
  pub first_left : behind.place t ≡ outside
  pub nvs_is : behind.nvs ≡ d

ssid_field_shorter :
    (x y : Bytes) → length (encode ((codes "ssid", x) ∷ [])) ≤ length (encode (setup_form x y))
ssid_field_shorter x y = omega (
  arith,
  length-append x (b'\r' ∷ b'\n' ∷ []),
  length-append x (b'\r' ∷ b'\n' ∷ encode ((codes "password", y) ∷ [])),
)

==-false_sym : (t u : ℕ) → (u == t) ≡ false → (t == u) ≡ false
==-false_sym t u e = ground arith

ltb-le : (a b c : ℕ) → c ≡ b → b ≤ a → ltb a c ≡ false
ltb-le a b c e h = ground arith

-- What is known when the thread `t` has received the form of `v` and `w`, and then the thread `u`
-- the SSID of the form of `x` and `y`
record Both {D W : Type 0} (leave : ℕ → ℤ → List Attribute → Nvs D W → SetUp D W) (s : Forms D W)
    (t u : ℕ) (b0 b1 v w x y : Bytes) : Type 0 where
  before : Forms D W
  l : Post
  l' : Post
  first_has : before.place t ≡ reads (length (encode (setup_form v w))) l (encode (setup_form v w))
  second_has :
      before.place u
      ≡ reads (length (encode ((codes "ssid", x) ∷ []))) l' (encode ((codes "ssid", x) ∷ []))
  second_length : before.content_length ≡ length (encode (setup_form x y))
  attributes_is :
      before.attributes
      ≡ put (ssid_attribute (put (ssid_attribute b0) v).valuebuffer) x
        ∷ put (password_attribute b1) w
        ∷ []
  nvs_is : before.nvs ≡ s.nvs
  run : Run leave s before

two_posts :
    {D W : Type 0} {leave : ℕ → ℤ → List Attribute → Nvs D W → SetUp D W} (s : Forms D W) (t u : ℕ)
    (b0 b1 stack stack' v w x y : Bytes)
    → (u == t) ≡ false
    → s.place t ≡ outside
    → s.place u ≡ outside
    → s.attributes ≡ wifi_setup_attrib b0 b1
    → length b0 ≡ 65
    → length b1 ≡ 65
    → length stack ≡ 32
    → length stack' ≡ 32
    → IsValue v
    → IsValue w
    → IsValue x
    → Both leave s t u b0 b1 v w x y
two_posts {leave = leave} s t u b0 b1 stack stack' v w x y differ p q a l0 l1 k k' hv hw hx =
    let form = setup_form v w in
    let c0 = (put (ssid_attribute b0) v).valuebuffer in
    let c1 = (put (password_attribute b1) w).valuebuffer in
    let m = length (encode form) in
    let f =
      posting {leave = leave} (entered s t m stack) s t m stack form start k (omega arith)
        (subst (All IsSized) (sym a) (l0, (l1, tt)))
        (subst (λ o. All (IsField o) form) (sym a) (setup_fields v w b0 b1 hv hw)) in
    let now : f.v.attributes ≡ wifi_setup_attrib c0 c1 = f.attributes_is ∙ ap (assign_all form) a in
    let field = (codes "ssid", x) ∷ [] in
    let n = length (encode (setup_form x y)) in
    let g =
      posting {leave = leave} (entered f.v u n stack') f.v u n stack' field start k'
        (ssid_field_shorter x y)
        (subst (All IsSized) (sym now) (
          length-put (ssid_attribute b0) v l0 hv.1,
          (length-put (password_attribute b1) w l1 hw.1, tt),
        ))
        (subst (λ o. All (IsField o) field) (sym now) ((setup_fields x x c0 c1 hx hx).0, tt)) in
    record {
      before = g.v;
      l = f.l;
      l' = g.l;
      first_has = g.others t (==-false_sym t u differ) ∙ f.place_is;
      second_has = g.place_is;
      second_length = g.length_is;
      attributes_is = g.attributes_is ∙ ap (assign_all field) now;
      nvs_is = g.nvs_is ∙ f.nvs_is;
      run =
          run_join
            (and_then (run_join (and_then here (enters t m stack p k)) (run_alone f.run))
              (enters u n stack' (f.others u differ ∙ q) k'))
            (run_alone g.run);
    }

module _ {C D W : Type 0} (settings : Settings W) (net : Net W) (call : Call C W) (reboot : W → W)
    (pages : List (Page C)) (sock : ℕ → ℕ) where
  abbrev leave : ℕ → ℤ → List Attribute → Nvs D W → SetUp D W
  leave = leave_form settings net call reboot pages sock

  -- Where two threads are outside, with values of at most 64 bytes and the second one's form no
  -- longer than the first one's: the first may receive its whole form, with the SSID `v` and the
  -- password `w`, and the second the SSID `x` alone, before the first stores the SSID `x` with the
  -- password `w`, where the password can be stored and the home page be built.
  pub rival-stored :
      (s : Forms D W) (t u : ℕ) (b0 b1 stack stack' v w x y : Bytes) (r0 r1 shown : ℤ)
      (w1 w2 w3 : W)
      → (u == t) ≡ false
      → s.place t ≡ outside
      → s.place u ≡ outside
      → s.attributes ≡ wifi_setup_attrib b0 b1
      → length b0 ≡ 65
      → length b1 ≡ 65
      → length stack ≡ 32
      → length stack' ≡ 32
      → IsValue v
      → IsValue w
      → IsValue x
      → length (encode (setup_form x y)) ≤ length (encode (setup_form v w))
      → settings.save_one settings_id_wifi_ssid x s.nvs.world ≡ (r0, w1)
      → settings.save_one settings_id_wifi_psk w w1 ≡ (r1, w2)
      → is_neg r1 ≡ false
      → display_home net call pages (sock t) w2 ≡ some (shown, w3)
      → Mixed leave s t u v w x y (record s.nvs { world = reboot w3 })
  unfolding leave_form
  rival-stored s t u b0 b1 stack stack' v w x y r0 r1 shown w1 w2 w3 differ p q a l0 l1 k k' hv hw
        hx fits e0 e1 good home =
      let b = two_posts s t u b0 b1 stack stack' v w x y differ p q a l0 l1 k k' hv hw hx in
      let m = length (encode (setup_form v w)) in
      let first = put (ssid_attribute (put (ssid_attribute b0) v).valuebuffer) x in
      let second = put (password_attribute b1) w in
      let d = record s.nvs { world = reboot w3 } in
      let store =
        ap (λ o. leave t (pos 0) o b.before.nvs) b.attributes_is
        ∙ ap (λ o. leave t (pos 0) (first ∷ second ∷ []) o) b.nvs_is
        ∙ post_values-stored settings net call reboot pages (sock t) first second x w s.nvs r0 r1
            shown w1 w2 w3
            (c_str-put (ssid_attribute (put (ssid_attribute b0) v).valuebuffer) x hx.0)
            (c_str-put (password_attribute b1) w hw.0) e0 e1 good home in
      record {
        before = b.before;
        behind = record b.before { nvs = d; place = moved b.before t outside };
        l = b.l;
        l' = b.l';
        first_has = b.first_has;
        second_has = b.second_has;
        second_length = b.second_length;
        run = b.run;
        stores =
            leaves t m b.l (encode (setup_form v w)) (pos 0) r1 d b.first_has
              (full (ltb-le _ _ _ b.second_length fits)) store;
        first_left = rw (==-refl t) refl;
        nvs_is = refl;
      }
