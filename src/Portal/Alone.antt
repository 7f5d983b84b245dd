-- ===== src/Portal/Alone.antt =====
-- One form at a time on the attributes that src/ob_captive_portal.c shares.
use onboarding.Base.{
  ℕ, suc, ◌≡◌, ◌≢◌, arith, refl, sym, ap, subst, ◌∙◌, false, some, List, [], ◌∷◌, ◌++◌, ◌⊎◌, inl,
  inr, ℤ, pos, is_neg, Bytes, length, ◌==◌,
}
use onboarding.Nvs.{Settings, Nvs}
use onboarding.Web.Net.{Net}
use onboarding.Web.Page.{Page}
use onboarding.Web.Register.{display_home}
use onboarding.Web.Request.Serve.{Call}
use onboarding.Web.Post.Rounds.{Attribute, Post, initial, next, post_byte}
use onboarding.Web.Post.Form.{encode, post_bytes, post_bytes_step, step_inv}
use onboarding.Web.Post.Fields.{put, post_bytes_fields}
use onboarding.Portal.Setup.{
  SetUp, done, ssid_attribute, password_attribute, wifi_setup_attrib, settings_id_wifi_ssid,
  settings_id_wifi_psk, setup_form, setup_fields, IsValue, c_str-put, post_values,
  post_values-stored,
}
use onboarding.Portal.Forms
use onboarding.Portal.Forms.{
  Place, outside, reads, Forms, moved, shared, enters, receives, retries, leaves, Alone, AloneRun,
  start, after, leave_form,
}
use onboarding.Portal.Buffers.{IsSetup, some_inv, post_byte-IsSetup}

-- What the attributes and the locals of a thread are, when it has received `got` and no other
-- thread was inside
record Own (attrs : List Attribute) (l : Post) (got : Bytes) : Type 0 where
  stack : Bytes
  b0 : Bytes
  b1 : Bytes
  stack_size : length stack ≡ 32
  size0 : length b0 ≡ 65
  size1 : length b1 ≡ 65
  ran : post_bytes (initial stack (wifi_setup_attrib b0 b1)) got ≡ some (shared l attrs)

post_bytes_snoc :
    (s t u : Post) (bs : Bytes) (c : ℕ)
    → post_bytes s bs ≡ some t
    → post_byte t c ≡ next u
    → post_bytes s (bs ++ c ∷ []) ≡ some u
post_bytes_snoc s t u [] c e f = rw (some_inv e, f, post_bytes) refl
post_bytes_snoc s t u (b ∷ bs) c e f =
    let (s', now, later) = step_inv (post_byte s b) bs e in
    post_bytes_step s s' b _ now ∙ post_bytes_snoc s' t u bs c later f

record IsOwned {D W : Type 0} (s : Forms D W) : Type 0 where
  setup : IsSetup s.attributes
  single : (t u : ℕ) → s.place t ≢ outside → s.place u ≢ outside → t ≡ u
  own : (t cl : ℕ) (l : Post) (got : Bytes) → s.place t ≡ reads cl l got → Own s.attributes l got

abbrev OwnedAt : List Attribute → Place → Type 0
OwnedAt attrs outside = Unit
OwnedAt attrs (reads cl l got) = Own attrs l got

reads_inv :
    {attrs : List Attribute} {cl cl' : ℕ} {l l' : Post} {got got' : Bytes}
    → reads cl l got ≡ reads cl' l' got'
    → Own attrs l got
    → Own attrs l' got'
reads_inv {attrs} e o = subst (OwnedAt attrs) e o

module _ {D W : Type 0} (s : Forms D W) (t u : ℕ) where
  was_inside : (p : Place) → s.place t ≢ outside → moved s t p u ≢ outside → s.place u ≢ outside
  was_inside p i m o = ground arith

  first_inside : (p : Place) → ((w : ℕ) → s.place w ≡ outside) → moved s t p u ≢ outside → u ≡ t
  first_inside p o m = ground (arith, o u)

  -- A thread that reads has just moved there, or was there before.
  moved-reads :
      (p : Place) {cl : ℕ} {l : Post} {got : Bytes}
      → moved s t p u ≡ reads cl l got
      → (p ≡ reads cl l got) ⊎ (((u == t) ≡ false) × (s.place u ≡ reads cl l got))
  moved-reads p e = ground arith

==-false : {t u : ℕ} → (u == t) ≡ false → u ≢ t
==-false e f = ground arith

module _ {D W : Type 0} {leave : ℕ → ℤ → List Attribute → Nvs D W → SetUp D W} where
  Step-IsOwned : {s v : Forms D W} (st : Forms.Step leave s v) → Alone st → IsOwned s → IsOwned v
  Step-IsOwned {s} (enters t n stack p size) o h =
      let q = reads 0 (initial stack s.attributes) [] in
      record {
        setup = h.setup;
        single = λ u w m k. first_inside s t u q o m ∙ sym (first_inside s t w q o k);
        own = λ u cl l got m. elim (moved-reads s t u q m) [
          | inl e ↦ reads_inv e (record {
            stack = stack;
            b0 = h.setup.b0;
            b1 = h.setup.b1;
            stack_size = size;
            size0 = h.setup.size0;
            size1 = h.setup.size1;
            ran = ap (λ a. some (initial stack a)) (sym h.setup.attrs_is);
          })
          | inr e ↦ h.own u cl l got e.1
        ];
      }
  Step-IsOwned {s} (receives t cl c l l' got p b e) o h =
      let inside : s.place t ≢ outside = λ k. cc in
      let q = reads (suc cl) l' (got ++ c ∷ []) in
      let a = h.own t cl l got p in
      record {
        setup = post_byte-IsSetup (shared l s.attributes) l' c e h.setup;
        single =
            λ u w m k. h.single u w (was_inside s t u q inside m) (was_inside s t w q inside k);
        own = λ u cl' k got' m. elim (moved-reads s t u q m) [
          | inl f ↦ reads_inv f (record {
            stack = a.stack;
            b0 = a.b0;
            b1 = a.b1;
            stack_size = a.stack_size;
            size0 = a.size0;
            size1 = a.size1;
            ran =
                post_bytes_snoc (initial a.stack (wifi_setup_attrib a.b0 a.b1))
                  (shared l s.attributes) l' got c a.ran e;
          })
          | inr f ↦ absurd (==-false f.0 (h.single u t (λ k. cc) inside))
        ];
      }
  Step-IsOwned {s} (retries t cl l got p b) o h =
      let inside : s.place t ≢ outside = λ k. cc in
      let q = reads (suc cl) l got in
      record {
        setup = h.setup;
        single =
            λ u w m k. h.single u w (was_inside s t u q inside m) (was_inside s t w q inside k);
        own = λ u cl' l' got' m. elim (moved-reads s t u q m) [
          | inl f ↦ reads_inv f (h.own t cl l got p)
          | inr f ↦ h.own u cl' l' got' f.1
        ];
      }
  Step-IsOwned {s} (leaves t cl l got rc rc' d p b e) o h =
      let inside : s.place t ≢ outside = λ k. cc in
      record {
        setup = h.setup;
        single = λ u w m k.
            h.single u w (was_inside s t u outside inside m) (was_inside s t w outside inside k);
        own = λ u cl' l' got' m. elim (moved-reads s t u outside m) [
          | inl f ↦ cc
          | inr f ↦ h.own u cl' l' got' f.1
        ];
      }

  run-IsOwned : {s v : Forms D W} → AloneRun leave s v → IsOwned s → IsOwned v
  run-IsOwned start h = h
  run-IsOwned (after r st o) h = Step-IsOwned st o (run-IsOwned r h)

-- The state of the device when it starts, with zeros in the static buffers
abbrev pub booted : {D W : Type 0} → Bytes → Bytes → ℕ → Nvs D W → Forms D W
booted b0 b1 n d = record {
  attributes = wifi_setup_attrib b0 b1;
  content_length = n;
  nvs = d;
  place = λ t. outside;
}

booted-IsOwned :
    {D W : Type 0} (b0 b1 : Bytes) (n : ℕ) (d : Nvs D W)
    → length b0 ≡ 65
    → length b1 ≡ 65
    → IsOwned (booted b0 b1 n d)
booted-IsOwned b0 b1 n d l0 l1 = record {
  setup = record { b0 = b0; b1 = b1; attrs_is = refl; size0 = l0; size1 = l1 };
  single = λ t u p q. absurd (p refl);
  own = λ t cl l got p. absurd cc;
}

-- The attributes when the form is received
Own-encode :
    {attrs : List Attribute} {l : Post} (v w : Bytes)
    → IsValue v
    → IsValue w
    → Own attrs l (encode (setup_form v w))
    → (b0 b1 : Bytes) × (attrs ≡ put (ssid_attribute b0) v ∷ put (password_attribute b1) w ∷ [])
Own-encode {attrs} {l} v w hv hw o =
    let (i, value_start, name, ran) =
      post_bytes_fields (setup_form v w) (wifi_setup_attrib o.b0 o.b1) 0 0 o.stack o.stack_size
        (o.size0, (o.size1, tt)) (setup_fields v w o.b0 o.b1 hv hw) in
    (o.b0, o.b1, ap (λ p. p.attributes) (some_inv (sym o.ran ∙ ran)))

module _ {C D W : Type 0} (settings : Settings W) (net : Net W) (call : Call C W) (reboot : W → W)
    (pages : List (Page C)) (sock : ℕ → ℕ) where
  abbrev leave : ℕ → ℤ → List Attribute → Nvs D W → SetUp D W
  leave = leave_form settings net call reboot pages sock

  -- Whatever threads post forms since the start, whatever they receive and whatever fails: where
  -- each enters only while all others are outside, a thread that has received the form of a SSID
  -- and a password of at most 64 bytes each, and leaves the loop with 0, stores these two; where
  -- the password could be stored and the home page be built, the device then reboots.
  pub alone-stored :
      (b0 b1 : Bytes) (n : ℕ) (d : Nvs D W) (s : Forms D W) (t cl : ℕ) (l : Post) (v w : Bytes)
      (r0 r1 shown : ℤ) (w1 w2 w3 : W)
      → length b0 ≡ 65
      → length b1 ≡ 65
      → AloneRun leave (booted b0 b1 n d) s
      → s.place t ≡ reads cl l (encode (setup_form v w))
      → IsValue v
      → IsValue w
      → settings.save_one settings_id_wifi_ssid v s.nvs.world ≡ (r0, w1)
      → settings.save_one settings_id_wifi_psk w w1 ≡ (r1, w2)
      → is_neg r1 ≡ false
      → display_home net call pages (sock t) w2 ≡ some (shown, w3)
      → leave t (pos 0) s.attributes s.nvs ≡ done r1 (record s.nvs { world = reboot w3 })
  unfolding leave_form
  alone-stored b0 b1 n d s t cl l v w r0 r1 shown w1 w2 w3 l0 l1 run p hv hw e0 e1 good home =
      let h = run-IsOwned run (booted-IsOwned b0 b1 n d l0 l1) in
      let (c0, c1, filled) = Own-encode v w hv hw (h.own t cl l (encode (setup_form v w)) p) in
      ap (λ a. post_values settings net call reboot pages (sock t) a s.nvs) filled
      ∙ post_values-stored settings net call reboot pages (sock t) (put (ssid_attribute c0) v)
          (put (password_attribute c1) w) v w s.nvs r0 r1 shown w1 w2 w3
          (c_str-put (ssid_attribute c0) v hv.0) (c_str-put (password_attribute c1) w hw.0) e0 e1
          good home
