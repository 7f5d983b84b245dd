-- ===== src/Portal/Received.antt =====
-- A thread that receives a form of src/ob_captive_portal.c, among the threads of the server.
use onboarding.Base.{
  ℕ, suc, ◌+◌, ◌≤◌, ◌≡◌, arith, refl, sym, ap, ◌∙◌, true, false, some, List, [], ◌∷◌, ◌++◌, ℤ,
  Bytes, All, length, ltb, ◌==◌, ==-refl,
}
use onboarding.Nvs.{Nvs}
use onboarding.Web.Post.Rounds.{Attribute, Post, initial, post_byte}
use onboarding.Web.Post.Form.{encode, post_bytes, step_inv, at_name}
use onboarding.Web.Post.Fields.{assign_all, IsField, IsSized, post_bytes_fields}
use onboarding.Portal.Setup.{SetUp}
use onboarding.Portal.Forms.{
  reads, Forms, moved, receives, Run, here, and_then, AloneRun, start, after,
}
use mathlib.Core.List.{append_assoc, append-nil}
use onboarding.Portal.Buffers.{some_inv}

-- What is known when a thread has received more bytes
record Received {D W : Type 0} (leave : ℕ → ℤ → List Attribute → Nvs D W → SetUp D W)
    (s0 s : Forms D W) (t cl : ℕ) (l : Post) (got : Bytes) : Type 0 where
  pub v : Forms D W
  pub run : AloneRun leave s0 v
  pub place_is : v.place t ≡ reads cl l got
  pub attributes_is : v.attributes ≡ l.attributes
  pub nvs_is : v.nvs ≡ s.nvs
  pub length_is : v.content_length ≡ s.content_length
  pub others : (u : ℕ) → (u == t) ≡ false → v.place u ≡ s.place u

reads_same :
    {cl cl' : ℕ} {l l' : Post} {got got' : Bytes}
    → cl ≡ cl'
    → l ≡ l'
    → got ≡ got'
    → reads cl l got ≡ reads cl' l' got'
reads_same e f g = cc

ltb-sum : (cl n m : ℕ) → cl + suc n ≤ m → ltb cl m ≡ true
ltb-sum cl n m h = ground arith

module _ {D W : Type 0} {leave : ℕ → ℤ → List Attribute → Nvs D W → SetUp D W} where
  -- A thread whose locals accept the bytes `bs` may receive them at once.
  receive_all :
      (s0 s : Forms D W) (t cl : ℕ) (l l' : Post) (got bs : Bytes)
      → AloneRun leave s0 s
      → s.place t ≡ reads cl l got
      → s.attributes ≡ l.attributes
      → cl + length bs ≤ s.content_length
      → post_bytes l bs ≡ some l'
      → Received leave s0 s t (cl + length bs) l' (got ++ bs)
  receive_all s0 s t cl l l' got [] r p a room e = record {
    v = s;
    run = r;
    place_is = p ∙ reads_same (omega arith) (some_inv e) (sym (append-nil got));
    attributes_is = a ∙ ap (λ q. q.attributes) (some_inv e);
    nvs_is = refl;
    length_is = refl;
    others = λ u d. refl;
  }
  receive_all s0 s t cl l l' got (b ∷ bs) r p a room e =
      let (m, now, later) = step_inv (post_byte l b) bs e in
      let s1 : Forms D W = record s {
        attributes = m.attributes;
        place = moved s t (reads (suc cl) m (got ++ b ∷ []));
      } in
      let q =
        receive_all s0 s1 t (suc cl) m l' (got ++ b ∷ []) bs
          (after r
            (receives t cl b l m got p (ltb-sum cl (length bs) s.content_length room)
              (ap (λ x. post_byte (record l { attributes = x }) b) a ∙ now))
            tt)
          (rw (==-refl t) refl) refl (omega (arith, room)) later in
      record {
        v = q.v;
        run = q.run;
        place_is = q.place_is ∙ reads_same (omega arith) refl (append_assoc got (b ∷ []) bs);
        attributes_is = q.attributes_is;
        nvs_is = q.nvs_is;
        length_is = q.length_is;
        others = λ u d. q.others u d ∙ rw d refl;
      }

  pub run_alone : {s v : Forms D W} → AloneRun leave s v → Run leave s v
  run_alone start = here
  run_alone (after r st o) = and_then (run_alone r) st

  pub run_join : {s u v : Forms D W} → Run leave s u → Run leave u v → Run leave s v
  run_join r here = r
  run_join r (and_then q st) = and_then (run_join r q) st

-- What is known when a thread has entered and received the fields `fs`
pub record Posting {D W : Type 0} (leave : ℕ → ℤ → List Attribute → Nvs D W → SetUp D W)
    (s0 s : Forms D W) (t n : ℕ) (fs : List (Bytes × Bytes)) : Type 0 where
  pub v : Forms D W
  pub l : Post
  pub run : AloneRun leave s0 v
  pub place_is : v.place t ≡ reads (length (encode fs)) l (encode fs)
  pub attributes_is : v.attributes ≡ assign_all fs s.attributes
  pub nvs_is : v.nvs ≡ s.nvs
  pub length_is : v.content_length ≡ n
  pub others : (u : ℕ) → (u == t) ≡ false → v.place u ≡ s.place u

-- The state behind a request with the Content-Length `n`, before its first byte
abbrev pub entered : {D W : Type 0} → Forms D W → ℕ → ℕ → Bytes → Forms D W
entered s t n stack = record s {
  content_length = n;
  place = moved s t (reads 0 (initial stack s.attributes) []);
}

pub posting :
    {D W : Type 0} {leave : ℕ → ℤ → List Attribute → Nvs D W → SetUp D W} (s0 s : Forms D W)
    (t n : ℕ) (stack : Bytes) (fs : List (Bytes × Bytes))
    → AloneRun leave s0 (entered s t n stack)
    → length stack ≡ 32
    → length (encode fs) ≤ n
    → All IsSized s.attributes
    → All (IsField s.attributes) fs
    → Posting leave s0 s t n fs
posting {leave = leave} s0 s t n stack fs r size room sized fields =
    let (i, value_start, name, ran) =
      post_bytes_fields fs s.attributes 0 0 stack size sized fields in
    let s1 = entered s t n stack in
    let l = at_name (assign_all fs s.attributes) i value_start 0 name in
    let q =
      receive_all {leave = leave} s0 s1 t 0 (initial stack s.attributes) l [] (encode fs) r
        (rw (==-refl t) refl) refl (omega (arith, room)) ran in
    record {
      v = q.v;
      l = l;
      run = q.run;
      place_is = q.place_is ∙ reads_same (omega arith) refl refl;
      attributes_is = q.attributes_is;
      nvs_is = q.nvs_is;
      length_is = q.length_is;
      others = λ u d. q.others u d ∙ rw d refl;
    }
