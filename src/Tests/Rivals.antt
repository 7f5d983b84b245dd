-- ===== src/Tests/Rivals.antt =====
-- Two concrete forms of src/ob_captive_portal.c on two threads.
use onboarding.Base.{
  ℕ, ◌≡◌, refl, true, none, List, [], ◌∷◌, ◌++◌, replicate, ℤ, pos, minus_one, arith, Bytes, codes,
}
use onboarding.Nvs.{Settings, Nvs}
use onboarding.Web.Send.{sendall}
use onboarding.Web.Register.{display_home}
use onboarding.Web.Request.Serve.{display_404, http1_1_404}
use onboarding.Web.Post.Rounds.{Attribute}
use onboarding.Portal.Setup.{SetUp, done, setup_form, IsValue, setup_fields}
use onboarding.Portal.Forms.{Forms, enters, start, after, leave_form}
use onboarding.Portal.Alone.{booted, alone-stored}
use onboarding.Portal.Received.{Posting, posting}
use onboarding.Portal.Rivals.{Mixed, rival-stored}
use onboarding.Tests.Fixtures.{test_net, test_call}

abbrev settings : Settings Bytes
settings = record {
  subsys_init = λ w. w;
  load_one = λ k n w. (pos 0, []);
  save_one = λ k v w. (pos 0, w ++ v);
  delete = λ k w. (pos 0, w);
  load_subtree_direct = λ cb w. (pos 0, w);
}

abbrev boot : Forms ℕ Bytes
boot =
    booted (replicate 65 0) (replicate 65 0) 0
      (record { nvs_data_inited = true; mirror_callback = none; world = [] })

abbrev sock : ℕ → ℕ
sock t = t

abbrev leave : ℕ → ℤ → List Attribute → Nvs ℕ Bytes → SetUp ℕ Bytes
leave = leave_form settings test_net test_call (λ w. 255 ∷ w) [] sock

v-IsValue : IsValue (codes "v")
v-IsValue = (((omega arith, omega arith, omega arith), tt), omega arith)

w-IsValue : IsValue (codes "w")
w-IsValue = (((omega arith, omega arith, omega arith), tt), omega arith)

x-IsValue : IsValue (codes "x")
x-IsValue = (((omega arith, omega arith, omega arith), tt), omega arith)

-- The first of the slots' threads has received a form.
received : Posting leave boot boot 1 20 (setup_form (codes "v") (codes "w"))
received =
    posting boot boot 1 20 (replicate 32 9) (setup_form (codes "v") (codes "w"))
      (after start (enters 1 20 (replicate 32 9) refl refl) (λ u. refl)) refl (omega arith)
      (refl, (refl, tt))
      (setup_fields (codes "v") (codes "w") (replicate 65 0) (replicate 65 0) v-IsValue w-IsValue)

alone-stored_example :
    leave 1 (pos 0) received.v.attributes received.v.nvs
    ≡ done (pos 0) (record received.v.nvs {
      world = 255 ∷ (((received.v.nvs.world ++ codes "v") ++ codes "w") ++ http1_1_404);
    })
unfolding display_home display_404 sendall
alone-stored_example =
    alone-stored settings test_net test_call (λ w. 255 ∷ w) [] sock (replicate 65 0)
      (replicate 65 0) 0 boot.nvs received.v 1 20 received.l (codes "v") (codes "w") (pos 0) (pos 0)
      minus_one (received.v.nvs.world ++ codes "v")
      ((received.v.nvs.world ++ codes "v") ++ codes "w")
      (((received.v.nvs.world ++ codes "v") ++ codes "w") ++ http1_1_404) refl refl received.run
      received.place_is v-IsValue w-IsValue refl refl refl refl

rival-stored_example :
    Mixed leave boot 1 2
      (codes "v")
      (codes "w")
      (codes "x")
      (codes "y")
      (record boot.nvs { world = 255 ∷ (codes "xw" ++ http1_1_404) })
unfolding display_home display_404 sendall
rival-stored_example =
    rival-stored settings test_net test_call (λ w. 255 ∷ w) [] sock boot 1 2 (replicate 65 0)
      (replicate 65 0) (replicate 32 9) (replicate 32 7) (codes "v") (codes "w") (codes "x")
      (codes "y") (pos 0) (pos 0) minus_one (codes "x") (codes "xw") (codes "xw" ++ http1_1_404)
      refl refl refl refl refl refl refl refl v-IsValue w-IsValue x-IsValue (omega arith) refl refl
      refl refl
