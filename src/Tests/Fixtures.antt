-- ===== src/Tests/Fixtures.antt =====
-- Concrete sockets, pages and requests for src/ob_web_server.c.
use onboarding.Base.{
  ℕ, ◌≡◌, ◌≢◌, refl, sym, ap, ◌∙◌, ◌≤◌, Bool, true, false, ◌&&◌, not, some, [], ◌∷◌, ◌++◌, ℤ, pos,
  negsuc, arith, Bytes, codes, length, take, take_of_le, All, ◌==◌,
}
use onboarding.Web.Net.{Net}
use onboarding.Web.Page.{Page}
use onboarding.Web.Send.{Sends}
use onboarding.Web.Request.Serve.{Call}
use onboarding.Web.Request.Path.{IsPathByte}

-- The world is what was sent; a send takes all its bytes.
abbrev pub test_net : Net Bytes
test_net = record { send = λ sock buf w. (pos (length buf), w ++ buf); close = λ sock w. w }

-- A callback leaves its number and its client in the world.
abbrev pub test_call : Call ℕ Bytes
test_call cb client page w = (pos 0, w ++ (cb ∷ client ∷ []))

abbrev pub failing_call : Call ℕ Bytes
failing_call cb client page w = (negsuc 4, w)

abbrev pub test_page : Page ℕ
test_page = record {
  pathname = codes "/a.html";
  title = codes "A";
  flags = 1;
  content_length = 0;
  get_callback = some 7;
  post_callback = some 8;
}

-- A test on every byte, and what it shows.
abbrev pub every : (ℕ → Bool) → Bytes → Bool
every f [] = true
every f (c ∷ cs) = f c && every f cs

&&-true : (a b : Bool) → (a && b) ≡ true → (a ≡ true) × (b ≡ true)
&&-true true b h = (refl, h)
&&-true false b h = cc

pub every-All :
    {P : ℕ → Type 0} (f : ℕ → Bool) (cs : Bytes)
    → ((c : ℕ) → f c ≡ true → P c)
    → every f cs ≡ true
    → All P cs
every-All f [] h e = tt
every-All f (c ∷ cs) h e =
    let both = &&-true (f c) (every f cs) e in (h c both.0, every-All f cs h both.1)

abbrev pub is_line_byte : ℕ → Bool
is_line_byte c = not (c == 13) && not (c == 10)

pub line_bytes :
    (cs : Bytes) → every is_line_byte cs ≡ true → All (λ c. (c ≢ b'\r') × (c ≢ b'\n')) cs
line_bytes cs e = every-All is_line_byte cs (λ c h. ground arith) e

abbrev pub is_path_byte : ℕ → Bool
is_path_byte c = not (c == 32) && not (c == 0)

pub path_bytes : (cs : Bytes) → every is_path_byte cs ≡ true → All IsPathByte cs
path_bytes cs e = every-All is_path_byte cs (λ c h. ground arith) e

abbrev reported : ℤ → Bytes → ℤ × Bytes
reported rc w = (rc, w)

same_length :
    (w buf w' : Bytes) (n : ℕ)
    → reported (pos (length buf)) (w ++ buf) ≡ (pos n, w')
    → (length buf ≡ n) × (w ++ buf ≡ w')
same_length w buf w' n e = (cc, cc)

whole :
    (buf w w' : Bytes) (n : ℕ)
    → 1 ≤ length buf
    → reported (pos (length buf)) (w ++ buf) ≡ (pos n, w')
    → (1 ≤ n) × (n ≤ length buf) × (w' ≡ w ++ take n buf)
whole buf w w' n one e =
    let (size, after) = same_length w buf w' n e in
    (
      omega (arith, one, size),
      omega (arith, size),
      sym after ∙ ap (λ t. w ++ t) (sym (take_of_le n buf (omega (arith, size)))),
    )

pub test_net-Sends : Sends test_net 3 (λ w. w)
test_net-Sends = record {
  sent = λ buf w w' n one fits e. whole buf w w' n one e;
  failed = λ buf w w' e h. cc;
}
