-- ===== src/Shell/Outcome.antt =====
-- What the command for the address of the access point prints, in src/ob_shell.c.
use onboarding.Base.{
  strncpy, printed-strncpy, printed-strncpy_long, ◌≤◌, ◌<◌, ◌≡◌, refl, ap, pos, Option, none, some,
  [], ◌∷◌, Bytes, length, IsText,
}
use onboarding.Shell.Commands.{wifi_ap_address_size, ap_address_handler}

-- An address of fewer than 16 bytes that is set is printed, then and by the command without an
-- argument.
pub ap_address_handler_set :
    (text old : Bytes)
    → IsText text
    → length text < wifi_ap_address_size
    → let (rc, out, array) = ap_address_handler (text ∷ []) old in
      (rc ≡ pos 0) × (out ≡ some text) × (ap_address_handler [] array ≡ (pos 0, some text, array))
unfolding ap_address_handler
ap_address_handler_set text old t h =
    let out = printed-strncpy 16 text h t in
    (refl, out, ap {A = Option Bytes} (λ o. (pos 0, o, strncpy 16 text)) out)

-- One of 16 bytes or more leaves an array with no NUL, which is read past its end.
ap_address_handler_long :
    (text old : Bytes)
    → IsText text
    → wifi_ap_address_size ≤ length text
    → (ap_address_handler (text ∷ []) old).1 ≡ none
unfolding ap_address_handler
ap_address_handler_long text old t h = printed-strncpy_long 16 text h t
