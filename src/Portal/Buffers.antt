-- ===== src/Portal/Buffers.antt =====
-- The bytes of a form leave the attributes of src/ob_captive_portal.c in their shape.
use onboarding.Base.{
  ℕ, zero, suc, ◌≡◌, arith, sym, ap, subst, ◌∙◌, some, List, ◌-◌, ◌⊎◌, inl, inr, Bytes, length,
  store, length-set, >>=-eq-some,
}
use onboarding.Web.Post.Rounds.{Attribute, Post, store_value, next, post_byte}
use onboarding.Portal.Setup.{wifi_setup_attrib}

-- The attributes of the page, whatever their buffers hold
pub record IsSetup (attrs : List Attribute) : Type 0 where
  pub b0 : Bytes
  pub b1 : Bytes
  pub attrs_is : attrs ≡ wifi_setup_attrib b0 b1
  pub size0 : length b0 ≡ 65
  pub size1 : length b1 ≡ 65

store-length : (bs : Bytes) (k c : ℕ) {cs : Bytes} → store bs k c ≡ some cs → length cs ≡ length bs
store-length bs k c e = ground (arith, length-set bs k c)

pub some_inv : {A : Type 0} {x y : A} → some x ≡ some y → x ≡ y
some_inv e = cc

store_value-setup :
    (b0 b1 : Bytes) (i k c : ℕ) (attrs : List Attribute)
    → length b0 ≡ 65
    → length b1 ≡ 65
    → store_value (wifi_setup_attrib b0 b1) i k c ≡ some attrs
    → IsSetup attrs
unfolding store_value
store_value-setup b0 b1 zero k c attrs h0 h1 e =
    let (b, stored, is) = >>=-eq-some (store b0 k c) _ e in
    record {
      b0 = b;
      b1 = b1;
      attrs_is = sym (some_inv is);
      size0 = store-length b0 k c stored ∙ h0;
      size1 = h1;
    }
store_value-setup b0 b1 (suc zero) k c attrs h0 h1 e =
    let (b, stored, is) = >>=-eq-some (store b1 k c) _ e in
    record {
      b0 = b0;
      b1 = b;
      attrs_is = sym (some_inv is);
      size0 = h0;
      size1 = store-length b1 k c stored ∙ h1;
    }
store_value-setup b0 b1 (suc (suc i)) k c attrs h0 h1 e = cc

store_value-IsSetup :
    (attrs : List Attribute) (i k c : ℕ) {filled : List Attribute}
    → IsSetup attrs
    → store_value attrs i k c ≡ some filled
    → IsSetup filled
store_value-IsSetup attrs i k c {filled} h e =
    store_value-setup h.b0 h.b1 i k c filled h.size0 h.size1
      (ap (λ a. store_value a i k c) (sym h.attrs_is) ∙ e)

-- A byte leaves the attributes, or is a write into the buffer of one.
post_byte-Written :
    (l l' : Post) (c : ℕ)
    → post_byte l c ≡ next l'
    → (l'.attributes ≡ l.attributes)
      ⊎ ((store_value l.attributes l.target (l.index - l.value_start) 0 ≡ some l'.attributes)
          ⊎ (store_value l.attributes l.target (l.index - l.value_start) c ≡ some l'.attributes))
unfolding post_byte
post_byte-Written l l' c e = ground arith

pub post_byte-IsSetup :
    (l l' : Post) (c : ℕ) → post_byte l c ≡ next l' → IsSetup l.attributes → IsSetup l'.attributes
post_byte-IsSetup l l' c e h =
    let at = l.index - l.value_start in
    elim (post_byte-Written l l' c e) [
      | inl same ↦ subst IsSetup (sym same) h
      | inr (inl w) ↦ store_value-IsSetup l.attributes l.target at 0 h w
      | inr (inr w) ↦ store_value-IsSetup l.attributes l.target at c h w
    ]
