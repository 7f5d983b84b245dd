-- ===== src/Nvs.antt =====
-- The persistent store, src/ob_nvs_data.c, over the settings subsystem of the operating system.
use onboarding.Base.{
  ℕ, ◌≡◌, refl, ◌∙◌, Bool, true, false, Option, List, [], ◌∷◌, inl, inr, ℤ, pos, is_zero, arith,
  sym, ap, Bytes, if◌then◌else◌, Bool-cases,
}

-- The settings subsystem, over the state `W` of the world.
pub record Settings (W : Type 0) : Type 0 where
  pub subsys_init : W → W
  -- `settings_load_one(name, buffer, len)`: the result and the bytes put in the buffer
  pub load_one : Bytes → ℕ → W → ℤ × Bytes
  pub save_one : Bytes → Bytes → W → ℤ × W
  pub delete : Bytes → W → ℤ × W
  -- `settings_load_subtree_direct(NULL, cb, …)`, with the key and the world as cb sees them
  pub load_subtree_direct : (Bytes → W → ℤ × W) → W → ℤ × W

-- `nvs_data_inited` and `mMirrorCallback`, with the world.
pub record Nvs (C W : Type 0) : Type 0 where
  pub nvs_data_inited : Bool
  pub mirror_callback : Option C
  pub world : W

module _ {W : Type 0} (settings : Settings W) where
  -- `ob_nvs_factory_reset_callback`
  unfoldable pub factory_reset_callback : Bytes → W → ℤ × W
  factory_reset_callback key w = settings.delete key w

module _ {C W : Type 0} (settings : Settings W) where
  pub set_mirror_callback : Option C → Nvs C W → Nvs C W
  set_mirror_callback callback s = record s { mirror_callback = callback }

  unfoldable pub data_init : Nvs C W → ℤ × Nvs C W
  data_init s =
      if s.nvs_data_inited
      then (pos 0, s)
      else (pos 0, record s { world = settings.subsys_init s.world; nvs_data_inited = true })

  unfoldable pub data_read : Bytes → ℕ → Nvs C W → ℤ × Bytes
  data_read name len s = settings.load_one name len s.world

  unfoldable pub data_write : Bytes → Bytes → Nvs C W → ℤ × Nvs C W
  data_write name buffer s =
      let (rc, w) = settings.save_one name buffer s.world in (rc, record s { world = w })

  unfoldable pub factory_reset : Nvs C W → Nvs C W
  unfolding factory_reset_callback
  factory_reset s = record s {
    world = (settings.load_subtree_direct (factory_reset_callback settings) s.world).1;
  }

  -- The settings subsystem is initialised once: a second call changes nothing, and every call
  -- succeeds and leaves the store initialised.
  pub data_init_once :
      (s : Nvs C W)
      → ((data_init s).0 ≡ pos 0)
        × ((data_init s).1.nvs_data_inited ≡ true)
        × ((data_init (data_init s).1).1 ≡ (data_init s).1)
  unfolding data_init
  data_init_once s = ground arith

-- The visit of keys that `settings_load_subtree_direct` documents: in turn, until a callback
-- reports something other than 0.
pub visit : {W : Type 0} → (Bytes → W → ℤ × W) → List Bytes → W → ℤ × W
visit cb [] w = (pos 0, w)
visit cb (k ∷ ks) w =
    let (rc, w') = cb k w in let rest = visit cb ks w' in if is_zero rc then rest else (rc, w')

-- A key of a list.
pub data Listed (j : Bytes) : List Bytes → Type 0 where
  here : {k : Bytes} {ks : List Bytes} → j ≡ k → Listed j (k ∷ ks)
  there : {k : Bytes} {ks : List Bytes} → Listed j ks → Listed j (k ∷ ks)

-- What the factory reset relies on: the keys that are stored are visited, and a deletion that
-- succeeds removes its key and stores no other.
pub record Erases {W : Type 0} (settings : Settings W) : Type 0 where
  pub keys : W → List Bytes
  pub is_stored : Bytes → W → Bool
  pub listed : (j : Bytes) (w : W) → is_stored j w ≡ true → Listed j (keys w)
  pub visits :
      (cb : Bytes → W → ℤ × W) (w : W) → settings.load_subtree_direct cb w ≡ visit cb (keys w) w
  pub removed : (k : Bytes) (w : W) → is_stored k (settings.delete k w).1 ≡ false
  pub kept :
      (k j : Bytes) (w : W) → is_stored j (settings.delete k w).1 ≡ true → is_stored j w ≡ true

-- Every deletion succeeds.
abbrev pub AlwaysDeletes : {W : Type 0} → Settings W → Type 0
AlwaysDeletes {W} settings = (k : Bytes) (w : W) → (settings.delete k w).0 ≡ pos 0

Bool-≢ : false ≡ true → ⊥
Bool-≢ e = cc

module _ {W : Type 0} (settings : Settings W) (h : Erases settings) where
  visit_deletes :
      (k : Bytes) (ks : List Bytes) (w : W)
      → (settings.delete k w).0 ≡ pos 0
      → (visit (factory_reset_callback settings) (k ∷ ks) w).1
        ≡ (visit (factory_reset_callback settings) ks (settings.delete k w).1).1
  unfolding visit factory_reset_callback
  visit_deletes k ks w e = rw (e) refl

  visit-is_stored :
      (ks : List Bytes) (w : W) (j : Bytes)
      → AlwaysDeletes settings
      → h.is_stored j (visit (factory_reset_callback settings) ks w).1 ≡ true
      → (h.is_stored j w ≡ true) × (Listed j ks → ⊥)
  unfolding visit
  visit-is_stored [] w j d e = (e, λ m. elim m [ ])
  visit-is_stored (k ∷ ks) w j d e =
      let after =
        visit-is_stored ks (settings.delete k w).1 j d
          (sym (ap (λ x. h.is_stored j x) (visit_deletes k ks w (d k w))) ∙ e) in
      (
        h.kept k j w after.0,
        λ m. elim m [
          | here i ↦ Bool-≢ (
              sym (h.removed k w)
              ∙ sym (ap (λ x. h.is_stored x (settings.delete k w).1) i)
              ∙ after.0)
          | there m' ↦ after.1 m'
        ],
      )

module _ {C W : Type 0} (settings : Settings W) (h : Erases settings) where
  -- After a factory reset in which every deletion succeeds, no key is stored.
  pub factory_reset-is_stored :
      (s : Nvs C W) (j : Bytes)
      → AlwaysDeletes settings
      → h.is_stored j (factory_reset settings s).world ≡ false
  unfolding factory_reset
  factory_reset-is_stored s j d =
      elim (Bool-cases (h.is_stored j (factory_reset settings s).world)) [
        | inl e ↦
            let after = visit-is_stored settings h (h.keys s.world) s.world j d (
              sym (ap (λ x. h.is_stored j x.1) (h.visits (factory_reset_callback settings) s.world))
              ∙ e) in
            elim (after.1 (h.listed j s.world after.0)) [ ]
        | inr e ↦ e
      ]
