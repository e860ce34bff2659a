-- ===== src/Nvs/Settings/Kept.antt =====
-- What a flash that works gives back of the settings.
use hydro_logger.Prelude.{
  ℕ, ◌≡◌, refl, ap, sym, ◌∙◌, ℤ, Bool, true, false, Option, some, if◌then◌else◌,
}
use mathlib.Core.Path.{subst}
use hydro_logger.Nvs.Settings.{
  Store, PortalConfig, value_or, get_device_code, get_water_level_offset, get_voltage_k,
  set_device_code, save_portal_config, write_config,
}

-- A flash that works opens, commits, gives back what was written last under a key and leaves the
-- other keys.
pub record StoreLaws (store : Store) : Type 0 where
  pub opened : (f : store.Flash) → store.opens f ≡ true
  pub committed : (f : store.Flash) → (store.commit f).0 ≡ true
  pub code_commit : (f : store.Flash) → store.read_code (store.commit f).1 ≡ store.read_code f
  pub offset_commit : (f : store.Flash) → store.read_offset (store.commit f).1 ≡ store.read_offset f
  pub k_commit : (f : store.Flash) → store.read_k (store.commit f).1 ≡ store.read_k f
  pub code_code : (n : ℕ) (f : store.Flash) → store.read_code (store.write_code n f) ≡ some n
  pub code_offset :
      (z : ℤ) (f : store.Flash) → store.read_code (store.write_offset z f) ≡ store.read_code f
  pub code_k : (n : ℕ) (f : store.Flash) → store.read_code (store.write_k n f) ≡ store.read_code f
  pub offset_code :
      (n : ℕ) (f : store.Flash) → store.read_offset (store.write_code n f) ≡ store.read_offset f
  pub offset_offset :
      (z : ℤ) (f : store.Flash) → store.read_offset (store.write_offset z f) ≡ some z
  pub offset_k :
      (n : ℕ) (f : store.Flash) → store.read_offset (store.write_k n f) ≡ store.read_offset f
  pub k_code : (n : ℕ) (f : store.Flash) → store.read_k (store.write_code n f) ≡ store.read_k f
  pub k_offset : (z : ℤ) (f : store.Flash) → store.read_k (store.write_offset z f) ≡ store.read_k f
  pub k_k : (n : ℕ) (f : store.Flash) → store.read_k (store.write_k n f) ≡ some n

-- A value that is saved if it is selected.
abbrev pub selected : {A : Type 0} → Bool → A → A → A
selected save new old = if save then new else old

-- What is read of a flash that a selected write may have changed.
read_kept :
    {F A : Type 0} (read : F → A) (save : Bool) (g f : F)
    → read g ≡ read f
    → read (if save then g else f) ≡ read f
read_kept read true g f p = p
read_kept read false g f p = refl

read_selected :
    {F A : Type 0} (read : F → Option A) (save : Bool) (v : A) (g f : F)
    → read g ≡ some v
    → read (if save then g else f) ≡ selected save (some v) (read f)
read_selected read true v g f p = p
read_selected read false v g f p = refl

value_selected :
    {A : Type 0} (defv : A) (save : Bool) (v : A) (o : Option A)
    → value_or defv (selected save (some v) o) ≡ selected save v (value_or defv o)
value_selected defv true v o = refl
value_selected defv false v o = refl

module _ (store : Store) (laws : StoreLaws store) where
  -- The settings after a save.
  pub record Saved (cfg : PortalConfig) (f g : store.Flash) : Type 0 where
    pub code :
        (defv : ℕ)
        → get_device_code store defv g
          ≡ selected cfg.save_code cfg.dev_code (get_device_code store defv f)
    pub offset :
        (defv : ℤ)
        → get_water_level_offset store defv g
          ≡ selected cfg.save_offset cfg.wl_offset (get_water_level_offset store defv f)
    pub k :
        (defv : ℕ)
        → get_voltage_k store defv g ≡ selected cfg.save_k cfg.vol_k (get_voltage_k store defv f)

  -- The flash after the first and after the second of the writes.
  after_code : PortalConfig → store.Flash → store.Flash
  after_code cfg f = if cfg.save_code then store.write_code cfg.dev_code f else f

  after_offset : PortalConfig → store.Flash → store.Flash
  after_offset cfg f =
      if cfg.save_offset
      then store.write_offset cfg.wl_offset (after_code cfg f)
      else after_code cfg f

  code_written :
      (cfg : PortalConfig) (f : store.Flash)
      → store.read_code (write_config store cfg f)
        ≡ selected cfg.save_code (some cfg.dev_code) (store.read_code f)
  unfolding after_code after_offset
  code_written cfg f =
      read_kept store.read_code cfg.save_k _ (after_offset cfg f) (laws.code_k _ _)
      ∙ (read_kept store.read_code cfg.save_offset _ (after_code cfg f) (laws.code_offset _ _)
          ∙ read_selected store.read_code cfg.save_code cfg.dev_code _ f (laws.code_code _ _))

  offset_written :
      (cfg : PortalConfig) (f : store.Flash)
      → store.read_offset (write_config store cfg f)
        ≡ selected cfg.save_offset (some cfg.wl_offset) (store.read_offset f)
  unfolding after_code after_offset
  offset_written cfg f =
      read_kept store.read_offset cfg.save_k _ (after_offset cfg f) (laws.offset_k _ _)
      ∙ (read_selected store.read_offset cfg.save_offset cfg.wl_offset _ (after_code cfg f)
            (laws.offset_offset _ _)
          ∙ ap (selected cfg.save_offset (some cfg.wl_offset))
              (read_kept store.read_offset cfg.save_code _ f (laws.offset_code _ _)))

  k_written :
      (cfg : PortalConfig) (f : store.Flash)
      → store.read_k (write_config store cfg f)
        ≡ selected cfg.save_k (some cfg.vol_k) (store.read_k f)
  unfolding after_code after_offset
  k_written cfg f =
      read_selected store.read_k cfg.save_k cfg.vol_k _ (after_offset cfg f) (laws.k_k _ _)
      ∙ ap (selected cfg.save_k (some cfg.vol_k)) (
          read_kept store.read_k cfg.save_offset _ (after_code cfg f) (laws.k_offset _ _)
          ∙ read_kept store.read_k cfg.save_code _ f (laws.k_code _ _))

  saved_lem :
      (cfg : PortalConfig) (f : store.Flash)
      → Saved cfg f (store.commit (write_config store cfg f)).1
  unfolding get_device_code get_water_level_offset get_voltage_k
  saved_lem cfg f = record {
    code = λ defv.
        ap (value_or defv) (laws.code_commit _ ∙ code_written cfg f)
        ∙ value_selected defv cfg.save_code _ _;
    offset = λ defv.
        ap (value_or defv) (laws.offset_commit _ ∙ offset_written cfg f)
        ∙ value_selected defv cfg.save_offset _ _;
    k = λ defv.
        ap (value_or defv) (laws.k_commit _ ∙ k_written cfg f) ∙ value_selected defv cfg.save_k _ _;
  }

  -- On a flash that works, `savePortalConfig` answers true; a setting that is selected then reads as it
  -- was given, and each of the others as before.
  pub save_portal_config-Saved :
      (cfg : PortalConfig) (f : store.Flash)
      → ((save_portal_config store cfg f).0 ≡ true) × Saved cfg f (save_portal_config store cfg f).1
  unfolding save_portal_config
  save_portal_config-Saved cfg f =
      let done : save_portal_config store cfg f ≡ store.commit (write_config store cfg f) =
        λ i. if laws.opened f i then store.commit (write_config store cfg f) else (false, f) in
      (
        ap (λ r. r.0) done ∙ laws.committed _,
        subst (λ r. Saved cfg f r.1) (sym done) (saved_lem cfg f),
      )

  pub code_set :
      (code defv : ℕ) (f : store.Flash)
      → get_device_code store defv (set_device_code store code f) ≡ code
  unfolding get_device_code set_device_code
  code_set code defv f =
      (λ i. value_or defv (
        store.read_code
          (if laws.opened f i then (store.commit (store.write_code code f)).1 else f)))
      ∙ ap (value_or defv) (laws.code_commit _ ∙ laws.code_code code f)
