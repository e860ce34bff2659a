-- ===== src/Nvs/Settings.antt =====
-- The settings of the device in the store: the rest of main/common/nvs_store.cpp.
pub mod Kept
use hydro_logger.Prelude.{
  ℕ, ◌-◌, ℤ, Bool, true, false, Option, none, some, List, ◌++◌, take, if◌then◌else◌, pos,
}
use hydro_logger.Prelude.Bytes.{codes}
use hydro_logger.Prelude.Decimal.{format_int}

-- `nvs_open` for writing, `nvs_get_*`, `nvs_set_*` and `nvs_commit` on a flash, for the keys
-- `dev_code`, `wl_off` and `vol_k`. A read gives nothing where the namespace cannot be opened or has
-- no such key.
pub record Store : Type 1 where
  pub Flash : Type 0
  pub opens : Flash → Bool
  pub read_code : Flash → Option ℕ
  pub read_offset : Flash → Option ℤ
  pub read_k : Flash → Option ℕ
  pub write_code : ℕ → Flash → Flash
  pub write_offset : ℤ → Flash → Flash
  pub write_k : ℕ → Flash → Flash
  pub commit : Flash → Bool × Flash

-- `NvsStore::PortalConfig`
pub record PortalConfig : Type 0 where
  pub save_code : Bool
  pub dev_code : ℕ
  pub save_offset : Bool
  pub wl_offset : ℤ
  pub save_k : Bool
  pub vol_k : ℕ

abbrev pub default_device_code : ℕ
default_device_code = 12

abbrev pub device_serial_prefix : List ℕ
device_serial_prefix = codes "TD_MW_"

abbrev pub value_or : {A : Type 0} → A → Option A → A
value_or defv none = defv
value_or defv (some v) = v

-- The text of `getDeviceSerial`, before it is cut.
unfoldable pub serial_text : ℕ → List ℕ
serial_text code = device_serial_prefix ++ format_int 4 (pos code)

module _ (store : Store) where
  unfoldable pub get_device_code : ℕ → store.Flash → ℕ
  get_device_code defv f = value_or defv (store.read_code f)

  unfoldable pub get_water_level_offset : ℤ → store.Flash → ℤ
  get_water_level_offset defv f = value_or defv (store.read_offset f)

  unfoldable pub get_voltage_k : ℕ → store.Flash → ℕ
  get_voltage_k defv f = value_or defv (store.read_k f)

  -- The setters of a key: what `write` does between opening and committing.
  abbrev pub set_with : (store.Flash → store.Flash) → store.Flash → store.Flash
  set_with write f = if store.opens f then (store.commit (write f)).1 else f

  unfoldable pub set_device_code : ℕ → store.Flash → store.Flash
  set_device_code code = set_with (store.write_code code)

  unfoldable pub set_water_level_offset : ℤ → store.Flash → store.Flash
  set_water_level_offset offset = set_with (store.write_offset offset)

  unfoldable pub set_voltage_k : ℕ → store.Flash → store.Flash
  set_voltage_k k = set_with (store.write_k k)

  -- Into a buffer of so many characters, the closing zero included.
  unfoldable pub get_device_serial : ℕ → store.Flash → List ℕ
  unfolding get_device_code
  get_device_serial max_len f =
      take (max_len - 1) (serial_text (get_device_code default_device_code f))

  -- The writes of `savePortalConfig`, in its order.
  abbrev pub write_config : PortalConfig → store.Flash → store.Flash
  write_config cfg f =
      let f1 = if cfg.save_code then store.write_code cfg.dev_code f else f in
      let f2 = if cfg.save_offset then store.write_offset cfg.wl_offset f1 else f1 in
      if cfg.save_k then store.write_k cfg.vol_k f2 else f2

  unfoldable pub save_portal_config : PortalConfig → store.Flash → Bool × store.Flash
  save_portal_config cfg f = if store.opens f then store.commit (write_config cfg f) else (false, f)
