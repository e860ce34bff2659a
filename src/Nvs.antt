-- ===== src/Nvs.antt =====
-- The preferences in flash: main/common/nvs_store.hpp and nvs_store.cpp, as far as the choice of the
-- link needs them. The NVS library is a parameter.
pub mod Settings
use hydro_logger.Prelude.{ℕ, ◌≡◌, Option, none, some, ◌==◌, if◌then◌else◌}

-- `CommType`; a stored byte that is no enumerator is kept as `unknown`.
pub data CommType : Type 0 where
  sim4g dcom : CommType
  unknown : ℕ → CommType

abbrev pub to_byte : CommType → ℕ
to_byte sim4g = 0
to_byte dcom = 1
to_byte (unknown n) = n

abbrev pub of_byte : ℕ → CommType
of_byte n = if n == 0 then sim4g else if n == 1 then dcom else unknown n

-- `SimApnProfile`, likewise.
pub data ApnProfile : Type 0 where
  viettel vinaphone : ApnProfile
  other_apn_byte : ℕ → ApnProfile

abbrev pub apn_to_byte : ApnProfile → ℕ
apn_to_byte viettel = 0
apn_to_byte vinaphone = 1
apn_to_byte (other_apn_byte n) = n

abbrev pub apn_of_byte : ℕ → ApnProfile
apn_of_byte n = if n == 0 then viettel else if n == 1 then vinaphone else other_apn_byte n

-- The keys `last_com` and `sim_apn`.
pub data Key : Type 0 where
  last_comm sim_apn : Key

-- `nvs_open`, `nvs_get_u8` and `nvs_set_u8` with `nvs_commit` on a flash: a read gives nothing where
-- the namespace cannot be opened or has no such key.
pub record Nvs : Type 1 where
  pub Flash : Type 0
  pub read_u8 : Key → Flash → Option ℕ
  pub write_u8 : Key → ℕ → Flash → Flash

-- A flash that works keeps what is written.
pub record Keeps (nvs : Nvs) : Type 0 where
  pub read-write : (k : Key) (v : ℕ) (f : nvs.Flash) → nvs.read_u8 k (nvs.write_u8 k v f) ≡ some v

module _ (nvs : Nvs) where
  unfoldable pub get_u8 : Key → ℕ → nvs.Flash → ℕ
  get_u8 key defv f = elim (nvs.read_u8 key f) [ none ↦ defv | some v ↦ v ]

  unfoldable pub get_last_success_comm : CommType → nvs.Flash → CommType
  unfolding get_u8
  get_last_success_comm def f = of_byte (get_u8 last_comm (to_byte def) f)

  unfoldable pub set_last_success_comm : CommType → nvs.Flash → nvs.Flash
  set_last_success_comm t f = nvs.write_u8 last_comm (to_byte t) f

  unfoldable pub get_last_sim_apn : ApnProfile → nvs.Flash → ApnProfile
  unfolding get_u8
  get_last_sim_apn def f = apn_of_byte (get_u8 sim_apn (apn_to_byte def) f)

  unfoldable pub set_last_sim_apn : ApnProfile → nvs.Flash → nvs.Flash
  set_last_sim_apn p f = nvs.write_u8 sim_apn (apn_to_byte p) f
