-- ===== src/Config.antt =====
-- src/forge/config.py: the settings of sub-pools. Paths and the environment are not modelled.
use xforgebox.Base.{String, Option, none, some, List, [], ◌∷◌, if◌then◌else◌, ◌==◌, string_eq}
use xforgebox.Models.{PoolConfig}

pub record ForgeConfig : Type 0 where
  pub default_pool : PoolConfig
  pub per_image_pool : List (String × PoolConfig)

-- `dict.get`
unfoldable pub get : String → List (String × PoolConfig) → Option PoolConfig
unfolding string_eq
get key [] = none
get key ((k, v) ∷ rest) = if k == key then some v else get key rest

unfoldable pub pool_config_for : ForgeConfig → String → PoolConfig
unfolding get
pool_config_for c image = elim (get image c.per_image_pool) [
  | none ↦ record c.default_pool { image = image }
  | some override ↦ override
]
