-- ===== src/UnitOfWork/Config.antt =====
-- unitofwork/unitofwork.go: `Config` and its options.
use toolkit.Prelude.{Bool, true, false, List, [], ◌∷◌}
use toolkit.Prelude.Int.{ℤ, pos}

pub record Config : Type 0 where
  pub enable_dirty_check : Bool
  pub batch_size : ℤ
  pub enable_operation_merge : Bool
  pub max_entity_count : ℤ
  pub enable_detail_log : Bool

abbrev pub default_config : Config
default_config = record {
  enable_dirty_check = true;
  batch_size = pos 1000;
  enable_operation_merge = true;
  max_entity_count = pos 0;
  enable_detail_log = false;
}

abbrev pub ConfigOption : Type 0
ConfigOption = Config → Config

unfoldable pub with_dirty_check : Bool → ConfigOption
with_dirty_check enabled c = record c { enable_dirty_check = enabled }

unfoldable pub with_batch_size : ℤ → ConfigOption
with_batch_size size c = record c { batch_size = size }

unfoldable pub with_operation_merge : Bool → ConfigOption
with_operation_merge enabled c = record c { enable_operation_merge = enabled }

unfoldable pub with_max_entity_count : ℤ → ConfigOption
with_max_entity_count count c = record c { max_entity_count = count }

unfoldable pub with_detail_log : Bool → ConfigOption
with_detail_log enabled c = record c { enable_detail_log = enabled }

-- The loop over the options.
unfoldable pub apply_options : Config → List ConfigOption → Config
apply_options c [] = c
apply_options c (option ∷ options) = apply_options (option c) options
