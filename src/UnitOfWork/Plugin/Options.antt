-- ===== src/UnitOfWork/Plugin/Options.antt =====
-- unitofwork/plugin.go: `PluginConfig` and its options, and `registerDependencies`, whose mapping is
-- listed in the order in which its map is ranged over.
use toolkit.Prelude.{Bool, true, List, [], ◌∷◌, Bytes}
use toolkit.UnitOfWork.Config.{Config, default_config}
use toolkit.UnitOfWork.Dependency.{DependencyManager, register_dependency}
use toolkit.UnitOfWork.Entity.{EntityType}
use toolkit.UnitOfWork.State.{UnitOfWork}

-- "unitofwork"
abbrev pub default_key : Bytes
default_key = b'u' ∷ b'n' ∷ b'i' ∷ b't' ∷ b'o' ∷ b'f' ∷ b'w' ∷ b'o' ∷ b'r' ∷ b'k' ∷ []

pub record PluginConfig : Type 0 where
  pub unit_of_work_config : Config
  pub auto_manage : Bool
  pub context_key : Bytes
  pub auto_dependency_registration : Bool
  pub dependency_mapping : List (EntityType × List EntityType)

abbrev pub default_plugin_config : PluginConfig
default_plugin_config = record {
  unit_of_work_config = default_config;
  auto_manage = true;
  context_key = default_key;
  auto_dependency_registration = true;
  dependency_mapping = [];
}

abbrev pub PluginOption : Type 0
PluginOption = PluginConfig → PluginConfig

unfoldable pub with_plugin_auto_manage : Bool → PluginOption
with_plugin_auto_manage enabled c = record c { auto_manage = enabled }

unfoldable pub with_plugin_context_key : Bytes → PluginOption
with_plugin_context_key key c = record c { context_key = key }

unfoldable pub with_plugin_unit_of_work_config : Config → PluginOption
with_plugin_unit_of_work_config config c = record c { unit_of_work_config = config }

unfoldable pub with_plugin_dependency_mapping : List (EntityType × List EntityType) → PluginOption
with_plugin_dependency_mapping mapping c = record c { dependency_mapping = mapping }

unfoldable pub new_plugin_config : PluginConfig → List PluginOption → PluginConfig
new_plugin_config c [] = c
new_plugin_config c (option ∷ options) = new_plugin_config (option c) options

-- `registerDependencies`
unfoldable pub register_all : EntityType → List EntityType → DependencyManager → DependencyManager
unfolding register_dependency
register_all dependent [] dm = dm
register_all dependent (t ∷ ts) dm = register_all dependent ts (register_dependency dependent t dm)

unfoldable pub register_mapping :
    List (EntityType × List EntityType) → DependencyManager → DependencyManager
unfolding register_all
register_mapping [] dm = dm
register_mapping ((dependent, ts) ∷ mapping) dm =
    register_mapping mapping (register_all dependent ts dm)

unfoldable pub register_dependencies : PluginConfig → UnitOfWork → UnitOfWork
unfolding register_mapping
register_dependencies p u = record u {
  dependency_manager = register_mapping p.dependency_mapping u.dependency_manager;
}
