-- ===== src/UnitOfWork/Tests/Plugins.antt =====
-- Statements that pass through the callbacks of the plugin.
use toolkit.Prelude.{◌≡◌, refl, ℕ, suc, true, [], ◌∷◌, none, bytes_eq}
use toolkit.Prelude.Map.{lookup}
use toolkit.UnitOfWork.Config.{default_config}
use toolkit.UnitOfWork.Execute.{is_invalid, execute_update}
use toolkit.UnitOfWork.Plugin.{Context, Statement, Hook, slice_dest, entity_item, other_item}
use toolkit.UnitOfWork.Plugin.Options.{PluginConfig, default_plugin_config, default_key}
use toolkit.UnitOfWork.Plugin.Calls.{creates}
use toolkit.UnitOfWork.Plugin.Registers.{Registers, hook, hook-Registers}
use toolkit.UnitOfWork.Plugin.Rows.{IsUpdateCallback, plugged, execute_update-plugged}
use toolkit.UnitOfWork.State.{UnitOfWork, new_unit_of_work}
use toolkit.UnitOfWork.Tests.Data.{reflect, world, gorm}

-- Two entities, and something else between them.
abbrev creating : Statement ℕ
creating = record {
  dest = slice_dest (entity_item 11 ∷ other_item ∷ entity_item 21 ∷ []);
  context = (default_key, new_unit_of_work []) ∷ [];
  world = world;
  rows_affected = 0;
  errors = [];
}

hook-Registers_example :
    Registers default_plugin_config reflect creates creating none
      (hook default_plugin_config reflect creates none creating)
hook-Registers_example = hook-Registers default_plugin_config reflect creates none creating refl

abbrev executing_unit : UnitOfWork
executing_unit = record (new_unit_of_work []) { is_executing = true }

abbrev context : Context
context = (default_key, executing_unit) ∷ []

abbrev logging : PluginConfig
logging = record default_plugin_config {
  unit_of_work_config = record default_config { enable_detail_log = true };
}

-- An update that finds no row.
abbrev no_row : ℕ → ℕ → Hook ℕ
no_row id revision s = record s { world = record s.world { db = suc s.world.db } }

no_row-IsUpdateCallback : (id revision : ℕ) → IsUpdateCallback (no_row id revision)
no_row-IsUpdateCallback id revision = record {
  keeps_dest = λ s. refl;
  keeps_context = λ s. refl;
  keeps_ids = λ s e. refl;
}

execute_update-plugged_example :
    (execute_update (plugged logging reflect context no_row (gorm 0)) 11 world).1 ≡ none
unfolding lookup new_unit_of_work is_invalid bytes_eq
execute_update-plugged_example =
    execute_update-plugged logging reflect context no_row (gorm 0) 11 world executing_unit
      no_row-IsUpdateCallback refl refl refl refl refl refl
