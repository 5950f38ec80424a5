-- ===== src/Tests/Parameters.antt =====
-- The theorems on the parameters at a concrete input.
use ptusa_main.Common.{ℕ, ◌≡◌, refl, List, [], ◌∷◌, arith}
use ptusa_main.Params.{Bytes, ParamsManager}
use ptusa_main.Params.Memory.{get_memory_block, new_memory_manager}
use ptusa_main.Params.Store.{new_params_manager, get_params_data, init, final_init}
use ptusa_main.Params.Saved.{
  SavedParams, is_index, get, save_value, new_saved_params, saved_params_of,
}
use ptusa_main.Params.Restart.{whole_range}
use ptusa_main.Params.Sizes.{crc_range, final_init_again}
use ptusa_main.Params.Blocks.{allocate, keep_block, AllSmall, get-init-save_value_of}

abbrev erased : Bytes
erased k = 255

abbrev fresh : ParamsManager
fresh = record {
  params = erased;
  last_idx = 12;
  params_mem = whole_range;
  crc_mem = crc_range;
  eeprom = erased;
  nvram = erased;
}

abbrev two_arrays : List ℕ
two_arrays = 1 ∷ 2 ∷ []

two_arrays-AllSmall : AllSmall two_arrays
two_arrays-AllSmall = AllSmall.small (omega arith) (AllSmall.small (omega arith) AllSmall.no_counts)

abbrev first_array : SavedParams
first_array = record { start_pos = 0; count = 1 }

abbrev second_array : SavedParams
second_array = record { start_pos = 4; count = 2 }

get-init-save_value_of_example :
    get second_array 0 2 (init (save_value second_array 2 70000 fresh)) ≡ 70000
unfolding allocate keep_block new_saved_params saved_params_of get_params_data new_params_manager
    get_memory_block new_memory_manager is_index
get-init-save_value_of_example =
    get-init-save_value_of erased erased two_arrays fresh second_array second_array 1 1 0 2 2 70000
      two_arrays-AllSmall refl refl refl refl refl (omega arith)

abbrev started : ParamsManager
started = record fresh { nvram = (final_init (λ b. b) fresh).nvram }

final_init_again_example : final_init (λ b. erased) started ≡ started
final_init_again_example =
    final_init_again (λ b. b) (λ b. erased) fresh started refl refl refl (omega arith)
