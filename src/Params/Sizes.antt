-- ===== src/Params/Sizes.antt =====
-- The size of all parameters that params_manager::final_init keeps and compares
-- (PAC/common/param_ex.cpp).
use ptusa_main.Common.{
  ℕ, ◌<◌, ◌≡◌, refl, sym, ap, ◌∙◌, inl, inr, true, ◌==◌, Bool-cases, ==_iff, if◌then◌else◌, arith,
}
use ptusa_main.Plant.{word}
use ptusa_main.Params.{Bytes, MemoryRange, ParamsManager, c_last_idx_offset}
use ptusa_main.Params.Memory.{copy_bytes, is_in_range, read_range, write_range, to_bytes, of_bytes}
use ptusa_main.Params.Store.{
  save, no_bytes, read_last_idx, write_last_idx, final_init, reset_to_default,
}

-- The block of the other memory that the constructor takes.
abbrev pub crc_range : MemoryRange
crc_range = record { has_memory = true; start_pos = 0; size = 10 }

-- A word that is written to it is read back.
read_crc-write_crc :
    (v : ℕ) (nvram : Bytes)
    → v < word
    → of_bytes (
        read_range crc_range
          (write_range crc_range (to_bytes v) 4 c_last_idx_offset nvram)
          4
          c_last_idx_offset
          no_bytes)
      ≡ v
unfolding read_range write_range is_in_range copy_bytes of_bytes to_bytes
read_crc-write_crc v nvram h = omega (arith, h)

read_last_idx-final_init :
    (set_defaults : Bytes → Bytes) (m : ParamsManager)
    → m.crc_mem ≡ crc_range
    → m.last_idx < word
    → read_last_idx (final_init set_defaults m) ≡ m.last_idx
unfolding final_init read_last_idx reset_to_default save write_last_idx
read_last_idx-final_init d m c h = elim (Bool-cases (read_last_idx m == m.last_idx)) [
  | inl e ↦ rw e ((==_iff (read_last_idx m) m.last_idx).0 e)
  | inr e ↦ rw e (
      ap
        (λ r. of_bytes (
          read_range r (write_range r (to_bytes m.last_idx) 4 c_last_idx_offset m.nvram) 4
            c_last_idx_offset no_bytes))
        c
      ∙ read_crc-write_crc m.last_idx m.nvram h)
]

-- The number depends on the other memory alone, which final_init does not exchange.
last_idx_of :
    (n m : ParamsManager)
    → n.crc_mem ≡ m.crc_mem
    → n.nvram ≡ m.nvram
    → read_last_idx n ≡ read_last_idx m
unfolding read_last_idx
last_idx_of n m e f = rw (e, f) refl

crc_mem-final_init : (d : Bytes → Bytes) (m : ParamsManager) → (final_init d m).crc_mem ≡ m.crc_mem
unfolding final_init reset_to_default save write_last_idx
crc_mem-final_init d m = ground arith

-- Where final_init has run on the block that the constructor takes of the other memory, with a size
-- of less than 2 ^ 32, and the controller starts again with that memory as it was left, final_init
-- changes nothing if the size of all parameters is the same, and notes the new size and sets all
-- parameters to their defaults if it is not.
pub final_init_again :
    (set_defaults others : Bytes → Bytes) (m n : ParamsManager)
    → m.crc_mem ≡ crc_range
    → n.crc_mem ≡ m.crc_mem
    → n.nvram ≡ (final_init set_defaults m).nvram
    → m.last_idx < word
    → final_init others n
      ≡ (if n.last_idx == m.last_idx then n else reset_to_default others (write_last_idx n))
unfolding final_init
final_init_again d o m n c e f h =
    let kept : read_last_idx n ≡ m.last_idx =
      last_idx_of n (final_init d m) (e ∙ sym (crc_mem-final_init d m)) f
      ∙ read_last_idx-final_init d m c h in
    ap (λ k. if k == n.last_idx then n else reset_to_default o (write_last_idx n)) kept
    ∙ ap (λ b. if b then n else reset_to_default o (write_last_idx n)) (ground arith)
