-- ===== src/Operation/Mode.antt =====
-- operation::state_idx of PAC/common/operation_mngr.h. The numbers 4 to 9 name no state.
use ptusa_main.Common.{ℕ, Bool, ◌≡◌, refl, ◌≢◌, ◌==◌, if◌then◌else◌, arith}

pub data Mode : Type 0 where
  idle run pause stop starting pausing unpausing stopping completing : Mode

abbrev pub mode_idx : Mode → ℕ
mode_idx idle = 0
mode_idx run = 1
mode_idx pause = 2
mode_idx stop = 3
mode_idx starting = 10
mode_idx pausing = 11
mode_idx unpausing = 12
mode_idx stopping = 13
mode_idx completing = 14

abbrev pub is_mode : Mode → Mode → Bool
is_mode m k = mode_idx m == mode_idx k

-- states[ m ] = x
abbrev pub update {ℓ} : {A : Type ℓ} → Mode → A → (Mode → A) → Mode → A
update m x f k = if is_mode m k then x else f k

pub update_self {ℓ} : {A : Type ℓ} (m : Mode) (x : A) (f : Mode → A) → update m x f m ≡ x
update_self idle x f = refl
update_self _ x f = refl

mode_idx-injective : (m k : Mode) → mode_idx m ≡ mode_idx k → m ≡ k
mode_idx-injective m k h = ground arith

pub update_ne {ℓ} : {A : Type ℓ} (m k : Mode) (x : A) (f : Mode → A) → m ≢ k → update m x f k ≡ f k
update_ne m k x f h = ground (arith, mode_idx-injective m k)

pub Mode-discrete : Discrete Mode
Mode-discrete = hlevel
