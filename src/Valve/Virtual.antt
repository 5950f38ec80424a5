-- ===== src/Valve/Virtual.antt =====
-- The virtual methods of class valve (PAC/common/device/valve.h), by the class of the valve, and
-- the constructors.
use ptusa_main.Common.{ℕ, Bool, true, false, ltb, if◌then◌else◌}
use ptusa_main.Common.Int.{ℤ, pos}
use ptusa_main.Device
use ptusa_main.Device.{Device, ServerCmd, set_s, set_v, set_m}
use ptusa_main.Valve.{Settings, Valve, Class, is_equal}
use ptusa_main.Valve.Base
use ptusa_main.Valve.Do1
use ptusa_main.Valve.Do2
use ptusa_main.Valve.Do1Di1Off
use ptusa_main.Valve.Do1Di1On
use ptusa_main.Valve.Do1Di2
use ptusa_main.Valve.Do2Di2
use ptusa_main.Valve.Bistable
use ptusa_main.Valve.MixProof
use ptusa_main.Valve.BottomMixProof
use ptusa_main.Valve.MiniFlushing

unfoldable pub has_on_fb : Class → Bool
has_on_fb Class.v_virtual = false
has_on_fb Class.v_do1 = false
has_on_fb Class.v_do2 = false
has_on_fb Class.v_do1_di1_off = false
has_on_fb _ = true

unfoldable pub has_off_fb : Class → Bool
has_off_fb Class.v_virtual = false
has_off_fb Class.v_do1 = false
has_off_fb Class.v_do2 = false
has_off_fb Class.v_do1_di1_on = false
has_off_fb _ = true

-- A valve that has just been constructed at the time `now`, its channels given. The constructor that
-- takes the feedback also sets `on_fb` and `off_fb`.
unfoldable pub construct : Class → ℕ → (ℕ → Bool) → (ℕ → ℕ) → (ℕ → ℕ) → Valve
construct c now is_wired outs ins = record {
  class = c;
  dev = record { state = pos 0; value = 0; is_manual_mode = false; wash_flag = false };
  is_on_fb = has_on_fb c;
  is_off_fb = has_off_fb c;
  on_fb = if has_on_fb c then true else has_off_fb c;
  off_fb = if has_on_fb c then true else has_off_fb c;
  is_switching_off = false;
  start_off_time = 0;
  was_on_auto = false;
  start_switch_time = now;
  p_on_time = 0;
  p_fb = 0;
  is_wired = is_wired;
  outs = outs;
  ins = ins;
  is_stoped = false;
  is_opening = false;
  is_closing = false;
  is_closing_mini = false;
  mini_start_off_time = 0;
}

unfoldable pub direct_on_of : Class → Settings → Valve → Valve
direct_on_of Class.v_virtual e v = Base.direct_on v
direct_on_of Class.v_do1 e v = Do1.direct_on e v
direct_on_of Class.v_do2 e v = Do2.direct_on e v
direct_on_of Class.v_do1_di1_off e v = Do1Di1Off.direct_on e v
direct_on_of Class.v_do1_di1_on e v = Do1Di1On.direct_on e v
direct_on_of Class.v_do1_di2 e v = Do1Di2.direct_on e v
direct_on_of Class.v_do2_di2 e v = Do2Di2.direct_on e v
direct_on_of Class.v_bistable e v = Bistable.direct_on e v
direct_on_of Class.v_mix_proof e v = MixProof.direct_on e v
direct_on_of Class.v_bottom_mix_proof e v = BottomMixProof.direct_on e v
direct_on_of Class.v_mini_flushing e v = MiniFlushing.direct_on e v

unfoldable pub direct_on : Settings → Valve → Valve
direct_on e v = direct_on_of v.class e v

unfoldable pub direct_off_of : Class → Settings → Valve → Valve
direct_off_of Class.v_virtual e v = Base.direct_off v
direct_off_of Class.v_do1 e v = Do1.direct_off e v
direct_off_of Class.v_do2 e v = Do2.direct_off e v
direct_off_of Class.v_do1_di1_off e v = Do1Di1Off.direct_off e v
direct_off_of Class.v_do1_di1_on e v = Do1Di1On.direct_off e v
direct_off_of Class.v_do1_di2 e v = Do1Di2.direct_off e v
direct_off_of Class.v_do2_di2 e v = Do2Di2.direct_off e v
direct_off_of Class.v_bistable e v = Bistable.direct_off e v
direct_off_of Class.v_mix_proof e v = MixProof.direct_off e v
direct_off_of Class.v_bottom_mix_proof e v = BottomMixProof.direct_off e v
direct_off_of Class.v_mini_flushing e v = MiniFlushing.direct_off e v

unfoldable pub direct_off : Settings → Valve → Valve
direct_off e v = direct_off_of v.class e v

unfoldable pub get_valve_state_of : Class → Settings → Valve → ℤ
get_valve_state_of Class.v_virtual e v = Base.get_valve_state v
get_valve_state_of Class.v_do1 e v = Do1.get_valve_state e v
get_valve_state_of Class.v_do2 e v =
    if e.is_emulator then Base.get_valve_state v else Do2.get_state v
get_valve_state_of Class.v_do1_di1_off e v = Do1Di1Off.get_valve_state e v
get_valve_state_of Class.v_do1_di1_on e v = Do1Di1On.get_valve_state e v
get_valve_state_of Class.v_do1_di2 e v = Do1Di2.get_valve_state e v
get_valve_state_of Class.v_do2_di2 e v = Do2Di2.get_valve_state e v
get_valve_state_of Class.v_bistable e v = Bistable.get_valve_state e v
get_valve_state_of Class.v_mix_proof e v = MixProof.get_valve_state e v
get_valve_state_of Class.v_bottom_mix_proof e v = BottomMixProof.get_valve_state e v
get_valve_state_of Class.v_mini_flushing e v = MiniFlushing.get_valve_state e v

unfoldable pub get_valve_state : Settings → Valve → ℤ
get_valve_state e v = get_valve_state_of v.class e v

unfoldable pub get_fb_state_of : Class → Settings → Valve → Valve × Bool
get_fb_state_of Class.v_virtual e v = (v, Base.get_fb_state v)
get_fb_state_of Class.v_do1 e v = (v, Do1.get_fb_state v)
get_fb_state_of Class.v_do2 e v = (v, Do2.get_fb_state v)
get_fb_state_of Class.v_do1_di1_off e v = Do1Di1Off.get_fb_state e v
get_fb_state_of Class.v_do1_di1_on e v = Do1Di1On.get_fb_state e v
get_fb_state_of Class.v_do1_di2 e v = (v, Do1Di2.get_fb_state e v)
get_fb_state_of Class.v_do2_di2 e v = (v, Do2Di2.get_fb_state e v)
get_fb_state_of Class.v_bistable e v = (v, Bistable.get_fb_state e v)
get_fb_state_of Class.v_mix_proof e v = (v, MixProof.get_fb_state e v)
get_fb_state_of Class.v_bottom_mix_proof e v = (v, BottomMixProof.get_fb_state e v)
get_fb_state_of Class.v_mini_flushing e v = (v, MiniFlushing.get_fb_state e v)

unfoldable pub get_fb_state : Settings → Valve → Valve × Bool
get_fb_state e v = get_fb_state_of v.class e v

unfoldable pub get_on_fb_value_of : Class → Settings → Valve → ℕ
get_on_fb_value_of Class.v_virtual e v = Base.get_on_fb_value v
get_on_fb_value_of Class.v_do1 e v = Base.get_on_fb_value v
get_on_fb_value_of Class.v_do2 e v = Base.get_on_fb_value v
get_on_fb_value_of Class.v_do1_di1_off e v = Do1Di1Off.get_on_fb_value v
get_on_fb_value_of Class.v_do1_di1_on e v = Do1Di1On.get_on_fb_value e v
get_on_fb_value_of Class.v_do1_di2 e v = Do1Di2.get_on_fb_value e v
get_on_fb_value_of Class.v_do2_di2 e v = Do2Di2.get_on_fb_value e v
get_on_fb_value_of Class.v_bistable e v = Bistable.get_on_fb_value e v
get_on_fb_value_of Class.v_mix_proof e v = MixProof.get_on_fb_value e v
get_on_fb_value_of Class.v_bottom_mix_proof e v = BottomMixProof.get_on_fb_value e v
get_on_fb_value_of Class.v_mini_flushing e v = MiniFlushing.get_on_fb_value e v

unfoldable pub get_on_fb_value : Settings → Valve → ℕ
get_on_fb_value e v = get_on_fb_value_of v.class e v

unfoldable pub get_off_fb_value_of : Class → Settings → Valve → ℕ
get_off_fb_value_of Class.v_virtual e v = Base.get_off_fb_value v
get_off_fb_value_of Class.v_do1 e v = Base.get_off_fb_value v
get_off_fb_value_of Class.v_do2 e v = Base.get_off_fb_value v
get_off_fb_value_of Class.v_do1_di1_off e v = Do1Di1Off.get_off_fb_value e v
get_off_fb_value_of Class.v_do1_di1_on e v = Do1Di1On.get_off_fb_value v
get_off_fb_value_of Class.v_do1_di2 e v = Do1Di2.get_off_fb_value e v
get_off_fb_value_of Class.v_do2_di2 e v = Do2Di2.get_off_fb_value e v
get_off_fb_value_of Class.v_bistable e v = Bistable.get_off_fb_value e v
get_off_fb_value_of Class.v_mix_proof e v = MixProof.get_off_fb_value e v
get_off_fb_value_of Class.v_bottom_mix_proof e v = BottomMixProof.get_off_fb_value e v
get_off_fb_value_of Class.v_mini_flushing e v = MiniFlushing.get_off_fb_value e v

unfoldable pub get_off_fb_value : Settings → Valve → ℕ
get_off_fb_value e v = get_off_fb_value_of v.class e v

-- digital_io_device::direct_set_state.
unfoldable pub switch_state : Settings → ℤ → Valve → Valve
switch_state e n v =
    if e.is_emulator
    then Base.emulate_state n v
    else if is_equal n 0
    then direct_off e v
    else if is_equal n 1
    then direct_on e v
    else v

unfoldable pub direct_set_state_of : Class → Settings → ℤ → Valve → Valve
direct_set_state_of Class.v_bistable e n v = Bistable.direct_set_state e n v
direct_set_state_of Class.v_mix_proof e n v = MixProof.direct_set_state e n v
direct_set_state_of Class.v_bottom_mix_proof e n v = BottomMixProof.direct_set_state e n v
direct_set_state_of Class.v_mini_flushing e n v = MiniFlushing.direct_set_state e n v
direct_set_state_of _ e n v = switch_state e n v

unfoldable pub direct_set_state : Settings → ℤ → Valve → Valve
direct_set_state e n v = direct_set_state_of v.class e n v

unfoldable pub is_switching_off_finished_of : Class → Settings → Valve → Valve × Bool
is_switching_off_finished_of Class.v_bottom_mix_proof e v =
    BottomMixProof.is_switching_off_finished e v
is_switching_off_finished_of _ e v = (v, Base.is_switching_off_finished v)

unfoldable pub is_switching_off_finished : Settings → Valve → Valve × Bool
is_switching_off_finished e v = is_switching_off_finished_of v.class e v

-- valve::is_opened and valve::is_closed.
unfoldable pub is_opened : Settings → Valve → Bool
is_opened e v = ltb 0 (get_on_fb_value e v)

unfoldable pub is_closed : Settings → Valve → Bool
is_closed e v = ltb 0 (get_off_fb_value e v)

-- The commands from the server: "FB_ON_ST", another property that begins with 'F', and those of
-- class device. Outside the emulator the first two are passed on to class device, which only logs
-- them.
pub data Cmd : Type 0 where
  set_fb_on_st : ℕ → Cmd
  set_fb : ℕ → Cmd
  set_dev : ServerCmd ℕ → Cmd

unfoldable pub set_cmd : Settings → Cmd → Valve → Valve
set_cmd e (set_fb_on_st val) v = if e.is_emulator then Base.set_on_fb val v else v
set_cmd e (set_fb val) v = if e.is_emulator then Base.set_off_fb val v else v
set_cmd e (set_dev (set_s n)) v = direct_set_state e n v
set_cmd e (set_dev (set_v x)) v = record v { dev = Device.direct_set_value x v.dev }
set_cmd e (set_dev (set_m n)) v = record v {
  dev = record v.dev { is_manual_mode = Device.manual_of n v.dev.is_manual_mode };
}
