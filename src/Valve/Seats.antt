-- ===== src/Valve/Seats.antt =====
-- The outputs of valve_mix_proof (PAC/common/device/valve.cpp): the valve is not opened with a seat,
-- nor both seats together.
use ptusa_main.Common.{
  ℕ, ◌≡◌, ◌<◌, inl, inr, Bool-cases, Bool, true, false, ◌&&◌, ◌||◌, ◌==◌, arith,
}
use ptusa_main.Common.Int.{ℤ, pos}
use ptusa_main.Device
use ptusa_main.Valve.{Settings, Valve, get_do}
use ptusa_main.Valve.Base
use ptusa_main.Valve.MixProof
use ptusa_main.Valve.Switched.{IsConnected}

-- At most one of the three outputs is on.
abbrev pub is_exclusive : Valve → Bool
is_exclusive v =
    (get_do v 0 == 0 || (get_do v 1 == 0 && get_do v 2 == 0))
    && (get_do v 1 == 0 || get_do v 2 == 0)

pub on_exclusive :
    (e : Settings) (v : Valve)
    → is_exclusive v ≡ true
    → is_exclusive (MixProof.direct_on e v) ≡ true
unfolding MixProof.direct_on Base.direct_on
on_exclusive e v h = ground arith

pub off_exclusive :
    (e : Settings) (v : Valve)
    → is_exclusive v ≡ true
    → is_exclusive (MixProof.direct_off e v) ≡ true
unfolding MixProof.direct_off Base.direct_off
off_exclusive e v h = ground arith

-- Outside the emulator all three outputs are off after `direct_off`.
all_off :
    (e : Settings) (v : Valve)
    → e.is_emulator ≡ false
    → (get_do (MixProof.direct_off e v) 0 ≡ 0)
      × (get_do (MixProof.direct_off e v) 1 ≡ 0)
      × (get_do (MixProof.direct_off e v) 2 ≡ 0)
unfolding MixProof.direct_off
all_off e v h = ground arith

seat_exclusive :
    (e : Settings) (i : ℕ) (v : Valve)
    → e.is_emulator ≡ false
    → ¬ (i ≡ 0)
    → is_exclusive (MixProof.open_seat e i v) ≡ true
unfolding MixProof.open_seat
seat_exclusive e i v h n = ground (arith, all_off e v h)

pub direct_set_state-is_exclusive :
    (e : Settings) (n : ℤ) (v : Valve)
    → is_exclusive v ≡ true
    → is_exclusive (MixProof.direct_set_state e n v) ≡ true
unfolding MixProof.direct_set_state Base.emulate_state
direct_set_state-is_exclusive e n v h = elim (Bool-cases e.is_emulator) [
  | inl emulated ↦ ground arith
  | inr real ↦ ground (
    arith,
    on_exclusive e v h,
    off_exclusive e v h,
    seat_exclusive e 1 v real (ground arith),
    seat_exclusive e 2 v real (ground arith),
  )
]

wired-direct_off :
    (e : Settings) (i : ℕ) (v : Valve) → (MixProof.direct_off e v).is_wired i ≡ v.is_wired i
unfolding MixProof.direct_off Base.direct_off
wired-direct_off e i v = ground arith

-- The state after each of the four commands.
seat_reached :
    (e : Settings) (v : Valve)
    → IsConnected v
    → e.is_emulator ≡ false
    → (MixProof.get_valve_state e (MixProof.open_seat e 1 v) ≡ pos 2)
      × (MixProof.get_valve_state e (MixProof.open_seat e 2 v) ≡ pos 3)
unfolding MixProof.open_seat MixProof.get_valve_state
seat_reached e v k h = ground (
  arith,
  all_off e v h,
  k.wired 1,
  k.wired 2,
  wired-direct_off e 0 v,
  wired-direct_off e 1 v,
  wired-direct_off e 2 v,
)

on_off_reached :
    (e : Settings) (v : Valve)
    → IsConnected v
    → (MixProof.get_valve_state e (MixProof.direct_off e v) ≡ pos 0)
      × (MixProof.get_valve_state e (MixProof.direct_on e v) ≡ pos 1)
unfolding MixProof.direct_on MixProof.direct_off MixProof.get_valve_state Base.direct_on
    Base.direct_off Base.get_valve_state Device.direct_on Device.direct_off
on_off_reached e v k = ground (arith, k.wired 0, k.bit 0, k.wired 1, k.wired 2)

emulated_reached :
    (e : Settings) (n : ℤ) (v : Valve)
    → e.is_emulator ≡ true
    → MixProof.get_valve_state e (Base.emulate_state n v) ≡ n
unfolding MixProof.get_valve_state Base.emulate_state Base.get_valve_state Device.direct_set_state
emulated_reached e n v h = ground arith

-- Each of the four commands leads to its state.
pub mix_proof_state :
    (e : Settings) (n : ℕ) (v : Valve)
    → IsConnected v
    → n < 4
    → MixProof.get_valve_state e (MixProof.direct_set_state e (pos n) v) ≡ pos n
unfolding MixProof.direct_set_state
mix_proof_state e n v k b = elim (Bool-cases e.is_emulator) [
  | inl emulated ↦ ground (arith, emulated_reached e (pos n) v emulated)
  | inr real ↦ ground (arith, on_off_reached e v k, seat_reached e v k real)
]
