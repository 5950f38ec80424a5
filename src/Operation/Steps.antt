-- ===== src/Operation/Steps.antt =====
-- The methods of class operation that pass on to the steps of its current state
-- (PAC/common/operation_mngr.cpp), and those on its state RUN.
use ptusa_main.Common.{
  ℕ, Bool, Option, none, some, suc, zero, ◌≡◌, ◌≢◌, refl, true, ltb, ◌&&◌, arith,
}
use mathlib.Core.Path.{subst}
use mathlib.Core.Bool.{false≢true}
use mathlib.Core.Option.{some-injective, none-ne-some}
use ptusa_main.Common.Int.{ℤ}
use ptusa_main.Plant.{Plant, Env}
use ptusa_main.Action.Simple.{Check}
use ptusa_main.State.Defs
use ptusa_main.State.Defs.{State}
use ptusa_main.State.Extra
use ptusa_main.State.Checks
use ptusa_main.State.Checks.{Overtime}
use ptusa_main.State.Tracked.{
  IsTracked, to_step-IsTracked, to_next_step-IsTracked, turn_off_active_step-IsTracked,
  on_extra-IsTracked, off_extra-IsTracked, switch_extra-IsTracked,
}
use ptusa_main.Operation.Mode.{Mode, idle, run, unpausing}
use ptusa_main.Operation.Defs.{Operation, put}
use ptusa_main.Operation.Clean.{IsClean, put-IsClean}

unfoldable pub active_step : Operation → ℕ
active_step op = elim op.current_state [
  | idle ↦ 0
  | _ ↦ Defs.active_step (op.states op.current_state)
]

unfoldable pub get_run_steps_count : Operation → ℕ
get_run_steps_count op = Defs.steps_count (op.states run)

unfoldable pub get_run_active_step : Operation → ℕ
get_run_active_step op = Defs.active_step (op.states run)

unfoldable pub active_step_evaluation_time : ℕ → Operation → ℕ
active_step_evaluation_time now op =
    Defs.active_step_evaluation_time now (op.states op.current_state)

unfoldable pub get_active_step_set_time : Operation → ℕ
get_active_step_set_time op = Defs.get_active_step_set_time (op.states op.current_state)

unfoldable pub add_step : ℕ → ℤ → ℤ → ℤ → Mode → Operation → Operation
add_step now next_step_n duration_par_n max_duration_par_n m op =
    put m (Defs.add_step now next_step_n duration_par_n max_duration_par_n (op.states m)) op

unfoldable pub is_active_run_extra_step : Operation → ℕ → Bool
is_active_run_extra_step op i = Extra.is_active_extra_step (op.states run) i

unfoldable pub is_active_extra_step : Operation → ℕ → Bool
is_active_extra_step op i = Extra.is_active_extra_step (op.states op.current_state) i

-- The calls that move an operation between its steps.
pub data Move : Type 0 where
  to_step : ℕ → Move
  to_next_step turn_off_active_step : Move
  on_extra_step off_extra_step : ℕ → Move
  switch_active_extra_step : ℕ → ℕ → Move

-- A call whose steps are numbered from 1.
unfoldable pub is_numbered : Move → Bool
is_numbered (on_extra_step n) = ltb 0 n
is_numbered (off_extra_step n) = ltb 0 n
is_numbered (switch_active_extra_step off on) = ltb 0 off && ltb 0 on
is_numbered _ = true

module _ ⦃plant : Plant⦄ where
  open plant use {World}

  -- The states' codes are not passed on.
  abbrev pub done : State × World × ℕ → State × World
  done (st, w, _) = (st, w)

  abbrev pub done? : Option (State × World × ℕ) → Option (State × World)
  done? none = none
  done? (some r) = some (done r)

  -- The method of operation_state that a call passes on to.
  unfoldable pub move_state : Env plant → Move → State → World → Option (State × World)
  move_state env (to_step n) st w = some (Defs.to_step env n st w)
  move_state env to_next_step st w = some (Defs.to_next_step env st w)
  move_state env turn_off_active_step st w = some (Defs.turn_off_active_step st w)
  move_state env (on_extra_step n) st w = done? (Extra.on_extra_step env n st w)
  move_state env (off_extra_step n) st w = done? (Extra.off_extra_step n st w)
  move_state env (switch_active_extra_step off on) st w =
      done? (Extra.switch_active_extra_step env off on st w)

  abbrev pub put_back : Operation → Option (State × World) → Option (Operation × World)
  put_back op none = none
  put_back op (some (st, w)) = some (put op.current_state st op, w)

  -- states[ current_state ]->f( … )
  unfoldable pub move : Env plant → Move → Operation → World → Option (Operation × World)
  unfolding move_state
  move env m op w = put_back op (move_state env m (op.states op.current_state) w)

  unfoldable pub check_devices_on_run_state : Operation → World → Bool
  check_devices_on_run_state op w = Checks.check_devices (op.states run) w

  unfoldable pub check_steps_params : Env plant → Operation → Bool
  check_steps_params env op = Checks.check_steps_params env (op.states run)

  unfoldable pub check_max_step_time : Env plant → Operation → Option Overtime
  check_max_step_time env op = Checks.check_max_step_time env (op.states run)

  unfoldable pub check_on_run_state : Operation → World → Check
  check_on_run_state op w = Checks.check_on (op.states run) w

  taken : (p r : State × World) → some p ≡ some r → IsTracked p.0 → IsTracked r.0
  taken p r e t = subst (λ q. IsTracked q.0) (some-injective p r e) t

  on_extra_step-IsTracked :
      (env : Env plant) (n : ℕ) (st : State) (w : World) (r : State × World)
      → IsTracked st
      → done? (Extra.on_extra_step env n st w) ≡ some r
      → IsTracked r.0
  unfolding Extra.on_extra_step
  on_extra_step-IsTracked env zero st w r t e i h = ground (arith, t i)
  on_extra_step-IsTracked env (suc n) st w r t e i h =
      taken _ r e (on_extra-IsTracked env n st w t) i h

  off_extra_step-IsTracked :
      (n : ℕ) (st : State) (w : World) (r : State × World)
      → IsTracked st
      → done? (Extra.off_extra_step n st w) ≡ some r
      → IsTracked r.0
  unfolding Extra.off_extra_step
  off_extra_step-IsTracked zero st w r t e i h = ground (arith, t i)
  off_extra_step-IsTracked (suc n) st w r t e i h = taken _ r e (off_extra-IsTracked n st w t) i h

  switch_extra_step-IsTracked :
      (env : Env plant) (off on : ℕ) (st : State) (w : World) (r : State × World)
      → IsTracked st
      → done? (Extra.switch_active_extra_step env off on st w) ≡ some r
      → IsTracked r.0
  unfolding Extra.switch_active_extra_step
  switch_extra_step-IsTracked env zero zero st w r t e i h = ground (arith, t i)
  switch_extra_step-IsTracked env zero (suc on) st w r t e i h = ground (arith, t i)
  switch_extra_step-IsTracked env (suc off) zero st w r t e i h = ground (arith, t i)
  switch_extra_step-IsTracked env (suc off) (suc on) st w r t e i h =
      taken _ r e (switch_extra-IsTracked env off on st w t) i h

  move_state-IsTracked :
      (env : Env plant) (m : Move) (st : State) (w : World) (r : State × World)
      → IsTracked st
      → move_state env m st w ≡ some r
      → IsTracked r.0
  unfolding move_state
  move_state-IsTracked env (to_step n) st w r t e = taken _ r e (to_step-IsTracked env n st w t)
  move_state-IsTracked env to_next_step st w r t e =
      taken _ r e (to_next_step-IsTracked env _ st w refl t)
  move_state-IsTracked env turn_off_active_step st w r t e =
      taken _ r e (turn_off_active_step-IsTracked st w t)
  move_state-IsTracked env (on_extra_step n) st w r t e = on_extra_step-IsTracked env n st w r t e
  move_state-IsTracked env (off_extra_step n) st w r t e = off_extra_step-IsTracked n st w r t e
  move_state-IsTracked env (switch_active_extra_step off on) st w r t e =
      switch_extra_step-IsTracked env off on st w r t e

  put_back-IsClean :
      (o : Option (State × World)) (op : Operation) (r : Operation × World)
      → IsClean op
      → ((p : State × World) → o ≡ some p → op.current_state ≢ unpausing → IsTracked p.0)
      → put_back op o ≡ some r
      → IsClean r.0
  put_back-IsClean none op r c f e = absurd (none-ne-some r e)
  put_back-IsClean (some p) op r c f e =
      subst (λ q. IsClean q.0) (some-injective _ r e)
        (put-IsClean op.current_state p.0 op refl c.others (f p refl))

  move-IsClean :
      (env : Env plant) (m : Move) (op : Operation) (w : World) (r : Operation × World)
      → IsClean op
      → move env m op w ≡ some r
      → IsClean r.0
  unfolding move
  move-IsClean env m op w r c e =
      put_back-IsClean (move_state env m (op.states op.current_state) w) op r c
        (λ p q nu. move_state-IsTracked env m _ w p (c.current nu) q) e

  move-some :
      (env : Env plant) (m : Move) (op : Operation) (w : World)
      → is_numbered m ≡ true
      → (r : Operation × World) × (move env m op w ≡ some r)
  unfolding move move_state is_numbered Extra.on_extra_step Extra.off_extra_step
      Extra.switch_active_extra_step
  move-some env (to_step n) op w h = (_, refl)
  move-some env to_next_step op w h = (_, refl)
  move-some env turn_off_active_step op w h = (_, refl)
  move-some env (on_extra_step zero) op w h = absurd (false≢true h)
  move-some env (on_extra_step (suc n)) op w h = (_, refl)
  move-some env (off_extra_step zero) op w h = absurd (false≢true h)
  move-some env (off_extra_step (suc n)) op w h = (_, refl)
  move-some env (switch_active_extra_step zero on) op w h = absurd (false≢true h)
  move-some env (switch_active_extra_step (suc off) zero) op w h = ground arith
  move-some env (switch_active_extra_step (suc off) (suc on)) op w h = (_, refl)

  -- From an operation whose other states are finalized and whose steps that are on are all attended
  -- (UNPAUSING aside), a move between steps numbered from 1 is carried out, and leaves such an
  -- operation.
  pub move-numbered :
      (env : Env plant) (m : Move) (op : Operation) (w : World)
      → IsClean op
      → is_numbered m ≡ true
      → (r : Operation × World) × (move env m op w ≡ some r) × IsClean r.0
  move-numbered env m op w c h =
      let (r, e) = move-some env m op w h in (r, e, move-IsClean env m op w r c e)
