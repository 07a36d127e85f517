-- ===== src/Timer/Sample.antt =====
-- The timers of the sample state.
use s_os.Base.{refl, [], ◌∷◌, arith}
use s_os.State.Sample.{state, timers-IsRing}
use s_os.Timer.Add.{IsTimerList}

pub timers-IsTimerList : IsTimerList state (51 ∷ (52 ∷ []))
timers-IsTimerList = record {
  ring = timers-IsRing;
  sorted = ((omega arith, tt), (tt, tt));
  sentinel = refl;
}
