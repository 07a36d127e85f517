-- ===== src/Scheduler/Sample.antt =====
-- The run queue of the sample state.
use s_os.Base.{refl, [], ◌∷◌, arith}
use s_os.State.Sample.{state, queue-IsRing}
use s_os.Scheduler.Queue.{IsQueue}
use s_os.Scheduler.Schedule.{IsScheduled}

pub state-IsQueue : IsQueue state (11 ∷ (12 ∷ []))
state-IsQueue = record {
  ring = queue-IsRing;
  sorted = ((omega arith, tt), (tt, tt));
  sentinel = refl;
  count = refl;
}

pub state-IsScheduled : IsScheduled state (11 ∷ (12 ∷ []))
state-IsScheduled = record {
  queued = state-IsQueue;
  running_out = refl;
  idle_out = refl;
  running_small = omega arith;
  idle_small = omega arith;
  small = (omega arith, (omega arith, tt));
}
