-- ===== src/State/Sample.antt =====
-- A small kernel state for the tests: one CPU with the run queue 11, 12, the running task 13 and the idle
-- task 10; the timers 51 and 52; and a semaphore 60 with the waiter 61 of the task 14.
use s_os.Base.{ℕ, ◌+◌, ◌*◌, ◌-◌, ◌^◌, refl, false, [], ◌∷◌, update}
use s_os.Base.Int.{pos}
use s_os.ListHeap.{Ptr, Links}
use s_os.ListHeap.Ring.{IsRing}
use s_os.State.{Kernel, Call, OnlyWorld}

abbrev pub link : Links → Ptr → Ptr → Links
link h a b = record { prev = update h.prev b a; next = update h.next a b }

abbrev pub links : Links
links =
    link
      (link
        (link
          (link
            (link
              (link
                (link (link (link (record { prev = λ p. p; next = λ p. p }) 100 11) 11 12) 12 100)
                50 51)
              51 52)
            52 50)
          60 61)
        61 60)
      62 62

abbrev pub state : Kernel ℕ
state = record {
  links = links;
  interrupts = false;
  softirq_status = 5;
  softirq_vector = λ i. record { action = 200 + i; arg = i + 1 };
  timer_list = 50;
  jiffies = 10;
  expire_jiffies = update (update (update (λ p. 15) 51 7) 52 20) 50 (2 ^ 64 - 1);
  func = λ p. 300 + p;
  arg = λ p. p;
  state = λ p. 1;
  flags = λ p. 0;
  priority = λ p. pos 0;
  vruntime = update (update (update (update (λ p. 5) 11 3) 12 8) 10 0) 100 0x7fffffffffffffff;
  runqueue = λ i. 100 + i;
  running_task_count = λ i. pos 3;
  cpu_exec_task_jiffies = λ i. pos 4;
  init_task = λ i. 10;
  cpu = 0;
  current = λ i. 13;
  counter = λ p. pos 0;
  tsk = λ p. 14;
  world = 0;
}

-- The handlers of the tests append a digit to a number.
abbrev pub act : Ptr → ℕ → ℕ → ℕ
act f d w = w * 100 + d

abbrev pub call : Call ℕ
call f d s = record s { world = act f d s.world }

pub call-OnlyWorld : OnlyWorld call act
call-OnlyWorld f d s = refl

pub timers-IsRing : IsRing links 50 (51 ∷ (52 ∷ []))
timers-IsRing = record {
  chain = (refl, refl, (refl, refl, (refl, refl)));
  distinct = (refl, (refl, (refl, tt)));
}

pub queue-IsRing : IsRing links 100 (11 ∷ (12 ∷ []))
queue-IsRing = record {
  chain = (refl, refl, (refl, refl, (refl, refl)));
  distinct = (refl, (refl, (refl, tt)));
}

pub waiters-IsRing : IsRing links 60 (61 ∷ [])
waiters-IsRing = record { chain = (refl, refl, (refl, refl)); distinct = (refl, (refl, tt)) }
