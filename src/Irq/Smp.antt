-- ===== src/Irq/Smp.antt =====
-- The interrupts between processors: SMP_init of kernel/init/SMP.c, without its prints and its copy of the
-- start code, and its handler IPI_0x200.
use s_os.Base.{
  ℕ, ◌-◌, ◌^◌, ◌≡◌, ◌<◌, refl, true, false, none, ◌==◌, ltb, leb, ◌&&◌, if◌then◌else◌, arith,
}
use s_os.Gate.Decode.{gate_at}
use s_os.Irq.{Tables, vacant, register_ipi, do_irq, run_handler}
use s_os.Irq.Dispatch.{internal}
use s_os.Irq.Ready.{device_gate, set_gates-at}
use s_os.Irq.Setup.{set_gates}
use s_os.Scheduler.{update_cur_runtime}
use s_os.State.{Kernel}

unfoldable pub ipi_0x200 : {W : Type 0} → ℕ → ℕ → ℕ → Kernel W → Kernel W
ipi_0x200 nr parameter regs s = update_cur_runtime s

-- the interrupt descriptor table afterwards, and the descriptors
unfoldable pub smp_init :
    {W : Type 0} → ℕ → (ℕ → ℕ) → (ℕ → ℕ) → Tables (Kernel W) → (ℕ → ℕ) × Tables (Kernel W)
smp_init irq_name smp_interrupt idt s =
    let cleared = record s { smp_ipi_desc = λ i. if ltb i 10 then vacant else s.smp_ipi_desc i } in
    (set_gates 200 smp_interrupt 10 idt 200, register_ipi cleared 200 0 ipi_0x200 0 none irq_name)

module _ {W : Type 0} (smp_interrupt idt : ℕ → ℕ) (s : Tables (Kernel W)) (irq_name : ℕ)
    (local_ack : ℕ → Kernel W → Kernel W) where
  other_ipi :
      (nr regs : ℕ)
      → 200 < nr
      → nr < 210
      → let t = (smp_init irq_name smp_interrupt idt s).1 in
        do_irq local_ack t regs nr ≡ record t { world = local_ack nr t.world }
  unfolding smp_init register_ipi do_irq run_handler
  other_ipi nr regs low high =
      let free : ltb (nr - 200) 10 ≡ true = ground arith in
      let other : (nr - 200 == 0) ≡ false = ground arith in
      rw (internal nr (omega arith) high, other, free) refl

  -- After SMP_init the gates of the ten interrupts between processors lead to their stubs, with interrupts
  -- turned off, on the stack of privilege 0, and the other gates are what they were; the interrupt 200 is
  -- acknowledged and then charges a tick to the task that runs on the processor that it reaches, and the
  -- others are acknowledged only. The stubs have addresses of 64 bits.
  pub smp_init-ready :
      ((k : ℕ) → smp_interrupt k < 2 ^ 64)
      → (let (idt1, t) = smp_init irq_name smp_interrupt idt s in
          ((m : ℕ)
            → gate_at idt1 m ≡ (
                if leb 200 m && ltb m 210
                then device_gate (smp_interrupt (m - 200))
                else gate_at idt m))
          × ((regs : ℕ)
              → do_irq local_ack t regs 200
                ≡ record t { world = update_cur_runtime (local_ack 200 t.world) })
          × ((nr regs : ℕ)
              → 200 < nr
              → nr < 210
              → do_irq local_ack t regs nr ≡ record t { world = local_ack nr t.world }))
  unfolding smp_init register_ipi do_irq run_handler ipi_0x200
  smp_init-ready placed =
      (λ m. set_gates-at 200 smp_interrupt 10 idt 200 m placed, λ regs. refl, other_ipi)
