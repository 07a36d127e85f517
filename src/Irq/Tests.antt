-- ===== src/Irq/Tests.antt =====
-- Interrupts on numbers as the world.
use s_os.Base.{
  ◌&&◌, ℕ, ◌-◌, ◌%◌, ◌≤◌, ◌<◌, ◌≢◌, ltb, leb, true, update, if◌then◌else◌, ◌+◌, ◌*◌, ◌≡◌, some,
  ◌==◌, ◌||◌, arith,
}
use s_os.Gate.Decode.{gate_at}
use s_os.Irq.Setup.{apic_ioapic_init, hpet_init, keyboard_init, edge_entry}
use s_os.Irq.Ready.{entry_at, device_gate, apic_ioapic_init-ready}
use s_os.Irq.Smp.{smp_init, smp_init-ready}
use s_os.Scheduler.{update_cur_runtime}
use s_os.State.{Kernel}
use s_os.State.Sample.{state}
use s_os.Irq.Devices.{devices-ready}
use s_os.Irq.{Controller, Tables, vacant, do_irq}
use s_os.Irq.Ioapic.{Registers}

-- Each call appends a digit.
abbrev controller : Controller ℕ
controller = record {
  enable = λ irq w. w * 10 + 1;
  disable = λ irq w. w * 10 + 2;
  install = λ irq a w. w * 10 + 3;
  uninstall = λ irq w. w * 10 + 4;
  ack = some (λ irq w. w * 10 + 5);
}

abbrev handler : ℕ → ℕ → ℕ → ℕ → ℕ
handler nr parameter regs w = w * 10 + parameter

abbrev empty : Tables ℕ
empty = record { interrupt_desc = λ i. vacant; smp_ipi_desc = λ i. vacant; world = 0 }

abbrev local_ack : ℕ → ℕ → ℕ
local_ack nr w = w * 10 + 6

abbrev registers : Registers
registers i = i

abbrev stub : ℕ → ℕ
stub k = 0xffff800000105000 + 32 * (k % 24)

abbrev no_gates : ℕ → ℕ
no_gates i = 0

abbrev machine : Tables Registers
machine = record { interrupt_desc = λ i. vacant; smp_ipi_desc = λ i. vacant; world = λ q. 0 }

apic_ioapic_init-ready_example :
    let (idt, t) = apic_ioapic_init stub no_gates machine in
    ((irq : ℕ)
      → 32 ≤ irq
      → irq < 56
      → (entry_at t.world irq ≡ edge_entry irq)
        × (gate_at idt irq ≡ device_gate (stub (irq - 32)))
        × (t.interrupt_desc (irq - 32) ≡ vacant))
    × ((m : ℕ) → ltb m 32 || leb 56 m ≡ true → gate_at idt m ≡ gate_at no_gates m)
apic_ioapic_init-ready_example = apic_ioapic_init-ready stub no_gates machine (λ k. omega arith)

-- What a handler or the acknowledgement gets is kept behind the registers.
abbrev clock : ℕ → ℕ → ℕ → Registers → Registers
clock nr parameter regs r = update r 100 nr

abbrev keyboard : ℕ → ℕ → ℕ → Registers → Registers
keyboard nr parameter regs r = update r 101 parameter

abbrev ack : ℕ → Registers → Registers
ack nr r = update r 102 nr

abbrev ready : Tables Registers
ready =
    keyboard_init ack 2 (hpet_init ack 1 (apic_ioapic_init stub no_gates machine).1 clock) keyboard
      7000

devices-ready_example :
    ((irq : ℕ)
      → 32 ≤ irq
      → irq < 56
      → entry_at ready.world irq
        ≡ record (edge_entry irq) { mask = if (irq == 33) || (irq == 34) then 0 else 1 })
    × ((regs : ℕ) → (do_irq ack ready regs 34).world ≡ ack 34 (clock 34 0 regs ready.world))
    × ((regs : ℕ) → (do_irq ack ready regs 33).world ≡ ack 33 (keyboard 33 7000 regs ready.world))
    × ((regs irq : ℕ)
        → 32 ≤ irq
        → irq < 56
        → irq ≢ 33
        → irq ≢ 34
        → do_irq ack ready regs irq ≡ ready)
devices-ready_example = devices-ready stub no_gates machine ack ack clock keyboard 7000 1 2

abbrev processors : Tables (Kernel ℕ)
processors = record { interrupt_desc = λ i. vacant; smp_ipi_desc = λ i. vacant; world = state }

abbrev acknowledge : ℕ → Kernel ℕ → Kernel ℕ
acknowledge nr s = record s { world = nr }

smp_init-ready_example :
    let (idt, t) = smp_init 3 stub no_gates processors in
    ((m : ℕ)
      → gate_at idt m
        ≡ (if leb 200 m && ltb m 210 then device_gate (stub (m - 200)) else gate_at no_gates m))
    × ((regs : ℕ)
        → do_irq acknowledge t regs 200
          ≡ record t { world = update_cur_runtime (acknowledge 200 t.world) })
    × ((nr regs : ℕ)
        → 200 < nr
        → nr < 210
        → do_irq acknowledge t regs nr ≡ record t { world = acknowledge nr t.world })
smp_init-ready_example = smp_init-ready stub no_gates processors 3 acknowledge (λ k. omega arith)
