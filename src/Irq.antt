-- ===== src/Irq.antt =====
-- Registration and dispatch of interrupts, kernel/idt/interrupt.c and do_IRQ of kernel/device/pic/APIC.c.
--
-- `W` is what handlers and controllers work on. The return value of the four registration functions is
-- always 1. An index outside the tables is not checked: it names another entry of the function.
pub mod Dispatch
pub mod Ioapic
pub mod Setup
pub mod Ready
pub mod Devices
pub mod Smp
mod Tests
use Prim.Native.Nat.{bit_and}
use s_os.Base.{ℕ, ◌-◌, Option, none, some, ◌==◌, if◌then◌else◌, update}

-- `hw_int_controller`; only `ack` may be NULL
pub record Controller (W : Type 0) : Type 0 where
  pub enable : ℕ → W → W
  pub disable : ℕ → W → W
  pub install : ℕ → ℕ → W → W
  pub uninstall : ℕ → W → W
  pub ack : Option (ℕ → W → W)

-- `irq_desc_T`; the third argument of a handler is the pointer to the saved registers.
pub record Descriptor (W : Type 0) : Type 0 where
  pub controller : Option (Controller W)
  pub irq_name : ℕ
  pub parameter : ℕ
  pub handler : Option (ℕ → ℕ → ℕ → W → W)
  pub flags : ℕ

pub record Tables (W : Type 0) : Type 0 where
  pub interrupt_desc : ℕ → Descriptor W
  pub smp_ipi_desc : ℕ → Descriptor W
  pub world : W

-- an entry of zeros
abbrev pub vacant : {W : Type 0} → Descriptor W
vacant = record { controller = none; irq_name = 0; parameter = 0; handler = none; flags = 0 }

module _ {W : Type 0} where
  unfoldable pub register_irq :
      Tables W → ℕ → ℕ → (ℕ → ℕ → ℕ → W → W) → ℕ → Controller W → ℕ → Tables W
  register_irq s irq arg handler parameter controller irq_name = record s {
    interrupt_desc = update s.interrupt_desc (irq - 32) (record {
      controller = some controller;
      irq_name = irq_name;
      parameter = parameter;
      handler = some handler;
      flags = 0;
    });
    world = controller.enable irq (controller.install irq arg s.world);
  }

  -- `none`: the entry has no controller, and a null pointer is followed.
  unfoldable pub unregister_irq : Tables W → ℕ → Option (Tables W)
  unregister_irq s irq = elim ((s.interrupt_desc (irq - 32)).controller) [
    | none ↦ none
    | some c ↦ some (record s {
      interrupt_desc = update s.interrupt_desc (irq - 32) vacant;
      world = c.uninstall irq (c.disable irq s.world);
    })
  ]

  -- The controller and `arg` are ignored.
  unfoldable pub register_ipi :
      Tables W → ℕ → ℕ → (ℕ → ℕ → ℕ → W → W) → ℕ → Option (Controller W) → ℕ → Tables W
  register_ipi s irq arg handler parameter controller irq_name = record s {
    smp_ipi_desc = update s.smp_ipi_desc (irq - 200) (record {
      controller = none;
      irq_name = irq_name;
      parameter = parameter;
      handler = some handler;
      flags = 0;
    });
  }

  unfoldable pub unregister_ipi : Tables W → ℕ → Tables W
  unregister_ipi s irq = record s { smp_ipi_desc = update s.smp_ipi_desc (irq - 200) vacant }

  unfoldable pub run_handler : Descriptor W → ℕ → ℕ → W → W
  run_handler d nr regs w = elim (d.handler) [ none ↦ w | some h ↦ h nr d.parameter regs w ]

  unfoldable pub run_ack : Descriptor W → ℕ → W → W
  run_ack d nr w = elim (d.controller) [
    | none ↦ w
    | some c ↦ elim (c.ack) [ none ↦ w | some a ↦ a nr w ]
  ]

  -- `local_ack` stands for Local_APIC_edge_level_ack, which writes a model-specific register. `nr & 0x80`
  -- is 0 or 0x80, so the `default` branch is never taken.
  unfoldable pub do_irq : (ℕ → W → W) → Tables W → ℕ → ℕ → Tables W
  do_irq local_ack s regs nr =
      let d = s.interrupt_desc (nr - 32) in
      let ipi = s.smp_ipi_desc (nr - 200) in
      if bit_and nr 0x80 == 0
      then record s { world = run_ack d nr (run_handler d nr regs s.world) }
      else record s { world = run_handler ipi nr regs (local_ack nr s.world) }
