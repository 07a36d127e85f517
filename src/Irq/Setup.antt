-- ===== src/Irq/Setup.antt =====
-- The start of the device interrupts: IOAPIC_init and APIC_IOAPIC_init of kernel/device/pic/APIC.c, the
-- redirection entries of kernel/include/APIC.h, and the registrations of HPET_init, kernel/device/HPET.c,
-- and keyboard_init, kernel/device/keyboard.c.
--
-- What is only read to be printed, the 8259A, the local APIC and the mapping of the registers are left out.
use s_os.Base.{ℕ, zero, suc, ◌+◌, ◌-◌, ◌*◌, ◌/◌, ◌^◌, some, update, ltb, if◌then◌else◌}
use s_os.Gate.{set_intr_gate}
use s_os.Irq.{Controller, Tables, vacant, register_irq}
use s_os.Irq.Ioapic.{
  Registers, ioapic_rte_write, ioapic_enable, ioapic_disable, ioapic_install, ioapic_uninstall,
}

-- `struct IO_APIC_RET_entry`; the destination is the physical one.
pub record RetEntry : Type 0 where
  pub vector : ℕ
  pub deliver_mode : ℕ
  pub dest_mode : ℕ
  pub deliver_status : ℕ
  pub polarity : ℕ
  pub irr : ℕ
  pub trigger : ℕ
  pub mask : ℕ
  pub reserved : ℕ
  pub reserved1 : ℕ
  pub phy_dest : ℕ
  pub reserved2 : ℕ

-- The 64 bits of an entry whose fields have their widths.
abbrev pub packed : RetEntry → ℕ
packed e =
    e.vector
    + e.deliver_mode * 2 ^ 8
    + e.dest_mode * 2 ^ 11
    + e.deliver_status * 2 ^ 12
    + e.polarity * 2 ^ 13
    + e.irr * 2 ^ 14
    + e.trigger * 2 ^ 15
    + e.mask * 2 ^ 16
    + e.reserved * 2 ^ 17
    + e.reserved1 * 2 ^ 32
    + e.phy_dest * 2 ^ 56
    + e.reserved2 * 2 ^ 60

-- the loop of IOAPIC_init, with `n` entries to go
unfoldable pub init_entries : ℕ → Registers → ℕ → Registers
init_entries zero r i = r
init_entries (suc n) r i = init_entries n (ioapic_rte_write r i (0x10020 + (i - 0x10) / 2)) (i + 2)

-- the register of the identification, then the 24 redirection entries
unfoldable pub ioapic_init : Registers → Registers
ioapic_init r = init_entries 24 (update r 0 0x0f000000) 0x10

-- The loop of APIC_IOAPIC_init, and of SMP_init in kernel/init/SMP.c, with `n` gates to go. `first` is the
-- first vector, 32 or 200, and `interrupt` is where the linker has put the stubs.
unfoldable pub set_gates : ℕ → (ℕ → ℕ) → ℕ → (ℕ → ℕ) → ℕ → (ℕ → ℕ)
set_gates first interrupt zero idt i = idt
set_gates first interrupt (suc n) idt i =
    set_gates first interrupt n (set_intr_gate idt i 0 (interrupt (i - first))) (i + 1)

-- `NR_IRQS`
abbrev pub nr_irqs : ℕ
nr_irqs = 24

-- the interrupt descriptor table afterwards, and the descriptors and registers
unfoldable pub apic_ioapic_init : (ℕ → ℕ) → (ℕ → ℕ) → Tables Registers → (ℕ → ℕ) × Tables Registers
apic_ioapic_init interrupt idt s = (
  set_gates 32 interrupt 24 idt 32,
  record s {
    world = ioapic_init s.world;
    interrupt_desc = λ i. if ltb i nr_irqs then vacant else s.interrupt_desc i;
  },
)

-- `HPET_int_controller` and `keyboard_int_controller`; `ack` writes a register of the local APIC.
abbrev pub edge_controller : (ℕ → Registers → Registers) → Controller Registers
edge_controller ack = record {
  enable = λ irq r. ioapic_enable r irq;
  disable = λ irq r. ioapic_disable r irq;
  install = λ irq entry r. ioapic_install r irq entry;
  uninstall = λ irq r. ioapic_uninstall r irq;
  ack = some ack;
}

-- the entry that HPET_init and keyboard_init fill, for their vectors
abbrev pub edge_entry : ℕ → RetEntry
edge_entry vector = record {
  vector = vector;
  deliver_mode = 0;
  dest_mode = 0;
  deliver_status = 0;
  polarity = 0;
  irr = 0;
  trigger = 0;
  mask = 1;
  reserved = 0;
  reserved1 = 0;
  phy_dest = 0;
  reserved2 = 0;
}

module _ (ack : ℕ → Registers → Registers) (irq_name : ℕ) where
  -- the registration of HPET_init
  unfoldable pub hpet_init :
      Tables Registers → (ℕ → ℕ → ℕ → Registers → Registers) → Tables Registers
  hpet_init s hpet_handler =
      register_irq s 34 (packed (edge_entry 34)) hpet_handler 0 (edge_controller ack) irq_name

  -- the registration of keyboard_init, with the address of the buffer
  unfoldable pub keyboard_init :
      Tables Registers → (ℕ → ℕ → ℕ → Registers → Registers) → ℕ → Tables Registers
  keyboard_init s keyboard_handler p_kb =
      register_irq s 0x21 (packed (edge_entry 0x21)) keyboard_handler p_kb (edge_controller ack)
        irq_name
