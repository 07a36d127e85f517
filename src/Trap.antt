-- ===== src/Trap.antt =====
-- The exceptions: kernel/idt/trap.c, with kernel/include/trap.h.
pub mod Vectors
pub mod Handlers
pub mod Explain
mod Tests
use s_os.Base.{ℕ}
use s_os.Gate.{set_intr_gate, set_trap_gate, set_system_gate}

-- The entry points that idt/entry.S defines.
pub data Entry : Type 0 where
  divide_error : Entry
  debug : Entry
  nmi : Entry
  int3 : Entry
  overflow : Entry
  bounds : Entry
  undefined_opcode : Entry
  dev_not_available : Entry
  double_fault : Entry
  coprocessor_segment_overrun : Entry
  invalid_tss : Entry
  segment_not_present : Entry
  stack_segment_fault : Entry
  general_protection : Entry
  page_fault : Entry
  x87_fpu_error : Entry
  alignment_check : Entry
  machine_check : Entry
  simd_exception : Entry
  virtualization_exception : Entry

-- `address` is where the linker has put the entry points.
unfoldable pub sys_vector_init : (Entry → ℕ) → (ℕ → ℕ) → (ℕ → ℕ)
sys_vector_init address idt =
    let idt0 = set_trap_gate idt 0 1 (address divide_error) in
    let idt1 = set_trap_gate idt0 1 1 (address debug) in
    let idt2 = set_intr_gate idt1 2 1 (address nmi) in
    let idt3 = set_system_gate idt2 3 1 (address int3) in
    let idt4 = set_system_gate idt3 4 1 (address overflow) in
    let idt5 = set_system_gate idt4 5 1 (address bounds) in
    let idt6 = set_trap_gate idt5 6 1 (address undefined_opcode) in
    let idt7 = set_trap_gate idt6 7 1 (address dev_not_available) in
    let idt8 = set_trap_gate idt7 8 1 (address double_fault) in
    let idt9 = set_trap_gate idt8 9 1 (address coprocessor_segment_overrun) in
    let idt10 = set_trap_gate idt9 10 1 (address invalid_tss) in
    let idt11 = set_trap_gate idt10 11 1 (address segment_not_present) in
    let idt12 = set_trap_gate idt11 12 1 (address stack_segment_fault) in
    let idt13 = set_trap_gate idt12 13 1 (address general_protection) in
    let idt14 = set_trap_gate idt13 14 1 (address page_fault) in
    let idt15 = set_trap_gate idt14 16 1 (address x87_fpu_error) in
    let idt16 = set_trap_gate idt15 17 1 (address alignment_check) in
    let idt17 = set_trap_gate idt16 18 1 (address machine_check) in
    let idt18 = set_trap_gate idt17 19 1 (address simd_exception) in
    set_trap_gate idt18 20 1 (address virtualization_exception)
