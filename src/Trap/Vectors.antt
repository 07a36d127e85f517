-- ===== src/Trap/Vectors.antt =====
-- The gates that sys_vector_init of kernel/idt/trap.c leaves.
use s_os.Base.{ℕ, ◌≡◌, ◌<◌, ◌^◌, ◌∙◌, refl, ap, arith, if◌then◌else◌, ◌==◌, ltb, ◌||◌, true}
use s_os.Gate.{set_gate, set_intr_gate, set_trap_gate, set_system_gate}
use s_os.Gate.Decode.{Gate, gate_at, set_gate-decodes}
use s_os.Trap.{
  Entry, divide_error, debug, nmi, int3, overflow, bounds, undefined_opcode, dev_not_available,
  double_fault, coprocessor_segment_overrun, invalid_tss, segment_not_present, stack_segment_fault,
  general_protection, page_fault, x87_fpu_error, alignment_check, machine_check, simd_exception,
  virtualization_exception, sys_vector_init,
}

-- The processor's number of each exception.
unfoldable pub vector : Entry → ℕ
vector divide_error = 0
vector debug = 1
vector nmi = 2
vector int3 = 3
vector overflow = 4
vector bounds = 5
vector undefined_opcode = 6
vector dev_not_available = 7
vector double_fault = 8
vector coprocessor_segment_overrun = 9
vector invalid_tss = 10
vector segment_not_present = 11
vector stack_segment_fault = 12
vector general_protection = 13
vector page_fault = 14
vector x87_fpu_error = 16
vector alignment_check = 17
vector machine_check = 18
vector simd_exception = 19
vector virtualization_exception = 20

-- Present, and of type 14, which turns interrupts off, for vector 2; of type 15, open to privilege 3, for the
-- vectors that instructions raise; of type 15, for the kernel alone, otherwise.
unfoldable pub attribute_of : ℕ → ℕ
attribute_of v = if v == 2 then 0x8e else if (v == 3) || ((v == 4) || (v == 5)) then 0xef else 0x8f

abbrev pub gate_to : ℕ → ℕ → Gate
gate_to addr attribute = record { offset = addr; selector = 8; ist = 1; attribute = attribute }

-- the gate of a vector, from the last call on
abbrev installed : (Entry → ℕ) → ℕ → Gate → Gate
installed address m g =
    if m == 20
    then gate_to (address virtualization_exception) 0x8f
    else if m == 19
    then gate_to (address simd_exception) 0x8f
    else if m == 18
    then gate_to (address machine_check) 0x8f
    else if m == 17
    then gate_to (address alignment_check) 0x8f
    else if m == 16
    then gate_to (address x87_fpu_error) 0x8f
    else if m == 14
    then gate_to (address page_fault) 0x8f
    else if m == 13
    then gate_to (address general_protection) 0x8f
    else if m == 12
    then gate_to (address stack_segment_fault) 0x8f
    else if m == 11
    then gate_to (address segment_not_present) 0x8f
    else if m == 10
    then gate_to (address invalid_tss) 0x8f
    else if m == 9
    then gate_to (address coprocessor_segment_overrun) 0x8f
    else if m == 8
    then gate_to (address double_fault) 0x8f
    else if m == 7
    then gate_to (address dev_not_available) 0x8f
    else if m == 6
    then gate_to (address undefined_opcode) 0x8f
    else if m == 5
    then gate_to (address bounds) 0xef
    else if m == 4
    then gate_to (address overflow) 0xef
    else if m == 3
    then gate_to (address int3) 0xef
    else if m == 2
    then gate_to (address nmi) 0x8e
    else if m == 1
    then gate_to (address debug) 0x8f
    else if m == 0
    then gate_to (address divide_error) 0x8f
    else g

installed-vector :
    (address : Entry → ℕ) (g : Gate) (x : Entry)
    → installed address (vector x) g ≡ gate_to (address x) (attribute_of (vector x))
unfolding vector attribute_of
installed-vector address g divide_error = refl
installed-vector address g debug = refl
installed-vector address g nmi = refl
installed-vector address g int3 = refl
installed-vector address g overflow = refl
installed-vector address g bounds = refl
installed-vector address g undefined_opcode = refl
installed-vector address g dev_not_available = refl
installed-vector address g double_fault = refl
installed-vector address g coprocessor_segment_overrun = refl
installed-vector address g invalid_tss = refl
installed-vector address g segment_not_present = refl
installed-vector address g stack_segment_fault = refl
installed-vector address g general_protection = refl
installed-vector address g page_fault = refl
installed-vector address g x87_fpu_error = refl
installed-vector address g alignment_check = refl
installed-vector address g machine_check = refl
installed-vector address g simd_exception = refl
installed-vector address g virtualization_exception = refl

installed-other :
    (address : Entry → ℕ) (g : Gate) (m : ℕ)
    → (m == 15) || ltb 20 m ≡ true
    → installed address m g ≡ g
installed-other address g m h = ground arith

module _ (address : Entry → ℕ) (placed : (x : Entry) → address x < 2 ^ 64) where
  then_gate :
      (idt : ℕ → ℕ) (m : ℕ) {g : Gate} (attribute n : ℕ) (x : Entry)
      → attribute < 2 ^ 8
      → gate_at idt m ≡ g
      → gate_at (set_gate idt n attribute 1 (address x)) m
        ≡ (if m == n then gate_to (address x) attribute else g)
  then_gate idt m attribute n x small e =
      set_gate-decodes idt n attribute 1 (address x) m small (placed x)
      ∙ ap (λ (h : Gate). if m == n then gate_to (address x) attribute else h) e

  then_trap :
      (idt : ℕ → ℕ) (m : ℕ) {g : Gate} (n : ℕ) (x : Entry)
      → gate_at idt m ≡ g
      → gate_at (set_trap_gate idt n 1 (address x)) m
        ≡ (if m == n then gate_to (address x) 0x8f else g)
  unfolding set_trap_gate
  then_trap idt m n x e = then_gate idt m 0x8f n x (omega arith) e

  then_intr :
      (idt : ℕ → ℕ) (m : ℕ) {g : Gate} (n : ℕ) (x : Entry)
      → gate_at idt m ≡ g
      → gate_at (set_intr_gate idt n 1 (address x)) m
        ≡ (if m == n then gate_to (address x) 0x8e else g)
  unfolding set_intr_gate
  then_intr idt m n x e = then_gate idt m 0x8e n x (omega arith) e

  then_system :
      (idt : ℕ → ℕ) (m : ℕ) {g : Gate} (n : ℕ) (x : Entry)
      → gate_at idt m ≡ g
      → gate_at (set_system_gate idt n 1 (address x)) m
        ≡ (if m == n then gate_to (address x) 0xef else g)
  unfolding set_system_gate
  then_system idt m n x e = then_gate idt m 0xef n x (omega arith) e

  sys_vector_init-gates :
      (idt : ℕ → ℕ) (m : ℕ)
      → gate_at (sys_vector_init address idt) m ≡ installed address m (gate_at idt m)
  unfolding sys_vector_init
  sys_vector_init-gates idt m = then_trap _ m 20 virtualization_exception (
      then_trap _ m 19 simd_exception (
        then_trap _ m 18 machine_check (
          then_trap _ m 17 alignment_check (
            then_trap _ m 16 x87_fpu_error (
              then_trap _ m 14 page_fault (
                then_trap _ m 13 general_protection (
                  then_trap _ m 12 stack_segment_fault (
                    then_trap _ m 11 segment_not_present (
                      then_trap _ m 10 invalid_tss (
                        then_trap _ m 9 coprocessor_segment_overrun (
                          then_trap _ m 8 double_fault (
                            then_trap _ m 7 dev_not_available (
                              then_trap _ m 6 undefined_opcode (
                                then_system _ m 5 bounds (
                                  then_system _ m 4 overflow (
                                    then_system _ m 3 int3 (
                                      then_intr _ m 2 nmi (
                                        then_trap _ m 1 debug
                                          (then_trap _ m 0 divide_error refl)))))))))))))))))))

  -- sys_vector_init gives the vector of each exception a gate to its entry point, with the kernel's code
  -- segment, the first stack of the task state segment, and the type of that vector; the gates of vector
  -- 15 and of those from 21 on are what they were.
  pub sys_vector_init-installs :
      (idt : ℕ → ℕ)
      → ((x : Entry)
          → gate_at (sys_vector_init address idt) (vector x)
            ≡ gate_to (address x) (attribute_of (vector x)))
        × ((m : ℕ)
            → (m == 15) || ltb 20 m ≡ true
            → gate_at (sys_vector_init address idt) m ≡ gate_at idt m)
  sys_vector_init-installs idt = (
    (λ x.
        sys_vector_init-gates idt (vector x) ∙ installed-vector address (gate_at idt (vector x)) x),
    (λ m h. sys_vector_init-gates idt m ∙ installed-other address (gate_at idt m) m h),
  )
