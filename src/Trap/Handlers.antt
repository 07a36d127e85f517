-- ===== src/Trap/Handlers.antt =====
-- What the handlers of kernel/idt/trap.c print before they stop for good.
--
-- Each message is the text and the arguments that color_printk is given, always in red on black; `cpu` is
-- SMP_cpu_id(), `cr2` the register that the page fault's handler reads.
use Prim.Native.Nat.{bit_and}
use Prim.Native.String.{String}
use s_os.Base.{ℕ, Bool, List, [], ◌∷◌, ◌++◌, ◌==◌, not, if◌then◌else◌}
use s_os.Task.{Regs}

pub record Message : Type 0 where
  pub text : String
  pub args : List ℕ

abbrev pub plain : String → Message
plain text = record { text = text; args = [] }

-- the message of every handler
abbrev pub report : String → Regs → ℕ → ℕ → Message
report text regs error_code cpu = record {
  text = text;
  args = error_code ∷ (regs.rsp ∷ (regs.rip ∷ (cpu ∷ [])));
}

unfoldable pub do_divide_error : Regs → ℕ → ℕ → List Message
do_divide_error regs error_code cpu =
    report "do_divide_error(0),ERROR_CODE:%#018lx,RSP:%#018lx,RIP:%#018lx,CPU:%#018lx\n" regs
      error_code cpu
    ∷ []

unfoldable pub do_debug : Regs → ℕ → ℕ → List Message
do_debug regs error_code cpu =
    report "do_debug(1),ERROR_CODE:%#018lx,RSP:%#018lx,RIP:%#018lx,CPU:%#018lx\n" regs error_code
      cpu
    ∷ []

unfoldable pub do_nmi : Regs → ℕ → ℕ → List Message
do_nmi regs error_code cpu =
    report "do_nmi(2),ERROR_CODE:%#018lx,RSP:%#018lx,RIP:%#018lx,CPU:%#018lx\n" regs error_code cpu
    ∷ []

unfoldable pub do_int3 : Regs → ℕ → ℕ → List Message
do_int3 regs error_code cpu =
    report "do_int3(3),ERROR_CODE:%#018lx,RSP:%#018lx,RIP:%#018lx,CPU:%#018lx\n" regs error_code cpu
    ∷ []

unfoldable pub do_overflow : Regs → ℕ → ℕ → List Message
do_overflow regs error_code cpu =
    report "do_overflow(4),ERROR_CODE:%#018lx,RSP:%#018lx,RIP:%#018lx,CPU:%#018lx\n" regs error_code
      cpu
    ∷ []

unfoldable pub do_bounds : Regs → ℕ → ℕ → List Message
do_bounds regs error_code cpu =
    report "do_bounds(5),ERROR_CODE:%#018lx,RSP:%#018lx,RIP:%#018lx,CPU:%#018lx\n" regs error_code
      cpu
    ∷ []

unfoldable pub do_undefined_opcode : Regs → ℕ → ℕ → List Message
do_undefined_opcode regs error_code cpu =
    report "do_undefined_opcode(6),ERROR_CODE:%#018lx,RSP:%#018lx,RIP:%#018lx,CPU:%#018lx\n" regs
      error_code cpu
    ∷ []

unfoldable pub do_dev_not_available : Regs → ℕ → ℕ → List Message
do_dev_not_available regs error_code cpu =
    report "do_dev_not_available(7),ERROR_CODE:%#018lx,RSP:%#018lx,RIP:%#018lx,CPU:%#018lx\n" regs
      error_code cpu
    ∷ []

unfoldable pub do_double_fault : Regs → ℕ → ℕ → List Message
do_double_fault regs error_code cpu =
    report "do_double_fault(8),ERROR_CODE:%#018lx,RSP:%#018lx,RIP:%#018lx,CPU:%#018lx\n" regs
      error_code cpu
    ∷ []

unfoldable pub do_coprocessor_segment_overrun : Regs → ℕ → ℕ → List Message
do_coprocessor_segment_overrun regs error_code cpu =
    report
      "do_coprocessor_segment_overrun(9),ERROR_CODE:%#018lx,RSP:%#018lx,RIP:%#018lx,CPU:%#018lx\n"
      regs error_code cpu
    ∷ []

-- is no bit of the mask set?
abbrev pub clear : ℕ → ℕ → Bool
clear error_code mask = bit_and error_code mask == 0

-- `if (bit) color_printk(text)`
abbrev pub when : Bool → String → List Message
when b text = if b then plain text ∷ [] else []

-- the explanation that four of the handlers give
unfoldable pub selector_error : ℕ → List Message
selector_error error_code =
    when (not (clear error_code 0x01))
      "The exception occurred during delivery of an event external to the program,such as an interrupt or an earlier exception.\n"
    ++ ((if not (clear error_code 0x02)
          then plain "Refers to a gate descriptor in the IDT;\n" ∷ []
          else plain "Refers to a descriptor in the GDT or the current LDT;\n" ∷ [])
        ++ ((if clear error_code 0x02
              then (if not (clear error_code 0x04)
                  then plain "Refers to a segment or gate descriptor in the LDT;\n" ∷ []
                  else plain "Refers to a descriptor in the current GDT;\n" ∷ [])
              else [])
            ++ (record {
              text = "Segment Selector Index:%#010x\n";
              args = bit_and error_code 0xfff8 ∷ [];
            }
                ∷ [])))

unfoldable pub do_invalid_tss : Regs → ℕ → ℕ → List Message
do_invalid_tss regs error_code cpu =
    report "do_invalid_TSS(10),ERROR_CODE:%#018lx,RSP:%#018lx,RIP:%#018lx,CPU:%#018lx\n" regs
      error_code cpu
    ∷ selector_error error_code

unfoldable pub do_segment_not_present : Regs → ℕ → ℕ → List Message
do_segment_not_present regs error_code cpu =
    report "do_segment_not_present(11),ERROR_CODE:%#018lx,RSP:%#018lx,RIP:%#018lx,CPU:%#018lx\n"
      regs error_code cpu
    ∷ selector_error error_code

unfoldable pub do_stack_segment_fault : Regs → ℕ → ℕ → List Message
do_stack_segment_fault regs error_code cpu =
    report "do_stack_segment_fault(12),ERROR_CODE:%#018lx,RSP:%#018lx,RIP:%#018lx,CPU:%#018lx\n"
      regs error_code cpu
    ∷ selector_error error_code

unfoldable pub do_general_protection : Regs → ℕ → ℕ → List Message
do_general_protection regs error_code cpu =
    report "do_general_protection(13),ERROR_CODE:%#018lx,RSP:%#018lx,RIP:%#018lx,CPU:%#018lx\n" regs
      error_code cpu
    ∷ selector_error error_code

unfoldable pub do_x87_fpu_error : Regs → ℕ → ℕ → List Message
do_x87_fpu_error regs error_code cpu =
    report "do_x87_FPU_error(16),ERROR_CODE:%#018lx,RSP:%#018lx,RIP:%#018lx,CPU:%#018lx\n" regs
      error_code cpu
    ∷ []

unfoldable pub do_alignment_check : Regs → ℕ → ℕ → List Message
do_alignment_check regs error_code cpu =
    report "do_alignment_check(17),ERROR_CODE:%#018lx,RSP:%#018lx,RIP:%#018lx,CPU:%#018lx\n" regs
      error_code cpu
    ∷ []

unfoldable pub do_machine_check : Regs → ℕ → ℕ → List Message
do_machine_check regs error_code cpu =
    report "do_machine_check(18),ERROR_CODE:%#018lx,RSP:%#018lx,RIP:%#018lx,CPU:%#018lx\n" regs
      error_code cpu
    ∷ []

unfoldable pub do_simd_exception : Regs → ℕ → ℕ → List Message
do_simd_exception regs error_code cpu =
    report "do_SIMD_exception(19),ERROR_CODE:%#018lx,RSP:%#018lx,RIP:%#018lx,CPU:%#018lx\n" regs
      error_code cpu
    ∷ []

unfoldable pub do_virtualization_exception : Regs → ℕ → ℕ → List Message
do_virtualization_exception regs error_code cpu =
    report
      "do_virtualization_exception(20),ERROR_CODE:%#018lx,RSP:%#018lx,RIP:%#018lx,CPU:%#018lx\n"
      regs error_code cpu
    ∷ []

-- the explanation of a page fault
unfoldable pub fault_error : ℕ → List Message
fault_error error_code =
    when (clear error_code 0x01) "Page Not-Present,\t"
    ++ ((if not (clear error_code 0x02)
          then plain "Write Cause Fault,\t" ∷ []
          else plain "Read Cause Fault,\t" ∷ [])
        ++ ((if not (clear error_code 0x04)
              then plain "Fault in user(3)\t" ∷ []
              else plain "Fault in supervisor(0,1,2)\t" ∷ [])
            ++ (when (not (clear error_code 0x08)) ",Reserved Bit Cause Fault\t"
                ++ when (not (clear error_code 0x10)) ",Instruction fetch Cause Fault")))

unfoldable pub do_page_fault : ℕ → Regs → ℕ → ℕ → List Message
do_page_fault cr2 regs error_code cpu =
    report "do_page_fault(14),ERROR_CODE:%#018lx,RSP:%#018lx,RIP:%#018lx,CPU:%#018lx\n" regs
      error_code cpu
    ∷ (fault_error error_code
        ++ (plain "\n" ∷ (record { text = "CR2:%#018lx\n"; args = cr2 ∷ [] } ∷ [])))
