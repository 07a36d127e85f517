-- ===== src/Trap/Explain.antt =====
-- What the messages of the handlers of kernel/idt/trap.c tell about the exception.
use Prim.Native.String.{String}
use text.Mathlib.Text.{◌==◌}
use s_os.Base.{
  ℕ, ◌+◌, ◌/◌, ◌%◌, ◌^◌, ◌≡◌, Bool, true, false, List, [], ◌∷◌, ◌++◌, ◌||◌, not, if◌then◌else◌,
  arith, refl, ◌∙◌,
}
use s_os.Base.Bits.{test_bit, test-shr, and_pow-zero}
use s_os.Task.{Regs}
use s_os.Trap.Handlers.{Message, plain, clear, when, fault_error, do_page_fault}

unfoldable pub mentions : String → List Message → Bool
mentions text [] = false
mentions text (m ∷ ms) = (m.text == text) || mentions text ms

abbrev weight : Bool → ℕ → ℕ
weight b n = if b then n else 0

-- The error code of a page fault, as a reader of the messages tells it.
unfoldable pub told_code : List Message → ℕ
told_code ms =
    weight (not (mentions "Page Not-Present,\t" ms)) 1
    + weight (mentions "Write Cause Fault,\t" ms) 2
    + weight (mentions "Fault in user(3)\t" ms) 4
    + weight (mentions ",Reserved Bit Cause Fault\t" ms) 8
    + weight (mentions ",Instruction fetch Cause Fault" ms) 16

or_false : (b : Bool) → (b || false) ≡ b
or_false true = refl
or_false false = refl

mentions-++ :
    (text : String) (ms ns : List Message)
    → mentions text (ms ++ ns) ≡ (mentions text ms || mentions text ns)
unfolding mentions
mentions-++ text [] ns = refl
mentions-++ text (m ∷ ms) ns = ground (arith, mentions-++ text ms ns)

mentions_if :
    (text u v : String) (b : Bool)
    → mentions text (if b then plain u ∷ [] else plain v ∷ [])
      ≡ (if b then u == text else (v == text))
unfolding mentions
mentions_if text u v true = or_false (u == text)
mentions_if text u v false = or_false (v == text)

mentions-when :
    (text u : String) (b : Bool) → mentions text (when b u) ≡ (if b then u == text else false)
unfolding mentions
mentions-when text u true = or_false (u == text)
mentions-when text u false = refl

-- which text a page fault's explanation has, by the tests of the error code
mentions-fault_error :
    (text : String) (code : ℕ)
    → mentions text (fault_error code) ≡ (
        (if clear code 0x01 then "Page Not-Present,\t" == text else false)
        || ((if not (clear code 0x02)
              then "Write Cause Fault,\t" == text
              else ("Read Cause Fault,\t" == text))
            || ((if not (clear code 0x04)
                  then "Fault in user(3)\t" == text
                  else ("Fault in supervisor(0,1,2)\t" == text))
                || ((if not (clear code 0x08) then ",Reserved Bit Cause Fault\t" == text else false)
                    || (if not (clear code 0x10)
                        then ",Instruction fetch Cause Fault" == text
                        else false)))))
unfolding fault_error
mentions-fault_error text code = simp (mentions-++, mentions_if, mentions-when)

mentions-do_page_fault :
    (text : String) (cr2 : ℕ) (regs : Regs) (code cpu : ℕ)
    → mentions text (do_page_fault cr2 regs code cpu) ≡ (
        ("do_page_fault(14),ERROR_CODE:%#018lx,RSP:%#018lx,RIP:%#018lx,CPU:%#018lx\n" == text)
        || (mentions text (fault_error code)
            || (("\n" == text) || (("CR2:%#018lx\n" == text) || false))))
unfolding do_page_fault mentions
mentions-do_page_fault text cr2 regs code cpu = simp mentions-++

clear_bit : (code k : ℕ) → (clear code (2 ^ k) ≡ not (test_bit (code / 2 ^ k) 0))
clear_bit code k = ground (arith, and_pow-zero code k, test-shr k code 0)

told_fault :
    (cr2 : ℕ) (regs : Regs) (code cpu : ℕ)
    → told_code (do_page_fault cr2 regs code cpu)
      ≡ weight (not (clear code 0x01)) 1
        + weight (not (clear code 0x02)) 2
        + weight (not (clear code 0x04)) 4
        + weight (not (clear code 0x08)) 8
        + weight (not (clear code 0x10)) 16
unfolding told_code
told_fault cr2 regs code cpu = simp (mentions-do_page_fault, mentions-fault_error) (ground arith)

weights :
    (code : ℕ)
    → weight (not (clear code 0x01)) 1
        + weight (not (clear code 0x02)) 2
        + weight (not (clear code 0x04)) 4
        + weight (not (clear code 0x08)) 8
        + weight (not (clear code 0x10)) 16
      ≡ code % 2 ^ 5
unfolding test_bit
weights code = ground (
  arith,
  clear_bit code 0,
  clear_bit code 1,
  clear_bit code 2,
  clear_bit code 3,
  clear_bit code 4,
)

-- The messages of the handler of page faults tell the five bits of the error code that the processor
-- defines: whether the page was present, the access a write, in user mode, to an entry with a reserved bit,
-- and a fetch of an instruction.
pub do_page_fault-tells :
    (cr2 : ℕ) (regs : Regs) (error_code cpu : ℕ)
    → told_code (do_page_fault cr2 regs error_code cpu) ≡ error_code % 2 ^ 5
do_page_fault-tells cr2 regs error_code cpu =
    told_fault cr2 regs error_code cpu ∙ weights error_code
