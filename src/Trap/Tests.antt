-- ===== src/Trap/Tests.antt =====
-- Entry points 16 bytes apart, and an empty table.
use s_os.Base.{ℕ, ◌≡◌, ◌+◌, ◌*◌, ◌%◌, arith, ◌==◌, ltb, ◌||◌, true}
use s_os.Gate.Decode.{gate_at}
use s_os.Trap.{Entry, sys_vector_init}
use s_os.Task.{Regs}
use s_os.Trap.Handlers.{do_page_fault}
use s_os.Trap.Explain.{told_code, do_page_fault-tells}
use s_os.Trap.Vectors.{vector, attribute_of, gate_to, sys_vector_init-installs}

abbrev empty : ℕ → ℕ
empty i = 0

abbrev entry_point : Entry → ℕ
entry_point x = 0xffff800000104000 + 16 * (vector x % 32)

sys_vector_init-installs_example :
    ((x : Entry)
      → gate_at (sys_vector_init entry_point empty) (vector x)
        ≡ gate_to (entry_point x) (attribute_of (vector x)))
    × ((m : ℕ)
        → (m == 15) || ltb 20 m ≡ true
        → gate_at (sys_vector_init entry_point empty) m ≡ gate_at empty m)
sys_vector_init-installs_example = sys_vector_init-installs entry_point (λ x. omega arith) empty

abbrev saved : Regs
saved = record {
  r15 = 0;
  r14 = 0;
  r13 = 0;
  r12 = 0;
  r11 = 0;
  r10 = 0;
  r9 = 0;
  r8 = 0;
  rbx = 0;
  rcx = 0;
  rdx = 0;
  rsi = 0;
  rdi = 0;
  rbp = 0;
  ds = 0x10;
  es = 0x10;
  rax = 0;
  func = 0;
  errcode = 6;
  rip = 0x801000;
  cs = 0x2b;
  rflags = 0x202;
  rsp = 0xa00000;
  ss = 0x33;
}

do_page_fault-tells_example : told_code (do_page_fault 0x900000 saved 6 0) ≡ 6
do_page_fault-tells_example = do_page_fault-tells 0x900000 saved 6 0
