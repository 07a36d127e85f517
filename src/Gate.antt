-- ===== src/Gate.antt =====
-- The descriptors of kernel/include/gate.h.
--
-- A table of descriptors is a function from the index of a 64-bit word; the task state segment is one
-- from the index of an `unsigned int`.
pub mod Decode
pub mod Tss
pub mod Stacks
mod Tests
use Prim.Native.Nat.{bit_and, bit_or}
use s_os.Base.{ℕ, ◌+◌, ◌*◌, ◌/◌, ◌%◌, ◌^◌, update}

-- `_set_gate`, by the registers of its instructions; `attribute` is the parameter that it calls addr.
unfoldable pub set_gate : (ℕ → ℕ) → ℕ → ℕ → ℕ → ℕ → (ℕ → ℕ)
set_gate idt n attribute ist code_addr =
    let rax = 0x8 * 2 ^ 16 / 2 ^ 16 * 2 ^ 16 + code_addr % 2 ^ 16 in
    let rcx = (bit_and ist 7 + attribute * 2 ^ 8) * 2 ^ 32 % 2 ^ 64 in
    let rax1 = (rax + rcx) % 2 ^ 64 in
    let rcx1 = code_addr % 2 ^ 32 / 2 ^ 16 * 2 ^ 48 % 2 ^ 64 in
    let rax2 = (rax1 + rcx1) % 2 ^ 64 in
    update (update idt (2 * n) rax2) (2 * n + 1) (code_addr / 2 ^ 32)

unfoldable pub set_intr_gate : (ℕ → ℕ) → ℕ → ℕ → ℕ → (ℕ → ℕ)
set_intr_gate idt n ist addr = set_gate idt n 0x8e ist addr

unfoldable pub set_trap_gate : (ℕ → ℕ) → ℕ → ℕ → ℕ → (ℕ → ℕ)
set_trap_gate idt n ist addr = set_gate idt n 0x8f ist addr

unfoldable pub set_system_gate : (ℕ → ℕ) → ℕ → ℕ → ℕ → (ℕ → ℕ)
set_system_gate idt n ist addr = set_gate idt n 0xef ist addr

unfoldable pub set_tss_descriptor : (ℕ → ℕ) → ℕ → ℕ → (ℕ → ℕ)
set_tss_descriptor gdt n addr =
    let limit : ℕ = 103 in
    let low =
      bit_or
        (bit_or
          (bit_or
            (bit_or (bit_or (bit_and limit 0xffff) (bit_and addr 0xffff * 2 ^ 16 % 2 ^ 64))
              (bit_and (addr / 2 ^ 16) 0xff * 2 ^ 32 % 2 ^ 64))
            (0x89 * 2 ^ 40))
          (bit_and (limit / 2 ^ 16) 0xf * 2 ^ 48 % 2 ^ 64))
        (bit_and (addr / 2 ^ 24) 0xff * 2 ^ 56 % 2 ^ 64) in
    let high = bit_or (bit_and (addr / 2 ^ 32) 0xffffffff) 0 in
    update (update gdt n low) (n + 1) high

-- a store of an `unsigned long` to the task state segment
unfoldable pub put_long : (ℕ → ℕ) → ℕ → ℕ → (ℕ → ℕ)
put_long tss i v = update (update tss i (v % 2 ^ 32)) (i + 1) (v / 2 ^ 32)

unfoldable pub set_tss64 : (ℕ → ℕ) → ℕ → ℕ → ℕ → ℕ → ℕ → ℕ → ℕ → ℕ → ℕ → ℕ → (ℕ → ℕ)
set_tss64 tss rsp0 rsp1 rsp2 ist1 ist2 ist3 ist4 ist5 ist6 ist7 =
    let t0 = put_long tss 1 rsp0 in
    let t1 = put_long t0 3 rsp1 in
    let t2 = put_long t1 5 rsp2 in
    let t3 = put_long t2 9 ist1 in
    let t4 = put_long t3 11 ist2 in
    let t5 = put_long t4 13 ist3 in
    let t6 = put_long t5 15 ist4 in
    let t7 = put_long t6 17 ist5 in let t8 = put_long t7 19 ist6 in put_long t8 21 ist7
