-- ===== src/Gate/Decode.antt =====
-- What the processor reads from the descriptors that kernel/include/gate.h writes.
use s_os.Base.{
  ℕ, ◌+◌, ◌*◌, ◌/◌, ◌%◌, ◌^◌, ◌≡◌, ◌<◌, ◌≢◌, refl, arith, ◌==◌, if◌then◌else◌, Bool-cases, inl, inr,
}
use s_os.Base.Bits.Packing.{and_mask}
use s_os.Gate.{set_gate}

-- A gate of the interrupt descriptor table: the address of the handler, its code segment, the stack of the
-- task state segment that it gets, and the byte with the type, the privilege and the present bit.
pub record Gate : Type 0 where
  pub offset : ℕ
  pub selector : ℕ
  pub ist : ℕ
  pub attribute : ℕ

unfoldable pub gate_at : (ℕ → ℕ) → ℕ → Gate
gate_at idt n =
    let low = idt (2 * n) in
    let high = idt (2 * n + 1) in
    record {
      offset = low % 2 ^ 16 + low / 2 ^ 48 % 2 ^ 16 * 2 ^ 16 + high % 2 ^ 32 * 2 ^ 32;
      selector = low / 2 ^ 16 % 2 ^ 16;
      ist = low / 2 ^ 32 % 2 ^ 3;
      attribute = low / 2 ^ 40 % 2 ^ 8;
    }

gate_word :
    (attribute ist addr w : ℕ)
    → attribute < 2 ^ 8
    → addr < 2 ^ 64
    → w
      ≡ ((0x8 * 2 ^ 16 / 2 ^ 16 * 2 ^ 16
              + addr % 2 ^ 16
              + (ist % 8 + attribute * 2 ^ 8) * 2 ^ 32 % 2 ^ 64)
            % 2 ^ 64
          + addr % 2 ^ 32 / 2 ^ 16 * 2 ^ 48 % 2 ^ 64)
        % 2 ^ 64
    → (w % 2 ^ 16 ≡ addr % 2 ^ 16)
      × (w / 2 ^ 48 % 2 ^ 16 ≡ addr / 2 ^ 16 % 2 ^ 16)
      × (w / 2 ^ 16 % 2 ^ 16 ≡ 8)
      × (w / 2 ^ 32 % 2 ^ 3 ≡ ist % 8)
      × (w / 2 ^ 40 % 2 ^ 8 ≡ attribute)
gate_word attribute ist addr w a h e =
    (omega arith, omega arith, omega arith, omega arith, omega arith)

set_gate-low :
    (idt : ℕ → ℕ) (n attribute ist addr : ℕ)
    → set_gate idt n attribute ist addr (2 * n)
      ≡ ((0x8 * 2 ^ 16 / 2 ^ 16 * 2 ^ 16
              + addr % 2 ^ 16
              + (ist % 8 + attribute * 2 ^ 8) * 2 ^ 32 % 2 ^ 64)
            % 2 ^ 64
          + addr % 2 ^ 32 / 2 ^ 16 * 2 ^ 48 % 2 ^ 64)
        % 2 ^ 64
unfolding set_gate
set_gate-low idt n attribute ist addr = rw (and_mask 3 ist) (ground arith)

set_gate-high :
    (idt : ℕ → ℕ) (n attribute ist addr : ℕ)
    → set_gate idt n attribute ist addr (2 * n + 1) ≡ addr / 2 ^ 32
unfolding set_gate
set_gate-high idt n attribute ist addr = ground arith

set_gate-else :
    (idt : ℕ → ℕ) (n attribute ist addr i : ℕ)
    → i ≢ 2 * n
    → i ≢ 2 * n + 1
    → set_gate idt n attribute ist addr i ≡ idt i
unfolding set_gate
set_gate-else idt n attribute ist addr i n0 n1 = ground arith

-- A gate that is set is read as the address of 64 bits that it was given, the kernel's code segment, the
-- low three bits of the stack's index and the byte of attributes; every other gate stays as it was.
pub set_gate-decodes :
    (idt : ℕ → ℕ) (n attribute ist addr m : ℕ)
    → attribute < 2 ^ 8
    → addr < 2 ^ 64
    → gate_at (set_gate idt n attribute ist addr) m ≡ (
        if m == n
        then record { offset = addr; selector = 8; ist = ist % 8; attribute = attribute }
        else gate_at idt m)
unfolding gate_at
set_gate-decodes idt n attribute ist addr m a h = elim (Bool-cases (m == n)) [
  | inl same ↦
      let e : m ≡ n = ground arith in
      let w = set_gate idt n attribute ist addr (2 * n) in
      let (o1, o2, s, t, b) =
        gate_word attribute ist addr w a h (set_gate-low idt n attribute ist addr) in
      let off : w % 2 ^ 16 + w / 2 ^ 48 % 2 ^ 16 * 2 ^ 16 + addr / 2 ^ 32 % 2 ^ 32 * 2 ^ 32 ≡ addr =
        omega arith in
      rw (same, e, set_gate-high idt n attribute ist addr, off, s, t, b) refl
  | inr other ↦
      let ne : m ≢ n = ground arith in
      rw
        (
          other,
          set_gate-else idt n attribute ist addr (2 * m) (omega arith) (omega arith),
          set_gate-else idt n attribute ist addr (2 * m + 1) (omega arith) (omega arith),
        )
        refl
]
