-- ===== src/Gate/Tss.antt =====
-- The descriptor of a task state segment, as the processor reads what kernel/include/gate.h writes.
use Prim.Native.Nat.{bit_or}
use s_os.Base.{ℕ, ◌+◌, ◌*◌, ◌/◌, ◌%◌, ◌^◌, ◌≡◌, ◌<◌, ◌≢◌, refl, arith, true, false, ◌==◌}
use s_os.Base.Bits.Packing.{and_mask, or_add}
use s_os.Gate.{set_tss_descriptor}

-- The descriptor of a task state segment.
pub record TssDescriptor : Type 0 where
  pub base : ℕ
  pub limit : ℕ
  pub access : ℕ

unfoldable pub tss_at : (ℕ → ℕ) → ℕ → TssDescriptor
tss_at gdt n =
    let low = gdt n in
    let high = gdt (n + 1) in
    record {
      base = low / 2 ^ 16 % 2 ^ 24 + low / 2 ^ 56 % 2 ^ 8 * 2 ^ 24 + high % 2 ^ 32 * 2 ^ 32;
      limit = low % 2 ^ 16 + low / 2 ^ 48 % 2 ^ 4 * 2 ^ 16;
      access = low / 2 ^ 40 % 2 ^ 8;
    }

-- the first word of the descriptor, as a sum of its fields
tss_word :
    (addr : ℕ)
    → bit_or
        (bit_or
          (bit_or
            (bit_or
              (bit_or (103 % 2 ^ 16) (addr % 2 ^ 16 * 2 ^ 16))
              (addr / 2 ^ 16 % 2 ^ 8 * 2 ^ 32))
            (0x89 * 2 ^ 40))
          (0 * 2 ^ 48))
        (addr / 2 ^ 24 % 2 ^ 8 * 2 ^ 56)
      ≡ 103
        + addr % 2 ^ 16 * 2 ^ 16
        + addr / 2 ^ 16 % 2 ^ 8 * 2 ^ 32
        + 0x89 * 2 ^ 40
        + addr / 2 ^ 24 % 2 ^ 8 * 2 ^ 56
tss_word addr =
    let a = 103 + addr % 2 ^ 16 * 2 ^ 16 in
    let b = a + addr / 2 ^ 16 % 2 ^ 8 * 2 ^ 32 in
    let c = b + 0x89 * 2 ^ 40 in
    rw
      (
        or_add 16 103 (addr % 2 ^ 16) (omega arith),
        or_add 32 a (addr / 2 ^ 16 % 2 ^ 8) (omega arith),
        or_add 40 b 0x89 (omega arith),
        or_add 48 c 0 (omega arith),
        or_add 56 (c + 0) (addr / 2 ^ 24 % 2 ^ 8) (omega arith),
      )
      (omega arith)

set_tss_descriptor-low :
    (gdt : ℕ → ℕ) (n addr : ℕ)
    → set_tss_descriptor gdt n addr n
      ≡ 103
        + addr % 2 ^ 16 * 2 ^ 16
        + addr / 2 ^ 16 % 2 ^ 8 * 2 ^ 32
        + 0x89 * 2 ^ 40
        + addr / 2 ^ 24 % 2 ^ 8 * 2 ^ 56
unfolding set_tss_descriptor
set_tss_descriptor-low gdt n addr =
    let differ : (n == n + 1) ≡ false = ground arith in
    let same : (n == n) ≡ true = ground arith in
    let fits1 : addr % 2 ^ 16 * 2 ^ 16 % 2 ^ 64 ≡ addr % 2 ^ 16 * 2 ^ 16 = omega arith in
    let fits2 : addr / 2 ^ 16 % 2 ^ 8 * 2 ^ 32 % 2 ^ 64 ≡ addr / 2 ^ 16 % 2 ^ 8 * 2 ^ 32 =
      omega arith in
    let fits3 : addr / 2 ^ 24 % 2 ^ 8 * 2 ^ 56 % 2 ^ 64 ≡ addr / 2 ^ 24 % 2 ^ 8 * 2 ^ 56 =
      omega arith in
    rw
      (
        differ,
        same,
        and_mask 16 addr,
        and_mask 8 (addr / 2 ^ 16),
        and_mask 8 (addr / 2 ^ 24),
        fits1,
        fits2,
        fits3,
      )
      (tss_word addr)

set_tss_descriptor-high :
    (gdt : ℕ → ℕ) (n addr : ℕ) → set_tss_descriptor gdt n addr (n + 1) ≡ addr / 2 ^ 32 % 2 ^ 32
unfolding set_tss_descriptor
set_tss_descriptor-high gdt n addr =
    let same : (n + 1 == n + 1) ≡ true = ground arith in
    rw (same, and_mask 32 (addr / 2 ^ 32))
      (omega (arith, or_add 32 (addr / 2 ^ 32 % 2 ^ 32) 0 (omega arith)))

set_tss_descriptor-else :
    (gdt : ℕ → ℕ) (n addr i : ℕ) → i ≢ n → i ≢ n + 1 → set_tss_descriptor gdt n addr i ≡ gdt i
unfolding set_tss_descriptor
set_tss_descriptor-else gdt n addr i n0 n1 = ground arith

tss_fields :
    (w addr : ℕ)
    → addr < 2 ^ 64
    → w
      ≡ 103
        + addr % 2 ^ 16 * 2 ^ 16
        + addr / 2 ^ 16 % 2 ^ 8 * 2 ^ 32
        + 0x89 * 2 ^ 40
        + addr / 2 ^ 24 % 2 ^ 8 * 2 ^ 56
    → (w / 2 ^ 16 % 2 ^ 24 + w / 2 ^ 56 % 2 ^ 8 * 2 ^ 24 + addr / 2 ^ 32 % 2 ^ 32 % 2 ^ 32 * 2 ^ 32
        ≡ addr)
      × (w % 2 ^ 16 + w / 2 ^ 48 % 2 ^ 4 * 2 ^ 16 ≡ 103)
      × (w / 2 ^ 40 % 2 ^ 8 ≡ 0x89)
tss_fields w addr h e = (omega arith, omega arith, omega arith)

-- The descriptor that set_tss_descriptor writes is read as one of 104 bytes at the address of 64 bits that it
-- was given, present, of the kernel and available; every word of the table but its two stays as it was.
pub set_tss_descriptor-decodes :
    (gdt : ℕ → ℕ) (n addr : ℕ)
    → addr < 2 ^ 64
    → (tss_at (set_tss_descriptor gdt n addr) n
        ≡ record { base = addr; limit = 103; access = 0x89 })
      × ((i : ℕ) → i ≢ n → i ≢ n + 1 → set_tss_descriptor gdt n addr i ≡ gdt i)
unfolding tss_at
set_tss_descriptor-decodes gdt n addr h =
    let (b, l, a) =
      tss_fields (set_tss_descriptor gdt n addr n) addr h (set_tss_descriptor-low gdt n addr) in
    (rw (set_tss_descriptor-high gdt n addr, b, l, a) refl, set_tss_descriptor-else gdt n addr)
