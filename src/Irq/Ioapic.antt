-- ===== src/Irq/Ioapic.antt =====
-- The redirection table of the I/O APIC, kernel/device/pic/APIC.c.
--
-- The registers that the index and data addresses reach are a function from a register's number to its
-- 32 bits: hardware that keeps what is written to it. Fences are left out.

use Prim.Native.Nat.{bit_and, bit_or}
use s_os.Base.{
  ℕ, ◌+◌, ◌-◌, ◌*◌, ◌/◌, ◌%◌, ◌^◌, ◌≡◌, ◌≢◌, ◌≤◌, ◌<◌, sym, ◌==◌, ◌&&◌, ◌||◌, not, update, arith,
}
use s_os.Base.Bits.{
  test_bit, test-or, test-and, test-pow, test-shl, test-shr, test-mod, test-complement, eq_of_bits,
  or-lt, and-lt,
}

abbrev pub Registers : Type 0
Registers = ℕ → ℕ

unfoldable pub ioapic_rte_read : Registers → ℕ → ℕ
ioapic_rte_read r index = bit_or (r (index + 1) * 2 ^ 32 % 2 ^ 64) (r index)

unfoldable pub ioapic_rte_write : Registers → ℕ → ℕ → Registers
ioapic_rte_write r index value =
    let r1 = update r index (value % 2 ^ 32) in update r1 (index + 1) (value / 2 ^ 32 % 2 ^ 32)

-- `(irq - 32) * 2 + 0x10`, an `unsigned char`
abbrev pub rte : ℕ → ℕ
rte irq = ((irq - 32) * 2 + 0x10) % 256

unfoldable pub ioapic_enable : Registers → ℕ → Registers
ioapic_enable r irq =
    ioapic_rte_write r (rte irq) (bit_and (ioapic_rte_read r (rte irq)) (2 ^ 64 - 1 - 0x10000))

unfoldable pub ioapic_disable : Registers → ℕ → Registers
ioapic_disable r irq = ioapic_rte_write r (rte irq) (bit_or (ioapic_rte_read r (rte irq)) 0x10000)

-- `entry` is the 64 bits that `arg` points to.
unfoldable pub ioapic_install : Registers → ℕ → ℕ → Registers
ioapic_install r irq entry = ioapic_rte_write r (rte irq) entry

unfoldable pub ioapic_uninstall : Registers → ℕ → Registers
ioapic_uninstall r irq = ioapic_rte_write r (rte irq) 0x10000

-- A 64-bit value that is written is read back.
pub read-write :
    (r : Registers) (index value : ℕ)
    → value < 2 ^ 64
    → ioapic_rte_read (ioapic_rte_write r index value) index ≡ value
unfolding ioapic_rte_read ioapic_rte_write
read-write r index value small =
    let high : value / 2 ^ 32 % 2 ^ 32 * 2 ^ 32 % 2 ^ 64 ≡ value / 2 ^ 32 * 2 ^ 32 = omega arith in
    let e : bit_or (value / 2 ^ 32 * 2 ^ 32) (value % 2 ^ 32) ≡ value =
      eq_of_bits 64 (bit_or (value / 2 ^ 32 * 2 ^ 32) (value % 2 ^ 32)) value
        (or-lt 64 (value / 2 ^ 32 * 2 ^ 32) (value % 2 ^ 32) (omega arith) (omega arith)) small
        (λ k h. ground (
          arith,
          test-or (value / 2 ^ 32 * 2 ^ 32) (value % 2 ^ 32) k,
          test-shl 32 (value / 2 ^ 32) k,
          test-shr 32 value (k - 32),
          test-mod 32 value k,
        )) in
    ground (arith, e, high)

-- A redirection entry keeps its 64 bits when another one is written.
pub read-other :
    (r : Registers) (a b value : ℕ)
    → 32 ≤ a
    → a < 56
    → 32 ≤ b
    → b < 56
    → a ≢ b
    → ioapic_rte_read (ioapic_rte_write r (rte a) value) (rte b) ≡ ioapic_rte_read r (rte b)
unfolding ioapic_rte_read ioapic_rte_write
read-other r a b value la ha lb hb ne = ground arith

module _ (r : Registers) (irq entry : ℕ) (low : 32 ≤ irq) (high : irq < 56)
    (small : entry < 2 ^ 64) where
  -- An interrupt that is installed and then enabled has the installed entry with the mask bit cleared;
  -- disabled after that, the entry with the mask bit set; uninstalled, the mask bit alone.
  ioapic_enable-bits :
      (i : ℕ)
      → i < 64
      → let on = ioapic_enable (ioapic_install r irq entry) irq in
        (test_bit (ioapic_rte_read on (rte irq)) i ≡ (test_bit entry i && not (i == 16)))
        × (test_bit (ioapic_rte_read (ioapic_disable on irq) (rte irq)) i
            ≡ (test_bit entry i || (i == 16)))
        × (test_bit (ioapic_rte_read (ioapic_uninstall on irq) (rte irq)) i ≡ (i == 16))
  unfolding ioapic_enable ioapic_install ioapic_disable ioapic_uninstall
  ioapic_enable-bits i h =
      let off = 2 ^ 64 - 1 - 2 ^ 16 in
      let r1 = ioapic_rte_write r (rte irq) entry in
      let e1 : ioapic_rte_read r1 (rte irq) ≡ entry = read-write r (rte irq) entry small in
      let on = ioapic_rte_write r1 (rte irq) (bit_and entry off) in
      let e2 : ioapic_rte_read on (rte irq) ≡ bit_and entry off =
        read-write r1 (rte irq) (bit_and entry off) (and-lt 64 entry off small) in
      let b2 = test-and entry off i in
      let c2 = test-complement 64 (2 ^ 16) i (omega arith) in
      let p2 = test-pow 16 i in
      (
        rw (e1, e2) (ground arith),
        rw
            (
              e1,
              e2,
              read-write on (rte irq) (bit_or (bit_and entry off) (2 ^ 16))
                  (or-lt 64 (bit_and entry off) (2 ^ 16) (and-lt 64 entry off small) (omega arith)),
            )
            (ground (arith, test-or (bit_and entry off) (2 ^ 16) i)),
        rw (e1, read-write on (rte irq) (2 ^ 16) (omega arith)) p2,
      )

  -- What is done to one interrupt leaves the redirection entry of every other one as it was.
  ioapic_enable-other :
      (other : ℕ)
      → 32 ≤ other
      → other < 56
      → other ≢ irq
      → (ioapic_rte_read (ioapic_install r irq entry) (rte other) ≡ ioapic_rte_read r (rte other))
        × (ioapic_rte_read (ioapic_enable r irq) (rte other) ≡ ioapic_rte_read r (rte other))
        × (ioapic_rte_read (ioapic_disable r irq) (rte other) ≡ ioapic_rte_read r (rte other))
        × (ioapic_rte_read (ioapic_uninstall r irq) (rte other) ≡ ioapic_rte_read r (rte other))
  unfolding ioapic_enable ioapic_install ioapic_disable ioapic_uninstall
  ioapic_enable-other other lo ho ne =
      let same = λ (value : ℕ). read-other r irq other value low high lo ho (λ e. ne (sym e)) in
      (
        same entry,
        same (bit_and (ioapic_rte_read r (rte irq)) (2 ^ 64 - 1 - 0x10000)),
        same (bit_or (ioapic_rte_read r (rte irq)) 0x10000),
        same 0x10000,
      )
