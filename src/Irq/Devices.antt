-- ===== src/Irq/Devices.antt =====
-- The device interrupts after the registrations of HPET_init, kernel/device/HPET.c, and keyboard_init,
-- kernel/device/keyboard.c.
use Prim.Native.Nat.{bit_and, bit_or}
use s_os.Base.{
  ℕ, ◌+◌, ◌-◌, ◌*◌, ◌^◌, ◌≡◌, ◌≢◌, ◌≤◌, ◌<◌, refl, ◌∙◌, sym, ap, true, false, ◌==◌, ltb, ◌||◌,
  if◌then◌else◌, arith, Bool-cases, inl, inr,
}
use s_os.Base.Bits.{test-or, test-and, test-pow, test_above, test-complement, eq_of_bits, and-lt}
use s_os.Base.Bits.Packing.{or_add}
use s_os.Irq.{Tables, vacant, register_irq, do_irq, run_handler, run_ack}
use s_os.Irq.Dispatch.{external}
use s_os.Irq.Ioapic.{
  Registers, ioapic_rte_read, ioapic_rte_write, rte, ioapic_enable, ioapic_install, read-write,
  read-other,
}
use s_os.Irq.Setup.{
  packed, ioapic_init, apic_ioapic_init, edge_entry, hpet_init, keyboard_init, nr_irqs,
}
use s_os.Irq.Ready.{entry_at, unpacked_plain, ioapic_init-entry}

unmasked : (vector : ℕ) → vector < 2 ^ 16 → bit_and (vector + 2 ^ 16) (2 ^ 64 - 1 - 2 ^ 16) ≡ vector
unmasked vector small =
    let e : bit_or vector (1 * 2 ^ 16) ≡ vector + 2 ^ 16 = or_add 16 vector 1 small in
    eq_of_bits 17 (bit_and (vector + 2 ^ 16) (2 ^ 64 - 1 - 2 ^ 16)) vector
      (and-lt 17 (vector + 2 ^ 16) (2 ^ 64 - 1 - 2 ^ 16) (omega arith)) (omega arith)
      (λ k h. ground (
        arith,
        e,
        test-and (vector + 2 ^ 16) (2 ^ 64 - 1 - 2 ^ 16) k,
        test-complement 64 (2 ^ 16) k (omega arith),
        test-or vector (2 ^ 16) k,
        test-pow 16 k,
        test_above 16 vector k,
      ))

module _ (r : Registers) (irq : ℕ) (low : 32 ≤ irq) (high : irq < 56) where
  abbrev enabled : Registers
  enabled = ioapic_enable (ioapic_install r irq (packed (edge_entry irq))) irq

  enabled-word : ioapic_rte_read enabled (rte irq) ≡ irq
  unfolding ioapic_enable ioapic_install
  enabled-word =
      let v = packed (edge_entry irq) in
      let r1 = ioapic_rte_write r (rte irq) v in
      let off = 2 ^ 64 - 1 - 2 ^ 16 in
      let sum : v ≡ irq + 2 ^ 16 = omega arith in
      let w : bit_and v off ≡ irq =
        ap (λ (x : ℕ). bit_and x off) sum ∙ unmasked irq (omega arith) in
      let e1 : ioapic_rte_read r1 (rte irq) ≡ v = read-write r (rte irq) v (omega arith) in
      ap (λ (x : ℕ). ioapic_rte_read (ioapic_rte_write r1 (rte irq) (bit_and x off)) (rte irq)) e1
      ∙ read-write r1 (rte irq) (bit_and v off) (omega (arith, w))
      ∙ w

  enabled-entry : entry_at enabled irq ≡ record (edge_entry irq) { mask = 0 }
  enabled-entry =
      unpacked_plain irq 0 (ioapic_rte_read enabled (rte irq)) (omega arith) (omega arith)
        (omega (arith, enabled-word))

  enabled-other :
      (other : ℕ)
      → 32 ≤ other
      → other < 56
      → other ≢ irq
      → ioapic_rte_read enabled (rte other) ≡ ioapic_rte_read r (rte other)
  unfolding ioapic_enable ioapic_install
  enabled-other other lo ho ne =
      let r1 = ioapic_rte_write r (rte irq) (packed (edge_entry irq)) in
      read-other r1 irq other (bit_and (ioapic_rte_read r1 (rte irq)) (2 ^ 64 - 1 - 0x10000)) low
        high lo ho (λ e. ne (sym e))
      ∙ read-other r irq other (packed (edge_entry irq)) low high lo ho (λ e. ne (sym e))

-- a vacant descriptor's interrupt does nothing
do_irq-vacant :
    (local_ack : ℕ → Registers → Registers) (s : Tables Registers) (regs irq : ℕ)
    → irq < 56
    → s.interrupt_desc (irq - 32) ≡ vacant
    → do_irq local_ack s regs irq ≡ s
unfolding do_irq run_handler run_ack
do_irq-vacant local_ack s regs irq high e = rw (external irq (omega arith), e) refl

module _ (interrupt idt : ℕ → ℕ) (s : Tables Registers) (ack local_ack : ℕ → Registers → Registers)
    (clock keyboard : ℕ → ℕ → ℕ → Registers → Registers) (p_kb name1 name2 : ℕ) where
  abbrev started : Tables Registers
  started = (apic_ioapic_init interrupt idt s).1

  abbrev with_clock : Tables Registers
  with_clock = hpet_init ack name1 started clock

  abbrev ready : Tables Registers
  ready = keyboard_init ack name2 with_clock keyboard p_kb

  ready-world :
      ready.world
      ≡ enabled
          (enabled started.world 34 (omega arith) (omega arith))
          33
          (omega arith)
          (omega arith)
  unfolding hpet_init keyboard_init register_irq
  ready-world = refl

  started-world : started.world ≡ ioapic_init s.world
  unfolding apic_ioapic_init
  started-world = refl

  ready-entry :
      (irq : ℕ)
      → 32 ≤ irq
      → irq < 56
      → entry_at ready.world irq
        ≡ record (edge_entry irq) { mask = if (irq == 33) || (irq == 34) then 0 else 1 }
  ready-entry irq low high =
      let r0 = started.world in
      let r1 = enabled r0 34 (omega arith) (omega arith) in
      elim (Bool-cases (irq == 33)) [
        | inl k ↦
            let e : irq ≡ 33 = ground arith in
            rw (ready-world, e) (enabled-entry r1 33 (omega arith) (omega arith))
        | inr nk ↦
            let d : irq ≢ 33 = ground arith in
            let same = enabled-other r1 33 (omega arith) (omega arith) irq low high d in
            elim (Bool-cases (irq == 34)) [
              | inl c ↦
                  let e : irq ≡ 34 = ground arith in
                  rw (ready-world, same, nk, c, e) (enabled-entry r0 34 (omega arith) (omega arith))
              | inr nc ↦
                  let d2 : irq ≢ 34 = ground arith in
                  let same2 = enabled-other r0 34 (omega arith) (omega arith) irq low high d2 in
                  rw (ready-world, same, same2, started-world, nk, nc)
                    (ioapic_init-entry s.world irq low high)
            ]
      ]

  ready-vacant :
      (irq : ℕ)
      → 32 ≤ irq
      → irq < 56
      → irq ≢ 33
      → irq ≢ 34
      → ready.interrupt_desc (irq - 32) ≡ vacant
  unfolding apic_ioapic_init hpet_init keyboard_init register_irq
  ready-vacant irq low high d d2 =
      let n1 : (irq - 32 == 1) ≡ false = ground arith in
      let n2 : (irq - 32 == 2) ≡ false = ground arith in
      let range : ltb (irq - 32) nr_irqs ≡ true = ground arith in rw (n1, n2, range) refl

  -- After APIC_IOAPIC_init and the registrations of the clock and the keyboard, the interrupts 33 and 34 are
  -- the ones that are not masked, and every device interrupt has the redirection entry with its own
  -- vector. On the arrival of 34 exactly the clock's handler runs and then the acknowledgement, on that of
  -- 33 the keyboard's with the address of its buffer, and on that of another device interrupt nothing.
  pub devices-ready :
      ((irq : ℕ)
        → 32 ≤ irq
        → irq < 56
        → entry_at ready.world irq
          ≡ record (edge_entry irq) { mask = if (irq == 33) || (irq == 34) then 0 else 1 })
      × ((regs : ℕ) → (do_irq local_ack ready regs 34).world ≡ ack 34 (clock 34 0 regs ready.world))
      × ((regs : ℕ)
          → (do_irq local_ack ready regs 33).world ≡ ack 33 (keyboard 33 p_kb regs ready.world))
      × ((regs irq : ℕ)
          → 32 ≤ irq
          → irq < 56
          → irq ≢ 33
          → irq ≢ 34
          → do_irq local_ack ready regs irq ≡ ready)
  unfolding do_irq run_handler run_ack hpet_init keyboard_init register_irq
  devices-ready = (
    ready-entry,
    (λ regs. refl),
    (λ regs. refl),
    (λ regs irq low high d d2.
        do_irq-vacant local_ack ready regs irq high (ready-vacant irq low high d d2)),
  )
