-- ===== src/Irq/Ready.antt =====
-- What APIC_IOAPIC_init of kernel/device/pic/APIC.c leaves, and what the drivers' registrations add.
use s_os.Base.{
  ℕ, zero, suc, ◌+◌, ◌-◌, ◌*◌, ◌/◌, ◌%◌, ◌^◌, ◌≡◌, ◌≤◌, ◌<◌, refl, ◌∙◌, ap, true, false, ◌==◌, ltb,
  leb, ◌&&◌, ◌||◌, if◌then◌else◌, update, arith, Bool-cases, inl, inr,
}
use s_os.Gate.{set_intr_gate}
use s_os.Gate.Decode.{Gate, gate_at, set_gate-decodes}
use s_os.Irq.{Tables, vacant}
use s_os.Irq.Ioapic.{Registers, ioapic_rte_read, ioapic_rte_write, rte, read-write}
use s_os.Irq.Setup.{
  RetEntry, init_entries, ioapic_init, set_gates, apic_ioapic_init, edge_entry, nr_irqs,
}

-- the fields of a redirection entry of 64 bits
abbrev pub unpacked : ℕ → RetEntry
unpacked v = record {
  vector = v % 2 ^ 8;
  deliver_mode = v / 2 ^ 8 % 2 ^ 3;
  dest_mode = v / 2 ^ 11 % 2;
  deliver_status = v / 2 ^ 12 % 2;
  polarity = v / 2 ^ 13 % 2;
  irr = v / 2 ^ 14 % 2;
  trigger = v / 2 ^ 15 % 2;
  mask = v / 2 ^ 16 % 2;
  reserved = v / 2 ^ 17 % 2 ^ 15;
  reserved1 = v / 2 ^ 32 % 2 ^ 24;
  phy_dest = v / 2 ^ 56 % 2 ^ 4;
  reserved2 = v / 2 ^ 60 % 2 ^ 4;
}

abbrev pub entry_at : Registers → ℕ → RetEntry
entry_at r irq = unpacked (ioapic_rte_read r (rte irq))

-- an entry with nothing but a vector and a mask
pub unpacked_plain :
    (vector mask v : ℕ)
    → vector < 2 ^ 8
    → mask < 2
    → v ≡ vector + mask * 2 ^ 16
    → unpacked v ≡ record (edge_entry vector) { mask = mask }
unpacked_plain vector mask v small bit e =
    let e0 : v % 2 ^ 8 ≡ vector = omega arith in
    let e1 : v / 2 ^ 8 % 2 ^ 3 ≡ 0 = omega arith in
    let e2 : v / 2 ^ 11 % 2 ≡ 0 = omega arith in
    let e3 : v / 2 ^ 12 % 2 ≡ 0 = omega arith in
    let e4 : v / 2 ^ 13 % 2 ≡ 0 = omega arith in
    let e5 : v / 2 ^ 14 % 2 ≡ 0 = omega arith in
    let e6 : v / 2 ^ 15 % 2 ≡ 0 = omega arith in
    let e7 : v / 2 ^ 16 % 2 ≡ mask = omega arith in
    let e8 : v / 2 ^ 17 % 2 ^ 15 ≡ 0 = omega arith in
    let e9 : v / 2 ^ 32 % 2 ^ 24 ≡ 0 = omega arith in
    let e10 : v / 2 ^ 56 % 2 ^ 4 ≡ 0 = omega arith in
    let e11 : v / 2 ^ 60 % 2 ^ 4 ≡ 0 = omega arith in
    rw (e0, e1, e2, e3, e4, e5, e6, e7, e8, e9, e10, e11) refl

init_entries-else : (n : ℕ) (r : Registers) (i q : ℕ) → q < i → init_entries n r i q ≡ r q
unfolding init_entries ioapic_rte_write
init_entries-else zero r i q h = refl
init_entries-else (suc n) r i q h =
    let v = 0x10020 + (i - 0x10) / 2 in
    init_entries-else n (ioapic_rte_write r i v) (i + 2) q (omega arith) ∙ ground arith

init_entries-at :
    (n : ℕ) (r : Registers) (i k : ℕ)
    → k < n
    → i + 2 * n < 2 ^ 32
    → ioapic_rte_read (init_entries n r i) (i + 2 * k) ≡ 0x10020 + (i + 2 * k - 0x10) / 2
unfolding init_entries ioapic_rte_read
init_entries-at zero r i k h small = absurd (omega arith)
init_entries-at (suc n) r i zero h small =
    let v = 0x10020 + (i - 0x10) / 2 in
    let w = ioapic_rte_write r i v in
    let z : i + 2 * 0 ≡ i = omega arith in
    rw
      (
        z,
        init_entries-else n w (i + 2) i (omega arith),
        init_entries-else n w (i + 2) (i + 1) (omega arith),
      )
      (read-write r i v (omega arith))
init_entries-at (suc n) r i (suc k) h small =
    let v = 0x10020 + (i - 0x10) / 2 in
    let e : i + 2 * suc k ≡ i + 2 + 2 * k = omega arith in
    rw e (init_entries-at n (ioapic_rte_write r i v) (i + 2) k (omega arith) (omega arith))

pub ioapic_init-entry :
    (r : Registers) (irq : ℕ) → 32 ≤ irq → irq < 56 → entry_at (ioapic_init r) irq ≡ edge_entry irq
unfolding ioapic_init
ioapic_init-entry r irq low high =
    let e : rte irq ≡ 0x10 + 2 * (irq - 32) = omega arith in
    unpacked_plain irq 1 (ioapic_rte_read (ioapic_init r) (rte irq)) (omega arith) (omega arith) (
      ap (λ (q : ℕ). ioapic_rte_read (ioapic_init r) q) e
      ∙ init_entries-at 24 (update r 0 0x0f000000) 0x10 (irq - 32) (omega arith) (omega arith)
      ∙ omega arith)

-- the gate of a device interrupt
abbrev pub device_gate : ℕ → Gate
device_gate stub = record { offset = stub; selector = 8; ist = 0; attribute = 0x8e }

set_intr_gate-at :
    (idt : ℕ → ℕ) (i stub m : ℕ)
    → stub < 2 ^ 64
    → gate_at (set_intr_gate idt i 0 stub) m ≡ (if m == i then device_gate stub else gate_at idt m)
unfolding set_intr_gate
set_intr_gate-at idt i stub m placed = set_gate-decodes idt i 0x8e 0 stub m (omega arith) placed

pub set_gates-at :
    (first : ℕ) (interrupt : ℕ → ℕ) (n : ℕ) (idt : ℕ → ℕ) (i m : ℕ)
    → ((k : ℕ) → interrupt k < 2 ^ 64)
    → gate_at (set_gates first interrupt n idt i) m
      ≡ (if leb i m && ltb m (i + n) then device_gate (interrupt (m - first)) else gate_at idt m)
unfolding set_gates
set_gates-at first interrupt zero idt i m placed =
    let no : (leb i m && ltb m (i + 0)) ≡ false = ground arith in rw no refl
set_gates-at first interrupt (suc n) idt i m placed =
    let rest =
      set_gates-at first interrupt n (set_intr_gate idt i 0 (interrupt (i - first))) (i + 1) m
        placed in
    let now_set = set_intr_gate-at idt i (interrupt (i - first)) m (placed (i - first)) in
    elim (Bool-cases (m == i)) [
      | inl same ↦
          let p : m ≡ i = ground arith in
          let no : (leb (i + 1) m && ltb m (i + 1 + n)) ≡ false = ground arith in
          let now : (leb i m && ltb m (i + suc n)) ≡ true = ground arith in
          rest ∙ rw (no, now, now_set, same, p) refl
      | inr other ↦
          let e : (leb (i + 1) m && ltb m (i + 1 + n)) ≡ (leb i m && ltb m (i + suc n)) =
            ground arith in
          rest ∙ rw (e, now_set, other) refl
    ]

module _ (interrupt : ℕ → ℕ) (idt : ℕ → ℕ) (s : Tables Registers) where
  -- After APIC_IOAPIC_init the redirection entry of each of the 24 device interrupts has the interrupt's
  -- vector, is masked, and is otherwise zero; the gate of that vector leads to the interrupt's stub with
  -- interrupts turned off, on the stack of privilege 0; its descriptor is vacant. The other gates are what
  -- they were. The stubs have addresses of 64 bits.
  pub apic_ioapic_init-ready :
      ((k : ℕ) → interrupt k < 2 ^ 64)
      → (let (idt1, t) = apic_ioapic_init interrupt idt s in
          ((irq : ℕ)
            → 32 ≤ irq
            → irq < 56
            → (entry_at t.world irq ≡ edge_entry irq)
              × (gate_at idt1 irq ≡ device_gate (interrupt (irq - 32)))
              × (t.interrupt_desc (irq - 32) ≡ vacant))
          × ((m : ℕ) → ltb m 32 || leb 56 m ≡ true → gate_at idt1 m ≡ gate_at idt m))
  unfolding apic_ioapic_init
  apic_ioapic_init-ready placed = (
    (λ irq low high.
        let range : (leb 32 irq && ltb irq 56) ≡ true = ground arith in
        let slot : ltb (irq - 32) nr_irqs ≡ true = ground arith in
        (
          ioapic_init-entry s.world irq low high,
          set_gates-at 32 interrupt 24 idt 32 irq placed ∙ rw range refl,
          rw slot refl,
        )),
    (λ m h.
        let range : (leb 32 m && ltb m 56) ≡ false = ground arith in
        set_gates-at 32 interrupt 24 idt 32 m placed ∙ rw range refl),
  )
