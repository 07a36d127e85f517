-- ===== src/Irq/Dispatch.antt =====
-- Which code runs on an interrupt, after registrations and deregistrations.
use Prim.Native.Nat.{bit_and}
use s_os.Base.{
  ℕ, ◌-◌, ◌≡◌, ◌≤◌, ◌<◌, refl, true, false, some, ◌==◌, if◌then◌else◌, update, arith, ==_refl,
}
use s_os.Base.Bits.{test_bit, and_pow-zero, test_above}
use s_os.Irq.{
  Controller, Tables, register_irq, unregister_irq, register_ipi, unregister_ipi, vacant,
  run_handler, run_ack, do_irq,
}

pub external : (nr : ℕ) → nr < 128 → (bit_and nr 0x80 == 0) ≡ true
external nr h = ground (arith, and_pow-zero nr 7, test_above 7 nr 7)

pub internal : (nr : ℕ) → 200 ≤ nr → nr < 210 → (bit_and nr 0x80 == 0) ≡ false
unfolding test_bit
internal nr low high = ground (arith, and_pow-zero nr 7)

module _ {W : Type 0} (local_ack : ℕ → W → W) (s : Tables W) (h : ℕ → ℕ → ℕ → W → W)
    (c : Controller W) where
  -- After register_irq of an external interrupt the controller has installed and then enabled it, and on
  -- its arrival exactly the handler runs, with its number and parameter, and then the controller's
  -- acknowledgement.
  do_irq-registered :
      (ack : ℕ → W → W) (irq arg parameter name regs : ℕ)
      → c.ack ≡ some ack
      → 32 ≤ irq
      → irq < 56
      → (do_irq local_ack (register_irq s irq arg h parameter c name) regs irq).world
        ≡ ack irq (h irq parameter regs (c.enable irq (c.install irq arg s.world)))
  unfolding do_irq register_irq run_handler run_ack
  do_irq-registered ack irq arg parameter name regs a low high =
      rw (external irq (omega arith), ==_refl (irq - 32), a) refl

  -- After unregister_irq of a registered interrupt the controller has disabled and then uninstalled it,
  -- its entry is vacant, its arrival changes nothing, and the other entries are as before the
  -- registration.
  do_irq-unregistered :
      (irq arg parameter name regs : ℕ)
      → irq < 56
      → (t : Tables W) × (unregister_irq (register_irq s irq arg h parameter c name) irq ≡ some t)
        × (do_irq local_ack t regs irq ≡ t)
        × ((k : ℕ) → t.interrupt_desc k ≡ (if k == irq - 32 then vacant else s.interrupt_desc k))
        × (t.world ≡ c.uninstall irq (c.disable irq (c.enable irq (c.install irq arg s.world))))
  unfolding do_irq register_irq unregister_irq run_handler run_ack
  do_irq-unregistered irq arg parameter name regs high =
      let s1 = register_irq s irq arg h parameter c name in
      (
        record s1 {
          interrupt_desc = update s1.interrupt_desc (irq - 32) vacant;
          world = c.uninstall irq (c.disable irq s1.world);
        },
        rw (unregister_irq, ==_refl (irq - 32)) refl,
        rw (external irq (omega arith), ==_refl (irq - 32)) refl,
        (λ k. ground arith),
        refl,
      )

  -- After register_IPI of an inter-processor interrupt its arrival is acknowledged first, and then exactly
  -- the handler runs, with its number and parameter; the controller and the argument have no effect.
  do_irq-ipi :
      (irq arg parameter name regs : ℕ)
      → 200 ≤ irq
      → irq < 210
      → (do_irq local_ack (register_ipi s irq arg h parameter (some c) name) regs irq).world
        ≡ h irq parameter regs (local_ack irq s.world)
  unfolding do_irq register_ipi run_handler
  do_irq-ipi irq arg parameter name regs low high =
      rw (internal irq low high, ==_refl (irq - 200)) refl

  -- After unregister_IPI its arrival is only acknowledged.
  do_irq-ipi_gone :
      (irq regs : ℕ)
      → 200 ≤ irq
      → irq < 210
      → do_irq local_ack (unregister_ipi s irq) regs irq
        ≡ record (unregister_ipi s irq) { world = local_ack irq s.world }
  unfolding do_irq unregister_ipi run_handler
  do_irq-ipi_gone irq regs low high = rw (internal irq low high, ==_refl (irq - 200)) refl
