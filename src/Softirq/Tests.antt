-- ===== src/Softirq/Tests.antt =====
-- Runs of the soft interrupts on the sample state.
