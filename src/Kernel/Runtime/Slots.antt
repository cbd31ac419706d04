-- ===== src/Kernel/Runtime/Slots.antt =====
-- The execution slots of a tenant over calls of `execute_intent` (kernel/runtime.py).
pub mod Chain
pub mod Calls
pub mod History
