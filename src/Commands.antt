-- ===== src/Commands.antt =====
-- backend/internal/commands: which arguments of a command are keys, and the slots of the keys.
pub mod Types
pub mod Table
pub mod Keys
pub mod Slots
mod Tests
