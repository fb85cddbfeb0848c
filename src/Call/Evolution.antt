-- ===== src/Call/Evolution.antt =====
-- Every method of the call service keeps a row of the table or makes one step with it.
pub mod Rules
mod Frames
pub mod Moves
pub mod Talk
pub mod Legs
