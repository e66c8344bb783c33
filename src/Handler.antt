-- ===== src/Handler.antt =====
-- cmd/ucentral-client: the frame handler.
pub mod Commands
pub mod Execute
pub mod Frame
mod Tests
