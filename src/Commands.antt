-- ===== src/Commands.antt =====
-- The command layer of src/include/commands.c and src/include/commands.h: the state that the
-- handlers work on (src/include/state.h, protocol.h, reactor.h) and the macro DEFINE_COMMAND.
pub mod State
pub mod Counter
pub mod Table
pub mod Handlers
pub mod Dispatch
pub mod Plain
pub mod Call
pub mod Frame
