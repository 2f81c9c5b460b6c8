-- ===== src/Os.antt =====
-- The system calls the program makes, as an interface. A kernel answers each call by what it has
-- answered so far, so a theorem about every `Kernel` holds however the system behaves. A process
-- is a function of the trace: it ends with a value, exits, or runs out of the fuel of a loop.
mod Syscalls
mod Calls
mod Process
pub mod Laws
pub mod Quiet
pub mod Returning
pub mod Ending
pub use Syscalls.*
pub use Calls.*
unfoldable pub use Process.*
