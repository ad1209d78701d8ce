-- ===== src/Wm.antt =====
-- src/lwm/wm.cpp and its parts: the state of the window manager and the functions that gather the
-- inputs of the policies from it.
pub mod State
pub mod Owner
pub mod Restack
pub mod Focus
pub mod Reconcile
pub mod Rearrange
pub mod Place
pub mod Activate
pub mod Commands
pub mod Convert
pub mod Modes
pub mod Reach
pub mod Asserts
pub mod Registry
pub mod Switch
pub mod FullscreenArea
pub mod Active
mod Desk
mod Tests
mod Examples
