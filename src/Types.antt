-- ===== src/Types.antt =====
-- src/lwm/core/types.hpp: the data that the whole program shares. Window ids, indices and
-- unsigned fields are numbers, signed fields are integers, and XCB_NONE is 0. A `double` is kept
-- as its bit pattern: what the program computes with doubles is a parameter where it is used.
mod Enums
pub mod Urgency
pub mod UrgencyLaws
mod Clients
mod Monitors
mod Tests
pub mod WorkArea
pub use Enums.*
pub use Clients.*
unfoldable pub use Clients.{set_tiled_state, set_floating_state, is_hidden_pool_scratchpad}
pub use Monitors.*
unfoldable pub use Monitors.{working_area, strut_offset, strut_extent}
