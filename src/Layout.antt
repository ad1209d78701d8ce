-- ===== src/Layout.antt =====
-- src/lwm/layout: the tree of splits that tiles the windows of a workspace, the geometry of its
-- slots, and finding the slot or the split under the pointer.
pub mod Tree
pub mod Slots
pub mod Arrange
pub mod Grab
mod Tests
