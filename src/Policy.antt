-- ===== src/Policy.antt =====
-- src/lwm/core/policy.hpp: the decisions of the window manager as functions of its data, one
-- module for each namespace.
pub mod Workspace
pub mod Stacking
pub mod Ewmh
pub mod Visibility
pub mod Fullscreen
pub mod Focus
pub mod Classification
pub mod Hotplug
