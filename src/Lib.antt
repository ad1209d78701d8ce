-- ===== src/Lib.antt =====
-- LWM, a tiling window manager for X11: a model of its decisions and of its state, and what is
-- proved of them.
--
-- The program keeps a client record for each managed window and a list of monitors, each with its
-- workspaces. A workspace lists its tiled windows; floating windows stand in the registry of clients
-- only. An event of the X server or a key changes this data, and functions without side effects (the
-- policies) decide from it which windows show, which have the focus, which own the fullscreen of a
-- monitor, in what order windows are stacked and where they stand on the screen. The model follows
-- that division:
--
-- Base            helpers: tests, lists, searches, the integers of C++ with its casts between widths,
--                 and std::stable_sort.
-- Types           src/lwm/core/types.hpp: clients, monitors, workspaces, urgency, the work area.
-- Policy          src/lwm/core/policy.hpp, a module for each namespace: Workspace (moving and removing
--                 tiled windows, focus history, switching), Focus (choosing and cycling the focus),
--                 Stacking, Fullscreen, Hotplug (where windows go when monitors change),
--                 Classification (the state of a new window), Visibility and Ewmh (desktop numbers).
-- Floating        src/lwm/core/floating.cpp: where floating windows are placed.
-- Layout          src/lwm/layout: Tree (strategy.cpp and the ratios of split_tree.cpp), Slots (the
--                 geometry of split_tree.cpp), Arrange (layout.cpp) and Grab (the split border under
--                 the pointer).
-- Rules           src/lwm/core/window_rules.cpp: compiling and matching the rules of the
--                 configuration.
-- Wm              the state of WindowManager and what src/lwm/wm.cpp, src/lwm/wm_focus.cpp,
--                 src/lwm/wm_workspace.cpp, src/lwm/wm_floating.cpp and src/lwm/core/focus.cpp do with
--                 it: State (visibility, suppression by a fullscreen window, tiers), Owner (the
--                 fullscreen owner), Restack (the stacking order with its transient windows), Focus
--                 (the selection of the focus, the pointer), Reconcile (showing and hiding the windows
--                 of a monitor, with Showing, which says when a window shows), Rearrange (arranging the tiled windows that show), Switch
--                 (apply_workspace_switch), Place (moving windows between workspaces), Activate
--                 (focusing a window, the fallback of the focus, iconifying) with Active (what it
--                 changes), Commands (the commands on workspaces and monitors), Convert (floating and
--                 tiling a window), Modes (fullscreen, maximized, sticky, layer hint, urgency) and
--                 FullscreenArea. Reach runs the operations one after the other, Registry is the
--                 invariant of clients and workspaces, and Asserts has the assertions of
--                 src/lwm/core/invariants.hpp that it implies. Desk, Tests and Examples are concrete
--                 states.
--
-- Functions keep their names; a part of a function that has a name of its own in the model is a loop,
-- its body or one of its tests. A function that changes an object by reference returns the new
-- object, an optional result is an Option, and an index out of range, which is undefined in the code,
-- is `none`. Window ids, indices and unsigned fields are numbers, XCB_NONE is 0; signed fields are
-- integers of Base.Int, and casts to 16, 32 and 64 bits are written out. Sums of int32_t are exact:
-- the theorems on the work area, floating windows and nearest slots bound their operands so that the
-- code does not overflow either, and those on split borders do not. A shift by 32 or more, which is
-- undefined in the code, sets no bit. An unordered_map is a list in the order of its traversal, or a
-- function of the key.
--
-- Parameters stand for what is outside the repository: the arithmetic of doubles (DoubleOps; a double
-- is its bit pattern), regular expressions (their compilation, which can fail, and the match of a
-- whole string), what the hints of a window say of its urgency, the geometry that the X server has for
-- a window, and the eligibility of windows where a policy takes it as an argument.
--
-- Two loops are not structural. The passes of apply_stacking run on fuel, the length of the order at
-- its start: the code stops after as many passes as the order has entries, and the order never grows,
-- so the fuel does not run out before the code stops. focus_any_window calls itself through
-- deiconify_window and focus_or_fallback, and is on fuel for the depth of these calls. Three levels are
-- enough where the clients and workspaces are as asserted: an iconic window is focused once more after
-- it is shown, a window behind a fullscreen one falls back once, and what the fallback selects is
-- focused without a further call.
--
-- Not modelled: the requests to the X server and the properties of windows (src/lwm/core/ewmh.cpp,
-- connection.cpp, src/lwm/wm_ewmh.cpp), the socket (src/lwm/core/ipc.cpp), the configuration file
-- (src/lwm/config/config.cpp), the key bindings (src/lwm/keybind/keybind.cpp), the event handlers, and
-- the operations that manage, unmanage, drag, restart or put away windows (src/lwm/wm_events.cpp,
-- wm_drag.cpp, wm_restart.cpp, wm_scratchpad.cpp and the remaining functions of src/lwm/wm.cpp).
pub mod Base
pub mod Types
pub mod Policy
pub mod Floating
pub mod Layout
pub mod Rules
pub mod Wm
