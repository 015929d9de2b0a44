-- ===== src/Ui.antt =====
-- packages/ui/src/frontend.tsx: the logic of shared components: the window of a virtual list, and the
-- moving of an item in a list.
pub mod Toasts
pub mod Stored
pub mod Timing
pub mod Focus
pub mod Confirm
pub mod Window
pub mod Reorder
mod Tests
