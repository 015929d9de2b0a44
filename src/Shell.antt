-- ===== src/Shell.antt =====
-- apps/web/src/shell: what surrounds the pages, the command palette, the keyboard shortcuts and the banners.
pub mod Palette
pub mod Shortcuts
pub mod Theme
pub mod Scroll
pub mod Expiring
pub mod Swipe
pub mod Drawer
mod Tests
