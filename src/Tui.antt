-- ===== src/Tui.antt =====
-- src/tui: the dashboard, as far as it is not drawing.
mod Tests
pub mod Log
pub mod View
pub mod Sort
pub mod Loop
pub mod Input
