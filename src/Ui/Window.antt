-- ===== src/Ui/Window.antt =====
-- packages/ui/src/frontend.tsx: `useVirtualList`, the rows that are rendered of a long list.
pub mod Cover
use go_platform_starter.Prelude.{ℕ, ◌+◌, ◌-◌, ◌*◌, ◌/◌, min}

-- What the hook gives.
pub record Window : Type 0 where
  pub start : ℕ
  pub end : ℕ
  pub padding_top : ℕ
  pub padding_bottom : ℕ

-- `useVirtualList`, of the count, the heights of a row and of the viewport, the offset of the scroll,
-- and the overscan.
unfoldable pub virtual_list : ℕ → ℕ → ℕ → ℕ → ℕ → Window
virtual_list count row_height viewport_height scroll_top overscan =
    let start = scroll_top / row_height - overscan in
    let end = min count ((scroll_top + viewport_height + row_height - 1) / row_height + overscan) in
    record {
      start = start;
      end = end;
      padding_top = start * row_height;
      padding_bottom = (count - end) * row_height;
    }
