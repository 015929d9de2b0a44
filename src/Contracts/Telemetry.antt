-- ===== src/Contracts/Telemetry.antt =====
-- packages/contracts/src/index.ts: the breadcrumbs that an error report carries.
pub mod Window
use go_platform_starter.Prelude.{
  ℕ, zero, suc, ◌+◌, ◌-◌, ◌≡◌, refl, sym, ap, ◌∙◌, Bool, List, [], ◌∷◌, ◌++◌, append_assoc, arith,
  ltb, if◌then◌else◌, length, take, drop, length-append, Text,
}
use mathlib.Core.List.{foldl, tail}

pub data CrumbType : Type 0 where
  click submit navigation : CrumbType

pub record Breadcrumb : Type 0 where
  pub type : CrumbType
  pub target : Text
  pub at : ℕ

-- The target as it is stored: its first 160 code units.
abbrev pub clipped : Breadcrumb → Breadcrumb
clipped b = record b { target = take 160 b.target }

-- `addBreadcrumb`: push, and `shift` when there are more than 20.
unfoldable pub add_breadcrumb : List Breadcrumb → Breadcrumb → List Breadcrumb
add_breadcrumb crumbs b =
    let pushed = crumbs ++ clipped b ∷ [] in if ltb 20 (length pushed) then tail pushed else pushed
