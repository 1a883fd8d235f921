-- ===== src/A11y/Tests.antt =====
-- The engine on sample components.
use inwheel_api.Common.{◌≡◌, none, some}
use inwheel_api.Models.{AccessibilityProfile}
use inwheel_api.A11y.{compute_effective_profile}
use inwheel_api.A11y.Effective.{profile_of, IsMerge, compute_effective_profile-IsMerge}
use inwheel_api.Samples.{cafe, mall}

compute_effective_profile-IsMerge_example :
    (shown : AccessibilityProfile) × (compute_effective_profile (some cafe) (some mall)
      ≡ some shown)
    × IsMerge "p0" (profile_of none) (profile_of mall.accessibility) shown
compute_effective_profile-IsMerge_example = compute_effective_profile-IsMerge cafe mall
