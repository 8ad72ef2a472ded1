-- ===== src/Samples/Domains.antt =====
-- The domain matrix of the canonical layer at concrete domains.
use a_share_analysis.Common.{refl, Memᴰ}
use a_share_analysis.Canonical.Matrix.{daily_bar_spec}
use a_share_analysis.Canonical.Domains.Keys.{KeyCase, key_builder_cases}

key_builder_cases_example : KeyCase daily_bar_spec
key_builder_cases_example = key_builder_cases daily_bar_spec (Memᴰ.tail (Memᴰ.head refl))
