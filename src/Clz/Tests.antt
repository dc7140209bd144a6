-- ===== src/Clz/Tests.antt =====
-- Runs of src/clz.
use mmgr.Prelude.{◌≡◌, refl}
use mmgr.Clz.{lead, trail}

lead-40 : lead 40 ≡ 58
unfolding lead
lead-40 = refl

trail-40 : trail 40 ≡ 3
unfolding trail
trail-40 = refl
