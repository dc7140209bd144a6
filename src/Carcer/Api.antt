-- ===== src/Carcer/Api.antt =====
-- The takes and gives of src/locus_carcerum as its callers name them: each fixes the tier and whether
-- a release wipes. Every call goes through one context.
use mmgr.Prelude.{ℕ, Bool, true, false, List, Option}
use mmgr.Carcer.Series.{Series, Owner}
use mmgr.Carcer.Take.{taken}
use mmgr.Carcer.Give.{released}
use mmgr.Carcer.Grow.{grown, rewound}

unfoldable pub persistent_alloc : ℕ → List Bool → ℕ → Owner → Series → Series × ℕ
unfolding taken
persistent_alloc now missed size owner s = taken now missed size owner false true s

unfoldable pub persistent_max_security_alloc : ℕ → List Bool → ℕ → Owner → Series → Series × ℕ
unfolding taken
persistent_max_security_alloc now missed size owner s = taken now missed size owner false true s

unfoldable pub temporary_alloc : ℕ → List Bool → ℕ → Owner → Series → Series × ℕ
unfolding taken
temporary_alloc now missed size owner s = taken now missed size owner true true s

unfoldable pub temporary_max_security_alloc : ℕ → List Bool → ℕ → Owner → Series → Series × ℕ
unfolding taken
temporary_max_security_alloc now missed size owner s = taken now missed size owner true true s

unfoldable pub persistent_release : ℕ → Owner → Series → Option Series
unfolding released
persistent_release prisoner owner s = released prisoner owner false s

unfoldable pub persistent_max_security_release : ℕ → Owner → Series → Option Series
unfolding released
persistent_max_security_release prisoner owner s = released prisoner owner true s

unfoldable pub buf_grow : ℕ → ℕ → ℕ → Owner → Series → Option (Series × ℕ)
unfolding grown
buf_grow now prisoner size owner s = grown now prisoner size owner false s

unfoldable pub max_security_buf_grow : ℕ → ℕ → ℕ → Owner → Series → Option (Series × ℕ)
unfolding grown
max_security_buf_grow now prisoner size owner s = grown now prisoner size owner true s

unfoldable pub temporary_release : ℕ → Series → Series
unfolding rewound
temporary_release mark s = rewound mark false s

unfoldable pub max_security_return : ℕ → Series → Series
unfolding rewound
max_security_return mark s = rewound mark true s
