-- ===== src/Numeros/Tests.antt =====
-- A build of src/numeros_scribo of a literal, a number and a character.
use mmgr.Prelude.{ℕ, ◌+◌, ◌≤◌, ◌<◌, ◌≡◌, ◌⊎◌, inl, inr, refl, arith}
use mmgr.Prelude.{List, [], ◌∷◌, some}
use mmgr.Verba.{Verba}
use mmgr.Numeros.{Kind, Field, Value, build}
use mmgr.Numeros.Build.{build-settled}
use mmgr.Verba.Chain.{joined}
use mmgr.Numeros.Match.{Spelled}
use mmgr.Numeros.Whole.{IsWhole, build-IsWhole}

abbrev buffer : Verba
buffer = record { memory = λ j. 35; out = 64; cap = 20; at = 2 }

abbrev spec : List Field
spec =
    record { kind = Kind.lit; width = 0; bytes = 3; literal = 200 }
    ∷ record { kind = Kind.dec; width = 4; bytes = 0; literal = 0 }
    ∷ record { kind = Kind.fk_ch; width = 0; bytes = 0; literal = 0 }
    ∷ []

abbrev vals : List Value
vals =
    record { kind = Kind.dec; word = 1234567; width = 0 }
    ∷ record { kind = Kind.fk_ch; word = b'x'; width = 0 }
    ∷ []

build-settled_example :
    (m : ℕ → ℕ) × (len : ℕ) × (build 0 buffer spec vals ≡ some (m, len))
    × (m 90 ≡ 35)
    × (((len ≡ 0) × (m (64 + 2) ≡ 0)) ⊎ ((2 ≤ len) × (len < 20) × (m (64 + len) ≡ 0)))
build-settled_example =
    build-settled 0 buffer spec vals 90 (omega arith) (omega arith)
      (refl, omega arith, (refl, omega arith, tt)) (inr (omega arith))

build-IsWhole_example :
    (ps : List (List ℕ)) × Spelled buffer.memory 20 spec vals ps
    × IsWhole buffer (joined ps) (build 0 buffer spec vals)
build-IsWhole_example =
    build-IsWhole 0 buffer spec vals (omega arith) (omega arith) (λ a. omega arith)
      (inr (omega arith, inr (omega arith)), (inl (omega arith), (inl (omega arith), tt)))
      (refl, omega arith, tt, (refl, omega arith, tt, tt)) refl
