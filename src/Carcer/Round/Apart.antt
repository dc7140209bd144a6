-- ===== src/Carcer/Round/Apart.antt =====
-- The cells of src/locus_carcerum as intervals of bytes: consecutive cells overlap nowhere.
use mmgr.Prelude.{ℕ, ◌+◌, ◌≤◌, arith, List, [], ◌∷◌, ◌++◌}
use mmgr.Carcer.Round.{Laid, Tiles}

-- The cells stand one past another: each begins at or past the end of those before it.
abbrev pub AllFrom : ℕ → List Laid → Type 0
AllFrom a [] = Unit {0}
AllFrom a (c ∷ cs) = (a ≤ c.off) × AllFrom a cs

abbrev pub AllTo : ℕ → List Laid → Type 0
AllTo b [] = Unit {0}
AllTo b (c ∷ cs) = (c.off + c.need ≤ b) × AllTo b cs

abbrev pub Disjoint : List Laid → Type 0
Disjoint [] = Unit {0}
Disjoint (c ∷ cs) = AllFrom (c.off + c.need) cs × Disjoint cs

pub AllFrom-le : {a b : ℕ} (cs : List Laid) → a ≤ b → AllFrom b cs → AllFrom a cs
AllFrom-le [] h k = tt
AllFrom-le (c ∷ cs) h k = (omega arith, AllFrom-le cs h k.1)

pub AllTo-le : {a b : ℕ} (cs : List Laid) → a ≤ b → AllTo a cs → AllTo b cs
AllTo-le [] h k = tt
AllTo-le (c ∷ cs) h k = (omega arith, AllTo-le cs h k.1)

Tiles-le : (a b : ℕ) (cs : List Laid) → Tiles a cs b → a ≤ b
Tiles-le a b [] h = omega arith
Tiles-le a b (c ∷ cs) h = omega (arith, Tiles-le (a + c.need) b cs h.1)

pub Tiles-AllFrom : (a b : ℕ) (cs : List Laid) → Tiles a cs b → AllFrom a cs
Tiles-AllFrom a b [] h = tt
Tiles-AllFrom a b (c ∷ cs) h =
    (omega arith, AllFrom-le cs (omega arith) (Tiles-AllFrom (a + c.need) b cs h.1))

pub Tiles-AllTo : (a b : ℕ) (cs : List Laid) → Tiles a cs b → AllTo b cs
Tiles-AllTo a b [] h = tt
Tiles-AllTo a b (c ∷ cs) h =
    (omega (arith, Tiles-le (a + c.need) b cs h.1), Tiles-AllTo (a + c.need) b cs h.1)

AllFrom-append : (a : ℕ) (cs ds : List Laid) → AllFrom a cs → AllFrom a ds → AllFrom a (cs ++ ds)
AllFrom-append a [] ds h k = k
AllFrom-append a (c ∷ cs) ds h k = (h.0, AllFrom-append a cs ds h.1 k)

pub AllTo-append : (a : ℕ) (cs ds : List Laid) → AllTo a cs → AllTo a ds → AllTo a (cs ++ ds)
AllTo-append a [] ds h k = k
AllTo-append a (c ∷ cs) ds h k = (h.0, AllTo-append a cs ds h.1 k)

pub Tiles-Disjoint : (a b : ℕ) (cs : List Laid) → Tiles a cs b → Disjoint cs
Tiles-Disjoint a b [] h = tt
Tiles-Disjoint a b (c ∷ cs) h = (
  AllFrom-le cs (omega arith) (Tiles-AllFrom (a + c.need) b cs h.1),
  Tiles-Disjoint (a + c.need) b cs h.1,
)

pub Disjoint-append :
    (b : ℕ) (cs ds : List Laid)
    → Disjoint cs
    → AllTo b cs
    → AllFrom b ds
    → Disjoint ds
    → Disjoint (cs ++ ds)
Disjoint-append b [] ds hc tc fd hd = hd
Disjoint-append b (c ∷ cs) ds hc tc fd hd = (
  AllFrom-append (c.off + c.need) cs ds hc.0 (AllFrom-le ds tc.0 fd),
  Disjoint-append b cs ds hc.1 tc.1 fd hd,
)
