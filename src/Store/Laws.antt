-- ===== src/Store/Laws.antt =====
-- How the accesses of the `backups` table interact.
use pfsense_backups.Prelude.{ℕ, ◌≡◌, refl, ◌≢◌, some, [], ◌∷◌, arith, ◌==◌, if◌then◌else◌, map}
use mathlib.Core.Option
use pfsense_backups.Store.{Row, Table, find, update}

-- A change of fields that leaves the primary key alone.
abbrev pub KeepsId : (Row → Row) → Type 0
KeepsId f = (r : Row) → (f r).id ≡ r.id

pub find-update :
    (bid j : ℕ) (f : Row → Row) (t : Table)
    → KeepsId f
    → find j (update bid f t) ≡ (if j == bid then Option.map f (find j t) else find j t)
unfolding find update
find-update bid j f [] k = ground arith
find-update bid j f (r ∷ rs) k = ground (arith, k r, find-update bid j f rs k)

pub find-update_ne :
    (bid j : ℕ) (f : Row → Row) (t : Table)
    → KeepsId f
    → bid ≢ j
    → find j (update bid f t) ≡ find j t
find-update_ne bid j f t k ne = ground (arith, find-update bid j f t k)

pub find-update_self :
    (bid : ℕ) (f : Row → Row) (t : Table) {r : Row}
    → KeepsId f
    → find bid t ≡ some r
    → find bid (update bid f t) ≡ some (f r)
find-update_self bid f t k e = ground (arith, find-update bid bid f t k)

-- A write adds no row and drops none.
pub ids-update :
    (bid : ℕ) (f : Row → Row) (t : Table)
    → KeepsId f
    → map (λ (r : Row). r.id) (update bid f t) ≡ map (λ (r : Row). r.id) t
unfolding update
ids-update bid f [] k = refl
ids-update bid f (r ∷ rs) k = ground (arith, k r, ids-update bid f rs k)

pub find-id : (bid : ℕ) (t : Table) (r : Row) → find bid t ≡ some r → r.id ≡ bid
unfolding find
find-id bid [] r e = cc
find-id bid (q ∷ qs) r e = ground (arith, find-id bid qs r)
