-- ===== src/Retention/Order.antt =====
-- What `sorted(..., reverse=True)` of pfsense_shared/retention.py gives: the same backups, the
-- newest first.
use pfsense_backups.Prelude.{
  ◌≤◌, ◌≡◌, ◌⊎◌, inl, inr, List, [], ◌∷◌, arith, leb, All, In, Bool-cases,
}
use pfsense_backups.Retention.{Backup, insert_newest, newest_first}

abbrev pub NoLater : Backup → List Backup → Type 0
NoLater b bs = All (λ (c : Backup). c.1 ≤ b.1) bs

abbrev pub IsNewestFirst : List Backup → Type 0
IsNewestFirst [] = Unit
IsNewestFirst (b ∷ bs) = NoLater b bs × IsNewestFirst bs

All-insert :
    (P : Backup → Type 0) (b : Backup) (bs : List Backup)
    → P b
    → All P bs
    → All P (insert_newest b bs)
unfolding insert_newest
All-insert P b [] p h = (p, h)
All-insert P b (c ∷ cs) p h = elim (Bool-cases (leb c.1 b.1)) [
  | inl e ↦ rw e (p, h)
  | inr e ↦ rw e (h.0, All-insert P b cs p h.1)
]

NoLater-trans : (b c : Backup) (bs : List Backup) → c.1 ≤ b.1 → NoLater c bs → NoLater b bs
NoLater-trans b c [] le h = tt
NoLater-trans b c (d ∷ ds) le h = (omega arith, NoLater-trans b c ds le h.1)

insert-IsNewestFirst :
    (b : Backup) (bs : List Backup) → IsNewestFirst bs → IsNewestFirst (insert_newest b bs)
unfolding insert_newest
insert-IsNewestFirst b [] h = (tt, tt)
insert-IsNewestFirst b (c ∷ cs) h = elim (Bool-cases (leb c.1 b.1)) [
  | inl e ↦ rw e ((ground arith, NoLater-trans b c cs (ground arith) h.0), h)
  | inr e ↦ rw e (
    All-insert (λ (x : Backup). x.1 ≤ c.1) b cs (ground arith) h.0,
    insert-IsNewestFirst b cs h.1,
  )
]

pub newest_first-IsNewestFirst : (bs : List Backup) → IsNewestFirst (newest_first bs)
unfolding newest_first
newest_first-IsNewestFirst [] = tt
newest_first-IsNewestFirst (b ∷ bs) =
    insert-IsNewestFirst b (newest_first bs) (newest_first-IsNewestFirst bs)

In-insert : (b c : Backup) (bs : List Backup) → In c (insert_newest b bs) → (c ≡ b) ⊎ In c bs
unfolding insert_newest
In-insert b c [] (inl e) = inl e
In-insert b c [] (inr m) = absurd m
In-insert b c (d ∷ ds) m = elim (Bool-cases (leb d.1 b.1)) [
  | inl e ↦ rw e at m
  | inr e ↦ past (In-insert b c ds) (rw e at m)
]
  where
    past :
        (In c (insert_newest b ds) → (c ≡ b) ⊎ In c ds)
        → In c (d ∷ insert_newest b ds)
        → (c ≡ b) ⊎ In c (d ∷ ds)
    past ih (inl p) = inr (inl p)
    past ih (inr p) = elim (ih p) [ inl q ↦ inl q | inr q ↦ inr (inr q) ]

In-insert_of : (b c : Backup) (bs : List Backup) → (c ≡ b) ⊎ In c bs → In c (insert_newest b bs)
unfolding insert_newest
In-insert_of b c [] h = h
In-insert_of b c (d ∷ ds) h = elim (Bool-cases (leb d.1 b.1)) [
  | inl e ↦ rw e h
  | inr e ↦ rw e (past (In-insert_of b c ds) h)
]
  where
    past :
        ((c ≡ b) ⊎ In c ds → In c (insert_newest b ds))
        → (c ≡ b) ⊎ In c (d ∷ ds)
        → In c (d ∷ insert_newest b ds)
    past ih (inl p) = inr (ih (inl p))
    past ih (inr (inl p)) = inl p
    past ih (inr (inr p)) = inr (ih (inr p))

pub In-newest_first : (c : Backup) (bs : List Backup) → In c (newest_first bs) → In c bs
unfolding newest_first
In-newest_first c [] h = h
In-newest_first c (b ∷ bs) h = elim (In-insert b c (newest_first bs) h) [
  | inl e ↦ inl e
  | inr m ↦ inr (In-newest_first c bs m)
]

pub In-newest_first_of : (c : Backup) (bs : List Backup) → In c bs → In c (newest_first bs)
unfolding newest_first
In-newest_first_of c [] h = h
In-newest_first_of c (b ∷ bs) (inl e) = In-insert_of b c (newest_first bs) (inl e)
In-newest_first_of c (b ∷ bs) (inr m) =
    In-insert_of b c (newest_first bs) (inr (In-newest_first_of c bs m))
