-- ===== src/Jobs/Rules.antt =====
-- Rules for the calls of Jobs.antt: what holds before one, after it, and when it raises.
use pfsense_backups.Prelude.{
  ℕ, ◌≡◌, refl, sym, ap, ◌∙◌, subst, inl, inr, Bool, true, false, Option, none, some, List, [], ◌∷◌,
  ◌==◌, Bool-cases, if◌then◌else◌,
}
use pfsense_backups.Store.{Text}
use pfsense_backups.Jobs.{
  JobStatus, Job, JobEvent, Worker, Ran, done, raised, M, ◌>>=◌, return, throw, catch, finally,
  attempt, find_job, update_job, marked, mark_job, publish,
}

abbrev pub Pred : Type 1
Pred = Worker → Type 0

abbrev pub Ends : {A : Type 0} → (A → Pred) → Pred → Ran A → Type 0
Ends Q R (done a w) = Q a w
Ends Q R (raised e w) = R w

-- From a state with P the call returns with Q, or raises with R.
pub record Triple {A : Type 0} (P : Pred) (m : M A) (Q : A → Pred) (R : Pred) : Type 0 where
  pub run : (w : Worker) → P w → Ends Q R (m w)

module _ {A : Type 0} {P : Pred} {Q : A → Pred} {R : Pred} {m : M A} where
  pub bind_rule :
      {B : Type 0} {Q' : B → Pred} {f : A → M B}
      → Triple P m Q R
      → ((a : A) → Triple (Q a) (f a) Q' R)
      → Triple P (m >>= f) Q' R
  unfolding ◌>>=◌
  bind_rule {B = B} {Q' = Q'} {f = f} h k = record { run = λ w p. go (m w) (h.run w p) }
    where
      go :
          (r : Ran A)
          → Ends Q R r
          → Ends Q' R (elim r [ done a w' ↦ f a w' | raised e w' ↦ raised e w' ])
      go (done a w') q = (k a).run w' q
      go (raised e w') q = q

  pub catch_rule :
      {R' : Pred} {f : Text → M A}
      → Triple P m Q R
      → ((e : Text) → Triple R (f e) Q R')
      → Triple P (catch m f) Q R'
  unfolding catch
  catch_rule {R' = R'} {f = f} h k = record { run = λ w p. go (m w) (h.run w p) }
    where
      go :
          (r : Ran A)
          → Ends Q R r
          → Ends Q R' (elim r [ done a w' ↦ done a w' | raised e w' ↦ f e w' ])
      go (done a w') q = q
      go (raised e w') q = (k e).run w' q

  pub finally_rule :
      {Q' : A → Pred} {R' : Pred} (f : Worker → Worker)
      → Triple P m Q R
      → ((a : A) (w : Worker) → Q a w → Q' a (f w))
      → ((w : Worker) → R w → R' (f w))
      → Triple P (finally m f) Q' R'
  unfolding finally
  finally_rule {Q' = Q'} {R' = R'} f h k l = record { run = λ w p. go (m w) (h.run w p) }
    where
      go :
          (r : Ran A)
          → Ends Q R r
          → Ends Q' R' (elim r [ done a w' ↦ done a (f w') | raised e w' ↦ raised e (f w') ])
      go (done a w') q = k a w' q
      go (raised e w') q = l w' q

  pub weaken_rule : {R' : Pred} → Triple P m Q R → ((w : Worker) → R w → R' w) → Triple P m Q R'
  weaken_rule {R' = R'} h k = record { run = λ w p. go (m w) (h.run w p) }
    where
      go : (r : Ran A) → Ends Q R r → Ends Q R' r
      go (done a w') q = q
      go (raised e w') q = k w' q

  pub strengthen_rule :
      {Q' : A → Pred} → Triple P m Q R → ((a : A) (w : Worker) → Q a w → Q' a w) → Triple P m Q' R
  strengthen_rule {Q' = Q'} h k = record { run = λ w p. go (m w) (h.run w p) }
    where
      go : (r : Ran A) → Ends Q R r → Ends Q' R r
      go (done a w') q = k a w' q
      go (raised e w') q = q

  pub assume_rule : {P' : Pred} → Triple P m Q R → ((w : Worker) → P' w → P w) → Triple P' m Q R
  assume_rule h k = record { run = λ w p. h.run w (k w p) }

pub attempt_rule :
    {P Q : Pred} (fault : Option Text) (f : Worker → Worker)
    → ((w : Worker) → P w → Q (f w))
    → Triple P (attempt fault f) (λ a. Q) P
unfolding attempt
attempt_rule none f h = record { run = λ w p. h w p }
attempt_rule (some e) f h = record { run = λ w p. p }

pub return_rule : {A : Type 0} {Q : A → Pred} {R : Pred} (a : A) → Triple (Q a) (return a) Q R
unfolding return
return_rule a = record { run = λ w p. p }

-- A predicate of the jobs alone.
abbrev pub OfJobs : (List Job → Type 0) → Pred
OfJobs P w = P w.jobs

-- What holds of the jobs still holds, however the call ends.
pub record IsQuiet {A : Type 0} (m : M A) : Type 1 where
  pub keep : (P : List Job → Type 0) → Triple (OfJobs P) m (λ a. OfJobs P) (OfJobs P)

pub bind-IsQuiet :
    {A B : Type 0} {m : M A} {f : A → M B}
    → IsQuiet m
    → ((a : A) → IsQuiet (f a))
    → IsQuiet (m >>= f)
bind-IsQuiet h k = record { keep = λ P. bind_rule (h.keep P) (λ a. (k a).keep P) }

pub catch-IsQuiet :
    {A : Type 0} {m : M A} {f : Text → M A}
    → IsQuiet m
    → ((e : Text) → IsQuiet (f e))
    → IsQuiet (catch m f)
catch-IsQuiet h k = record { keep = λ P. catch_rule (h.keep P) (λ e. (k e).keep P) }

pub return-IsQuiet : {A : Type 0} (a : A) → IsQuiet (return a)
unfolding return
return-IsQuiet a = record { keep = λ P. record { run = λ w p. p } }

pub throw-IsQuiet : {A : Type 0} (e : Text) → IsQuiet (throw {A = A} e)
unfolding throw
throw-IsQuiet e = record { keep = λ P. record { run = λ w p. p } }

pub if-IsQuiet :
    {A : Type 0} (b : Bool) {m n : M A} → IsQuiet m → IsQuiet n → IsQuiet (if b then m else n)
if-IsQuiet true h k = h
if-IsQuiet false h k = k

pub attempt-IsQuiet :
    (fault : Option Text) (f : Worker → Worker)
    → ((w : Worker) → (f w).jobs ≡ w.jobs)
    → IsQuiet (attempt fault f)
attempt-IsQuiet fault f h = record {
  keep = λ P. attempt_rule fault f (λ w p. subst P (sym (h w)) p);
}

pub publish-IsQuiet : (fault : Option Text) (e : JobEvent) → IsQuiet (publish fault e)
unfolding publish
publish-IsQuiet fault e = attempt-IsQuiet fault _ (λ w. refl)

-- What holds of the job of an id, if there is one.
abbrev pub OfJob : (Job → Type 0) → Option Job → Type 0
OfJob P none = ⊥
OfJob P (some j) = P j

abbrev pub IsKnown : ℕ → List Job → Type 0
IsKnown jid jobs = OfJob (λ j. Unit) (find_job jid jobs)

abbrev pub HasStatus : ℕ → JobStatus → List Job → Type 0
HasStatus jid status jobs = OfJob (λ j. j.status ≡ status) (find_job jid jobs)

pub OfJob-map :
    (P Q : Job → Type 0) (o : Option Job) → ((j : Job) → P j → Q j) → OfJob P o → OfJob Q o
OfJob-map P Q none f h = h
OfJob-map P Q (some j) f h = f j h

pub update_job-OfJob :
    (P Q : Job → Type 0) (jid : ℕ) (f : Job → Job) (jobs : List Job)
    → ((j : Job) → (f j).id ≡ j.id)
    → ((j : Job) → P j → Q (f j))
    → OfJob P (find_job jid jobs)
    → OfJob Q (find_job jid (update_job jid f jobs))
unfolding find_job update_job
update_job-OfJob P Q jid f [] i k h = h
update_job-OfJob P Q jid f (j ∷ js) i k h = elim (Bool-cases (j.id == jid)) [
  | inl e ↦ rw e (rw (ap (λ n. n == jid) (i j) ∙ e) (k j (rw e at h)))
  | inr e ↦ rw e (rw e (update_job-OfJob P Q jid f js i k (rw e at h)))
]

-- A mark that is not made leaves the job as it was.
pub remark_job_rule :
    (P : Job → Type 0) (fault : Option Text) (now jid : ℕ) (status : JobStatus) (at : Option ℕ)
    (message : Option Text)
    → Triple
        (OfJobs (λ jobs. OfJob P (find_job jid jobs)))
        (mark_job fault now jid status at message)
        (λ a. OfJobs (HasStatus jid status))
        (OfJobs (λ jobs. OfJob P (find_job jid jobs)))
unfolding mark_job marked
remark_job_rule P fault now jid status at message = attempt_rule fault _ (λ w p.
    update_job-OfJob P (λ j. j.status ≡ status) jid (marked status now at message) w.jobs
      (λ j. refl) (λ j h. refl) p)

pub mark_job_rule :
    (fault : Option Text) (now jid : ℕ) (status : JobStatus) (at : Option ℕ) (message : Option Text)
    → Triple
        (OfJobs (IsKnown jid))
        (mark_job fault now jid status at message)
        (λ a. OfJobs (HasStatus jid status))
        (OfJobs (IsKnown jid))
mark_job_rule = remark_job_rule (λ j. Unit)
