-- ===== src/Rebuild/Jobs.antt =====
-- The job list under `store`, `lookup` and `remove` (rebuild_impl.rs, rebuild_api.rs).
use co_create_openebs.Rebuild.State.{job_already_exists, RebuildError}
use co_create_openebs.Rebuild.Job.{RebuildJob}
use co_create_openebs.Rebuild.Registry.{store, lookup, Instances, remove, lookup_job, erase_job}
use co_create_openebs.Prelude.{
  ◌≡◌, ◌∷◌, String, ◌≢◌, str_eq, false, true, Bool-cases, none, str_eq_iff, refl, ok, inl, err, inr,
  sym, Result, ap,
}

pub str_eq_refl : (s : String) → str_eq s s ≡ true
str_eq_refl s = (str_eq_iff s s).1 refl

pub str_eq-other : (s t : String) → s ≢ t → str_eq s t ≡ false
str_eq-other s t n = elim (Bool-cases (str_eq s t)) [
  | inl e ↦ absurd (n ((str_eq_iff s t).0 e))
  | inr e ↦ e
]

store-eq :
    (jobs : Instances) (job : RebuildJob)
    → lookup_job jobs job.destination ≡ none
    → store jobs job ≡ (job ∷ jobs, ok tt)
unfolding store
store-eq jobs job e = rw (e, store) refl

abbrev stored_twice : Instances → String → Instances × Result RebuildError (Unit {0})
stored_twice jobs s = (jobs, err (job_already_exists s))

store_again :
    (jobs : Instances) (job other : RebuildJob)
    → other.destination ≡ job.destination
    → store (job ∷ jobs) other ≡ (job ∷ jobs, err (job_already_exists job.destination))
unfolding store lookup_job
store_again jobs job other o =
    let r : str_eq job.destination other.destination ≡ true = (str_eq_iff _ _).1 (sym o) in
    rw (r, store) (ap (stored_twice (job ∷ jobs)) o)

abbrev removed : RebuildJob → Instances → Instances × Result RebuildError RebuildJob
removed job jobs = (jobs, ok job)

remove_stored :
    (jobs : Instances) (job : RebuildJob) → remove (job ∷ jobs) job.destination ≡ (jobs, ok job)
unfolding remove lookup_job erase_job
remove_stored jobs job =
    let r = str_eq_refl job.destination in
    let e : erase_job (job ∷ jobs) job.destination ≡ jobs = rw (r, erase_job) refl in
    rw (r, remove) (ap (removed job) e)

-- A job stored under a destination that has none is found under it, and every other name finds what
-- it found before; a second job of that destination is refused and leaves the list as it is; and
-- removing the destination gives the job back, with the list as it was.
pub store-lookup-remove :
    (jobs : Instances) (job other : RebuildJob) (name : String)
    → lookup_job jobs job.destination ≡ none
    → name ≢ job.destination
    → other.destination ≡ job.destination
    → let jobs' = (store jobs job).0 in
      (lookup jobs' job.destination ≡ ok job)
      × (lookup jobs' name ≡ lookup jobs name)
      × (store jobs' other ≡ (jobs', err (job_already_exists job.destination)))
      × (remove jobs' job.destination ≡ (jobs, ok job))
unfolding lookup lookup_job
store-lookup-remove jobs job other name e n o =
    let r = str_eq_refl job.destination in
    let q = str_eq-other job.destination name (λ p. n (sym p)) in
    rw (store-eq jobs job e) (
      rw (r, lookup) refl,
      rw (q, lookup) refl,
      store_again jobs job other o,
      remove_stored jobs job,
    )
