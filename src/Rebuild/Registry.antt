-- ===== src/Rebuild/Registry.antt =====
-- The job list (`RebuildInstances`, `store`, `create`, `lookup`, `lookup_src`, `remove`, `count`)
-- and the creation of a job (`new`). The devices, buffers and names that `new` asks for are those
-- of other components, and enter as a parameter.
use co_create_openebs.Prelude.{
  ℕ, zero, suc, String, ◌+◌, ◌/◌, Bool, true, false, List, [], ◌∷◌, Option, none, some, Result, ok,
  err, if◌then◌else◌, str_eq, filter, length, mul_u64,
}
use co_create_openebs.Rebuild.State.{
  init, RebuildError, no_copy_buffer, invalid_parameters, no_bdev_handle, bdev_not_found,
  job_not_found, job_already_exists, bdev_invalid_uri,
}
use co_create_openebs.Rebuild.Job.{
  RebuildJob, BdevGeometry, Range, RebuildTask, segment_tasks, validate,
}

-- `bdev_get_name`, `BdevHandle::open`, `Bdev::open_by_name` and `dma_malloc`, whose errors are
-- numbers. `dma_malloc` is asked once for each task, so it is told which.
pub record Backend : Type 0 where
  pub bdev_get_name : String → Result ℕ String
  pub handle_open : String → (read_write claim : Bool) → Result ℕ BdevGeometry
  pub open_by_name : String → Bool → Result ℕ (Unit {0})
  pub dma_malloc : (task size : ℕ) → Result ℕ (Unit {0})
  -- SPDK_BDEV_LARGE_BUF_MAX_SIZE
  pub segment_size : ℕ

module _ (b : Backend) where
  unfoldable pub open_handle : String → Bool → Bool → Result RebuildError BdevGeometry
  open_handle uri read_write claim = elim (b.bdev_get_name uri) [
    | err e ↦ err (bdev_invalid_uri e uri)
    | ok name ↦ elim (b.handle_open name read_write claim) [
      | err e ↦ err (no_bdev_handle e uri)
      | ok geometry ↦ ok geometry
    ]
  ]

  -- The loop that allocates the copy buffers of tasks `n`, `n + 1`, …
  unfoldable pub new_tasks : (rounds n size : ℕ) → Result RebuildError (List RebuildTask)
  new_tasks zero n size = ok []
  new_tasks (suc rounds) n size =
      let rest = new_tasks rounds (n + 1) size in
      elim (b.dma_malloc n size) [
        | err e ↦ err (no_copy_buffer e)
        | ok _ ↦ elim rest [ err e ↦ err e | ok tasks ↦ ok (record { error = none } ∷ tasks) ]
      ]

  abbrev pub new_job :
      (nexus source destination : String) → Range → BdevGeometry → List RebuildTask → RebuildJob
  new_job nexus source destination range geometry tasks = record {
    nexus = nexus;
    source = source;
    destination = destination;
    block_size = geometry.block_len;
    range = range;
    next = range.start;
    segment_size_blks = b.segment_size / geometry.block_len;
    task_pool = record { tasks = tasks; active = 0; total = segment_tasks; segments_done = 0 };
    states = record { current = init; pending = none };
    complete_chan = 0;
    error = none;
    notify_calls = [];
    notify_sent = [];
    scheduled = 0;
    copies = [];
  }

  -- `new` once both handles are open.
  unfoldable pub new_opened :
      (nexus source destination : String)
      → Range
      → (source_geometry destination_geometry : BdevGeometry) → Result RebuildError RebuildJob
  new_opened nexus source destination range s d = elim (validate s d range) [
    | false ↦ err invalid_parameters
    | true ↦ elim (new_tasks segment_tasks 0 (mul_u64 (b.segment_size / d.block_len) d.block_len)) [
      | err e ↦ err e
      | ok tasks ↦ elim (b.open_by_name nexus false) [
        | err e ↦ err (bdev_not_found e nexus)
        | ok _ ↦ ok (new_job nexus source destination range d tasks)
      ]
    ]
  ]

  unfoldable pub new : (nexus source destination : String) → Range → Result RebuildError RebuildJob
  new nexus source destination range = elim (open_handle source false false) [
    | err e ↦ err e
    | ok s ↦ elim (open_handle destination true false) [
      | err e ↦ err e
      | ok d ↦ new_opened nexus source destination range s d
    ]
  ]

-- The list of jobs by destination. A `HashMap` has no order; the model keeps one.
abbrev pub Instances : Type 0
Instances = List RebuildJob

unfoldable pub lookup_job : Instances → String → Option RebuildJob
lookup_job [] name = none
lookup_job (j ∷ js) name =
    let rest = lookup_job js name in if str_eq j.destination name then some j else rest

unfoldable pub store : Instances → RebuildJob → Instances × Result RebuildError (Unit {0})
unfolding lookup_job
store jobs job = elim (lookup_job jobs job.destination) [
  | some _ ↦ (jobs, err (job_already_exists job.destination))
  | none ↦ (job ∷ jobs, ok tt)
]

unfoldable pub lookup : Instances → String → Result RebuildError RebuildJob
unfolding lookup_job
lookup jobs name = elim (lookup_job jobs name) [
  | some job ↦ ok job
  | none ↦ err (job_not_found name)
]

unfoldable pub lookup_src : Instances → String → List RebuildJob
lookup_src jobs name = filter (λ j. str_eq j.source name) jobs

unfoldable pub erase_job : Instances → String → Instances
erase_job [] name = []
erase_job (j ∷ js) name =
    let rest = erase_job js name in if str_eq j.destination name then js else j ∷ rest

unfoldable pub remove : Instances → String → Instances × Result RebuildError RebuildJob
unfolding lookup_job erase_job
remove jobs name = elim (lookup_job jobs name) [
  | some job ↦ (erase_job jobs name, ok job)
  | none ↦ (jobs, err (job_not_found name))
]

unfoldable pub count_jobs : Instances → ℕ
count_jobs jobs = length jobs

unfoldable pub create :
    Backend
    → Instances
    → (nexus source destination : String) → Range
    → Instances × Result RebuildError RebuildJob
unfolding new store lookup
create b jobs nexus source destination range = elim (new b nexus source destination range) [
  | err e ↦ (jobs, err e)
  | ok job ↦
      let (jobs', stored) = store jobs job in
      elim stored [ err e ↦ (jobs', err e) | ok _ ↦ (jobs', lookup jobs' destination) ]
]
