-- ===== src/Nexus/Tests.antt =====
-- An I/O to three children (nexus_io.rs).
use co_create_openebs.Nexus.Partial.{
  all_succeed, no_memory_completes_each, refused_panics, refused_yet_success,
}
use co_create_openebs.Nexus.Account.{refused_read_lost, Dropped, submit_accounts}
use co_create_openebs.Nexus.Io.{
  Spdk, submit_all, Errno, IoType, complete_child_io, submit_read, nexus_submit_io, NexusBio,
  enomem, write, ChildIo, read, submit_one, Submitted, einval, try_for_each, pending, success,
  after_submit,
}
use co_create_openebs.Nexus.Mirror.{complete_each, Results}
use co_create_openebs.Nexus.Ended.{IsEnded}
use co_create_openebs.Nexus.Channel.{BdevHandle, NexusChannelInner}
use co_create_openebs.Nexus.Submission.{AcceptsAll, IsFresh, submit_mirrors, Accounted}
use co_create_openebs.Prelude.{
  refl, ◌≡◌, [], ◌∷◌, List, length, false, err, ok, true, if◌then◌else◌, ◌⊎◌, arith, str_eq, sym,
}

abbrev three_children : List BdevHandle
three_children = "a" ∷ "b" ∷ "c" ∷ []

abbrev sample_channel : NexusChannelInner
sample_channel = record { writers = three_children; readers = three_children; previous = 2 }

-- SPDK takes every I/O, or refuses reads and, at the third child, writes.
abbrev taking : Spdk
taking = record {
  readv_blocks = λ h offset n. ok tt;
  writev_blocks = λ h offset n. ok tt;
  unmap_blocks = λ h offset n. ok tt;
  write_zeroes_blocks = λ h offset n. ok tt;
  reset_bdev = λ h. ok tt;
}

abbrev refuse_third : Errno → BdevHandle → Submitted
refuse_third e h = if str_eq h "c" then err e else ok tt

abbrev refusing : Errno → Spdk
refusing e = record {
  readv_blocks = λ h offset n. err e;
  writev_blocks = λ h offset n. refuse_third e h;
  unmap_blocks = λ h offset n. refuse_third e h;
  write_zeroes_blocks = λ h offset n. refuse_third e h;
  reset_bdev = λ h. refuse_third e h;
}

abbrev sample_io : IoType → NexusBio
sample_io t = record {
  io_type = t;
  offset = 7;
  num_blocks = 8;
  ctx = record { in_flight = 0; num_ok = 0; status = pending; core = 1 };
  completed = [];
  retiring = [];
  freed = 0;
  panicked = false;
}

sample_io-IsFresh : (t : IoType) → IsFresh (sample_io t) 1
sample_io-IsFresh t = record {
  in_flight = refl;
  num_ok = refl;
  status = refl;
  on_core = refl;
  new = refl;
}

taking-AcceptsAll : AcceptsAll taking three_children
taking-AcceptsAll = record {
  writev = λ offset n. (refl, (refl, (refl, tt)));
  unmap_ = λ offset n. (refl, (refl, (refl, tt)));
  zeroes = λ offset n. (refl, (refl, (refl, tt)));
  resets = (refl, (refl, (refl, tt)));
}

abbrev child : BdevHandle → ChildIo
child h = record { bdev = h; invalid_opcode = false }

abbrev mixed_results : Results
mixed_results = (child "b", false) ∷ (child "a", true) ∷ (child "c", false) ∷ []

submit_mirrors_example :
    IsEnded
      (sample_io write)
      (complete_each 1
        (nexus_submit_io taking 10 sample_channel (sample_io write)).1.0
        mixed_results)
      3
      1
      ("c" ∷ "b" ∷ [])
submit_mirrors_example =
    submit_mirrors taking 10 1 sample_channel (sample_io write) mixed_results
      (sample_io-IsFresh write) refl taking-AcceptsAll (omega arith) (omega arith) refl

refused_by : (e : Errno) (h : BdevHandle) → submit_read (refusing e) 10 (sample_io read) h ≡ err e
unfolding submit_read
refused_by e h = refl

short_result : (e : Errno) → (submit_all (refusing e) 10 sample_channel (sample_io write)).1 ≡ err e
unfolding submit_all submit_one try_for_each after_submit
short_result e = refl

short_flying :
    (e : Errno) → (submit_all (refusing e) 10 sample_channel (sample_io write)).0.ctx.in_flight ≡ 2
unfolding submit_all submit_one try_for_each after_submit
short_flying e = refl

submit_accounts_example :
    let r = (nexus_submit_io (refusing enomem) 10 sample_channel (sample_io write)).1 in
    Accounted r.0 ⊎ Dropped (sample_io write) r
submit_accounts_example =
    submit_accounts (refusing enomem) 10 1 sample_channel (sample_io write)
      (sample_io-IsFresh write)

refused_read_lost_example :
    let io' = (nexus_submit_io (refusing einval) 10 sample_channel (sample_io read)).1.0 in
    (io'.completed ≡ []) × (io'.ctx.in_flight ≡ 0)
refused_read_lost_example =
    refused_read_lost (refusing einval) 10 1 sample_channel (sample_io read) (λ h. einval)
      (sample_io-IsFresh read) refl (omega arith) (refused_by einval)

no_memory_completes_each_example :
    length
      (complete_each 1
        (submit_all (refusing enomem) 10 sample_channel (sample_io write)).0
        (all_succeed (child "a" ∷ child "b" ∷ []))).completed
    ≡ (submit_all (refusing enomem) 10 sample_channel (sample_io write)).0.ctx.in_flight
no_memory_completes_each_example =
    no_memory_completes_each (refusing enomem) 10 1 sample_channel (sample_io write)
      (child "a" ∷ child "b" ∷ []) (sample_io-IsFresh write) (short_result enomem)
      (omega (arith, short_flying enomem)) (sym (short_flying enomem))

refused_yet_success_example :
    (complete_each 1
      (submit_all (refusing enomem) 10 sample_channel (sample_io write)).0
      ((child "a", false) ∷ (child "b", true) ∷ [])).completed
    ≡ success ∷ []
refused_yet_success_example =
    refused_yet_success (refusing enomem) 10 1 sample_channel (sample_io write) enomem (child "a")
      ((child "b", true) ∷ []) (sample_io-IsFresh write) (short_result enomem) (short_flying enomem)
      (omega arith) (omega arith)

refused_panics_example :
    (complete_child_io 1
      (submit_all (refusing einval) 10 sample_channel (sample_io write)).0
      (child "b")
      true).panicked
    ≡ true
refused_panics_example =
    refused_panics (refusing einval) 10 1 sample_channel (sample_io write) (child "b")
      (sample_io-IsFresh write) (short_result einval) (omega (arith, short_flying einval))
