-- ===== src/Lib.antt =====
-- The data plane of Mayastor: a nexus is a block device that mirrors its writes to its children
-- and reads from any of them; a child that has missed writes is rebuilt by copying the data of a
-- healthy one.
--
-- Rebuild models the rebuild job (mayastor/src/rebuild/rebuild_api.rs, rebuild_impl.rs, below
-- src/ of the repository, as all paths here). The files correspond to the code like this:
--   * Rebuild/State: `RebuildState`, `RebuildStates` with `set_pending`, `pending_equals` and
--     `reconcile`, `RebuildOperation`, `RebuildError`;
--   * Rebuild/Job: `RebuildJob`, `RebuildTasks`, `RebuildStats`, `validate`, `notify`, `reconcile`,
--     `schedule`. The job is the state; an operation returns the job after it. What the code
--     hands to others is logged in the job: the calls of `notify_fn`, the messages on
--     `notify_chan`, the number of futures that `schedule` gave to the master reactor, and the
--     copy tasks given to the current reactor (`copies`);
--   * Rebuild/Ops: `exec_op` and the client and internal operations;
--   * Rebuild/Tasks: `start_all_tasks`, `start_task_by_id`, `send_segment_task`, `await_one_task`;
--   * Rebuild/Registry: the list of jobs, `create` and `new`, with the devices and buffers that
--     `new` asks for as a parameter, the record `Backend`;
--   * Rebuild/Run: `run` and `await_all_tasks` as a machine that rests at each `await`. An event is
--     a call of the API, a scheduled future that runs, or a copy task that ends; `steps` plays a
--     list of them, so a statement about all lists is one about all interleavings.
-- The other files of Rebuild hold the proofs: Pending (states under operations), Work and Coverage
-- (the blocks sent, in flight and done), Invariant, Messages and Steps (what holds at every
-- moment), Delivery, Frame and Completion (what a completed job has copied), Outcome, Drain,
-- Liveness and Stuck (how a run ends), Jobs (the job list). Rebuild/Tests has runs of a small job.
--
-- Nexus models the I/O path of a nexus (mayastor/src/bdev/nexus/nexus_io.rs, nexus_channel.rs,
-- mayastor/src/core/bio.rs):
--   * Nexus/Channel: `NexusChannelInner` with `child_select`, `refresh`, `create`, `destroy`, and
--     `reconfigure`, the refresh of one channel after another;
--   * Nexus/Io: `NexusBio` with its `NioCtx`, `nexus_submit_io`, `submit_all`, `readv`, `complete`,
--     `disposition`, `try_retire`. The I/O is the state; the calls of `spdk_bdev_io_complete`, the
--     futures of `child_retire` and the number of child I/Os freed are logged in it, and a failed
--     assertion sets `panicked`. SPDK's submission functions are the parameter `Spdk`.
-- and of its children (nexus_child.rs):
--   * Nexus/Child: `NexusChild` with `open`, `fault`, `offline`, `online`, `close`, `remove`,
--     `destroy`, `rebuilding`, `get_dev`; the devices are the parameter `Devices`. `rebuilding` and
--     the refresh of a channel look into the list of rebuild jobs of Rebuild/Registry. `destroy`
--     contains the remove event that it raises, if `raises_remove` says so; an event that no
--     destruction raised is a call of `remove_child`. A `close` that waits for an event that does not
--     come returns none.
-- Mirror and Ended follow the results of the children of one I/O, Submission and Account what a
-- submission leaves, Partial what becomes of one that a writer refused; Refresh is about the
-- handles of a refreshed channel, ChildStates and Offline about a child. Nexus/Tests has an I/O to
-- three children, Nexus/ChildTests a child with its device.
--
-- The nexus itself (nexus_bdev.rs, nexus_bdev_children.rs, nexus_bdev_rebuild.rs):
--   * Nexus/Members: `Nexus` with `new`, `status`, `register_children`, `create_and_register`,
--     `examine_child`, `min_num_blocks`, the lookups and `reconfigure`. The field `channels` has the
--     channels of the nexus on all cores, in the order in which SPDK goes over them;
--   * Nexus/Opening: `try_open_children`, `close_children`, `register`;
--   * Nexus/Recovery: `start_rebuild`, `stop_rebuild`, `pause_rebuild`, `resume_rebuild` and
--     `on_rebuild_update`, over the list of jobs of Rebuild/Registry.
--   * Nexus/Changes: `remove_child`, `offline_child`, `fault_child`, `online_child` and
--     `cancel_child_rebuild_jobs`; what other futures do while one of them waits for jobs to end is
--     the function `elapse` of the parameter `World`.
-- A child that is open or out of sync and gives no handle is faulted by the refresh of a channel, so
-- a reconfiguration changes children too: Refreshed says which, and StillOpen what it leaves open.
-- Online, Sources, Recovered and Healthy have the other proofs, Nexus/MemberTests and
-- Nexus/FaultTests a nexus of two and of three children.
--
-- Label models the GPT label on each child (mayastor/src/bdev/nexus/nexus_label.rs, and
-- `DmaBuf::new` of core/dma.rs):
--   * Label/Layout: the structures, `get_blocks`, `GptHeader::new` and `reference`,
--     `create_maya_partitions`, `protect`;
--   * Label/Format: names and entries as bytes, `checksum`, `to_backup`, `to_primary`,
--     `generate_label`, `set_guid`; the serialisation of fixed structures by bincode, the CRC and
--     UTF-16 are the parameter `Codec`, and Label/Laws says what is relied on of them;
--   * Label/Validate: `from_slice` and the checks of headers and partitions;
--   * Label/Disk: `probe_label`, `get_primary_data`, `get_secondary_data`, `write_at` and
--     `write_label`. A `LabelDevice` is a child with what is on its device and with what fails on it;
--   * Label/Update: `create_label`, `update_label`, `validate_label` of one child, and
--     `find_label_config`, `create_child_labels`, `update_child_labels`,
--     `validate_child_labels` of all of them.
-- Bytes, Entries and Table are about bytes in buffers, Geometry and Room about the places of a label,
-- Probe, Found and Statuses about what is read, Writes and Stores about what is written; RoundTrip,
-- Interrupt, Generated, Created and Sizes put these together. Forms and LittleEndian are an instance
-- of the laws; Label/Tests and Label/DamageTests have a device of 20,000 blocks.
--
-- Metadata models the objects that are kept on the metadata partition of each child
-- (mayastor/src/bdev/nexus/nexus_metadata.rs, nexus_metadata_content.rs), on the same device:
--   * Metadata/Layout: `MetaDataHeader` with `new`, `MetaDataIndexEntry`, `NexusConfig`; bincode and
--     CRC-32 are the parameter `MetaCodec`, of which Metadata/Laws says what is relied on;
--   * Metadata/Read: `from_slice`, `probe_index`, `probe_config_object`,
--     `probe_all_config_objects`, `get_metadata`, `get_config_object`;
--   * Metadata/Write: `write_index`, `write_config_object`, `fragmented` and the loop of `compact`;
--   * Metadata/Store: `sync_metadata`, `create_metadata`, `append_config_object`,
--     `delete_config_object`, `write_all_config_objects`. An operation that changes the metadata in
--     memory returns it with the child and the result.
-- Slices, Signed, Synced, RoundTrip and Probed are about the header and the index; Objects says which
-- list of objects an index stands for, Moved, Compacted and Placed are about their places, Pushed and
-- Appended about a new one. Represented relates a child to a list, and Refinement, Removed, Grown,
-- Stale, Run and Created compare the operations with those on the list. Instance is an instance of the
-- laws, Metadata/Tests and Metadata/GapTests have devices with metadata.
--
-- A number is a natural; sums and products of the code on u64 are taken modulo 2^64 and the counters
-- of an I/O, which are u8, modulo 2^8, and the statements that need no wrap-around say so (`IsSized`,
-- fewer than 256 writers). `start_tasks` recurses on the number of
-- rounds of the code's loop. The machine needs no fuel, as a step is one event.
-- The channels of the tasks hold one message for each task, so a result is delivered as the copy
-- task ends; that all of their senders are gone is an event that a live job, which keeps one, never
-- sees, though the code for it is modelled.
--
-- Prelude has what the components share: names of the library, Boolean tests and lists over the
-- native numbers, machine words and results.
--
-- Not modelled: logging and texts, the copy of a segment itself under its range lock, `add_child` and
-- the creation and destruction of a nexus, and the parts of the repository that wrap SPDK, the
-- operating system or a network service.
pub mod Label
pub mod Metadata
pub mod Nexus
pub mod Prelude
pub mod Rebuild
