-- ===== src/Nexus/Offline.antt =====
-- A child that is taken offline and brought online again (`offline`, `online`, `close`, `remove` of
-- nexus_child.rs).
use co_create_openebs.Nexus.Child.{
  NexusChild, online, Devices, faulted, opened, out_of_sync, online_closed, destroy, offline, Bdev,
  closed, Opened, destroying, is_accessible, child_too_small, config_invalid,
}
use co_create_openebs.Prelude.{
  ◌≡◌, some, arith, ℕ, String, false, none, ok, true, ap, ltb, ◌+◌, refl, err,
}

abbrev offlined : NexusChild → NexusChild
offlined c = record c {
  bdev = none;
  desc = none;
  state = closed;
  prev_state = destroying;
  removals = 0;
  saves = c.saves + 1;
  reconfigures = c.reconfigures + 1;
}

destroy-eq :
    (d : Devices) (c : NexusChild) (b : Bdev)
    → c.state ≡ opened
    → c.bdev ≡ some b
    → c.removals ≡ 0
    → d.raises_remove c.name ≡ true
    → (destroy d c).0 ≡ record c {
      bdev = none;
      desc = none;
      state = closed;
      prev_state = destroying;
      removals = c.removals + 1;
      reconfigures = c.reconfigures + 1;
    }
unfolding destroy
destroy-eq d c b s w z r = ground arith

offline-eq :
    (d : Devices) (c : NexusChild) (b : Bdev)
    → c.state ≡ opened
    → c.bdev ≡ some b
    → c.removals ≡ 0
    → d.raises_remove c.name ≡ true
    → offline d c ≡ some (offlined c)
unfolding offline
offline-eq d c b s w z r = ground (arith, destroy-eq d c b s w z r)

online-eq :
    (d : Devices) (c : NexusChild) (b' : Bdev) (name : String) (n : ℕ)
    → c.state ≡ closed
    → d.bdev_create c.name ≡ ok name
    → d.lookup_by_name name ≡ some b'
    → ltb b'.size_in_bytes n ≡ false
    → d.open_by_name b'.name ≡ ok tt
    → online d c n ≡ (
      record c {
        bdev = some b';
        desc = some b'.name;
        state = faulted out_of_sync;
        prev_state = opened;
        saves = c.saves + 1;
      },
      ok c.name,
    )
unfolding online online_closed
online-eq d c b' name n s k l g o = ground arith

-- An open child that is taken offline and brought online again, where the devices do as they are
-- asked: it is closed in between, with no device, descriptor or removal left to await, and is
-- afterwards out of sync, with the new device open, so that it can be rebuilt.
pub offline-online :
    (d : Devices) (c : NexusChild) (b b' : Bdev) (name : String) (n : ℕ)
    → c.state ≡ opened
    → c.bdev ≡ some b
    → c.removals ≡ 0
    → d.raises_remove c.name ≡ true
    → d.bdev_create c.name ≡ ok name
    → d.lookup_by_name name ≡ some b'
    → ltb b'.size_in_bytes n ≡ false
    → d.open_by_name b'.name ≡ ok tt
    → (x : NexusChild) × ((offline d c ≡ some x)
        × (x.state ≡ closed)
        × (x.bdev ≡ none)
        × (x.desc ≡ none)
        × (x.removals ≡ 0)
        × ((online d x n).1 ≡ ok c.name)
        × ((online d x n).0.state ≡ faulted out_of_sync)
        × ((online d x n).0.bdev ≡ some b')
        × ((online d x n).0.desc ≡ some b'.name))
offline-online d c b b' name n s w z r k l g o =
    let e = online-eq d (offlined c) b' name n refl k l g o in
    (
      offlined c,
      (
        offline-eq d c b s w z r,
        refl,
        refl,
        refl,
        refl,
        ap (λ (v : NexusChild × Opened). v.1) e,
        ap (λ (v : NexusChild × Opened). v.0.state) e,
        ap (λ (v : NexusChild × Opened). v.0.bdev) e,
        ap (λ (v : NexusChild × Opened). v.0.desc) e,
      ),
    )

-- A closed child whose new device is smaller than the nexus is refused when it is brought online, but
-- is out of sync and accessible afterwards, as one that can be rebuilt, and not of an invalid
-- configuration as `open` had set it.
pub online_too_small :
    (d : Devices) (c : NexusChild) (b' : Bdev) (name : String) (n : ℕ)
    → c.state ≡ closed
    → d.bdev_create c.name ≡ ok name
    → d.lookup_by_name name ≡ some b'
    → ltb b'.size_in_bytes n ≡ true
    → ((online d c n).1 ≡ err (child_too_small b'.size_in_bytes n))
      × ((online d c n).0.state ≡ faulted out_of_sync)
      × ((online d c n).0.prev_state ≡ config_invalid)
      × ((online d c n).0.desc ≡ c.desc)
      × (is_accessible (online d c n).0 ≡ true)
unfolding online online_closed is_accessible
online_too_small d c b' name n s k l g = ground arith
