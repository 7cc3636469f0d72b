-- ===== src/Nexus/Sources.antt =====
-- Between which children a rebuild is started (`start_rebuild` of nexus_bdev_rebuild.rs).
use co_create_openebs.Rebuild.Registry.{Backend, Instances}
use co_create_openebs.Nexus.Members.{Nexus, has_name}
use co_create_openebs.Nexus.Recovery.{is_source, destination_of, start_rebuild}
use co_create_openebs.Nexus.Child.{NexusChild, is_open, is_out_of_sync, Devices}
use co_create_openebs.Prelude.{
  List, [], ◌∷◌, String, Bool, true, false, some, ok, ◌≡◌, find, str_eq, inl, inr, Bool-cases,
  Option-cases, Result-cases, arith,
}

find-true :
    (p : NexusChild → Bool) (cs : List NexusChild) (c : NexusChild)
    → find p cs ≡ some c
    → p c ≡ true
find-true p [] c e = absurd (ground arith)
find-true p (x ∷ xs) c e = elim (Bool-cases (p x)) [
  | inl q ↦ ground arith
  | inr q ↦ find-true p xs c (ground arith)
]

source-other :
    (name : String) (c : NexusChild)
    → is_source name c ≡ true
    → (is_open c.state ≡ true) × (str_eq c.name name ≡ false)
source-other name c e = ground arith

destination-out_of_sync :
    (n : Nexus) (name name' : String)
    → destination_of n name ≡ ok name'
    → (c : NexusChild) × ((find (has_name name) n.children ≡ some c)
        × (is_out_of_sync c.state ≡ true))
unfolding destination_of
destination-out_of_sync n name name' e = elim (Option-cases (find (has_name name) n.children)) [
  | inl p ↦ absurd (ground (arith, rw (p, destination_of) at e))
  | inr (c, p) ↦ (c, (p, ground (arith, rw (p, destination_of) at e)))
]

-- If `start_rebuild` succeeds for a name, then the nexus has an open child of another name, which is
-- the first such child, and the first child of that name is faulted as out of sync.
pub start_rebuild_lem :
    (b : Backend) (d : Devices) (jobs jobs' : Instances) (n n' : Nexus) (name : String)
    → start_rebuild b d jobs n name ≡ (jobs', (n', ok tt))
    → (source : NexusChild) × ((child : NexusChild) × ((find (is_source name) n.children
            ≡ some source)
          × ((is_open source.state ≡ true)
              × ((str_eq source.name name ≡ false)
                  × ((find (has_name name) n.children ≡ some child)
                      × (is_out_of_sync child.state ≡ true))))))
unfolding start_rebuild
start_rebuild_lem b d jobs jobs' n n' name e =
    elim (Option-cases (find (is_source name) n.children)) [
      | inl p ↦ absurd (ground (arith, rw (p, start_rebuild) at e))
      | inr (s, p) ↦ elim (Result-cases (destination_of n name)) [
        | inr (x, q) ↦ absurd (ground (arith, rw (p, start_rebuild, q) at e))
        | inl (dest, q) ↦
            let (open_, other) = source-other name s (find-true (is_source name) n.children s p) in
            let (c, (f, o)) = destination-out_of_sync n name dest q in
            (s, (c, (p, (open_, (other, (f, o))))))
      ]
    ]
