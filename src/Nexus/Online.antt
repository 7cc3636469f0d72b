-- ===== src/Nexus/Online.antt =====
-- A nexus whose children have been opened is online (`try_open_children` of nexus_bdev_children.rs,
-- `register` and `status` of nexus_bdev.rs).
use mathlib.Core.Path.{subst}
use co_create_openebs.Nexus.Members.{
  Nexus, status, nexus_init, nexus_open, nexus_online, set_nexus_state,
}
use co_create_openebs.Nexus.Opening.{
  bdevs, open_each, partition_opened, finish_open, open_with, try_open_children, register, aligned,
  Tried, close_names,
}
use co_create_openebs.Nexus.Child.{NexusChild, Bdev, Devices, open_child_device, is_open, Opened}
use co_create_openebs.Prelude.{
  ℕ, List, [], ◌∷◌, ◌≡◌, ok, err, some, none, true, false, All, all, refl, arith, length, String,
  ap, suc, inl, inr, ◌<◌, Bool, Bool-cases, Option-cases, ◌∙◌, any, not, ◌==◌, sym,
}

abbrev pub IsOpen : NexusChild → Type 0
IsOpen c = is_open c.state ≡ true

opened-IsOpen :
    (d : Devices) (c : NexusChild) (size : ℕ) (name : String)
    → (open_child_device d c size).1 ≡ ok name
    → IsOpen (open_child_device d c size).0
unfolding open_child_device
opened-IsOpen d c size name e = ground arith

none_failed :
    (r : Opened) (rs : List Opened)
    → (partition_opened (r ∷ rs)).1 ≡ false
    → ((name : String) × (r ≡ ok name)) × ((partition_opened rs).1 ≡ false)
unfolding partition_opened
none_failed (ok name) rs e = ((name, refl), e)
none_failed (err x) rs e = absurd (ground arith)

open_each-IsOpen :
    (d : Devices) (size : ℕ) (cs : List NexusChild)
    → (partition_opened (open_each d size cs).1).1 ≡ false
    → All IsOpen (open_each d size cs).0
unfolding open_each partition_opened
open_each-IsOpen d size [] e = tt
open_each-IsOpen d size (c ∷ cs) e =
    let ((name, p), rest) = none_failed (open_child_device d c size).1 (open_each d size cs).1 e in
    (opened-IsOpen d c size name p, open_each-IsOpen d size cs rest)

length-open_each :
    (d : Devices) (size : ℕ) (cs : List NexusChild) → length (open_each d size cs).0 ≡ length cs
unfolding open_each
length-open_each d size [] = refl
length-open_each d size (c ∷ cs) = ap suc (length-open_each d size cs)

all_open : (cs : List NexusChild) → All IsOpen cs → all (λ c. is_open c.state) cs ≡ true
all_open [] a = refl
all_open (c ∷ cs) a = rw (a.0) (all_open cs a.1)

-- What a nexus has once its children have been opened.
pub record IsOpened (n n' : Nexus) : Type 0 where
  pub open_ : All IsOpen n'.children
  pub count : length n'.children ≡ length n.children
  pub state : n'.state ≡ n.state

abbrev nexus_of : Nexus → Tried → Nexus
nexus_of n none = n
nexus_of n (some t) = t.0

after_open :
    (buf_align : ℕ → ℕ) (d : Devices) (n n0 n' : Nexus) (bs : List Bdev) (names : List String)
    (failed : Bool)
    → (failed ≡ false → All IsOpen n0.children)
    → length n0.children ≡ length n.children
    → n0.state ≡ n.state
    → finish_open buf_align d n0 bs (names, failed) ≡ some (n', ok tt)
    → IsOpened n n'
unfolding finish_open
after_open b d n n0 n' bs names false a l s e =
    let to : record n0 { required_alignment = aligned b n0.required_alignment bs } ≡ n' =
      ap (nexus_of n0) e in
    let cs : n0.children ≡ n'.children = ap (λ (t : Nexus). t.children) to in
    record {
      open_ = subst (λ (t : List NexusChild). All IsOpen t) (cs) (a refl);
      count = sym (ap (λ (t : List NexusChild). length t) cs) ∙ l;
      state = sym (ap (λ (t : Nexus). t.state) to) ∙ s;
    }
after_open b d n n0 n' bs names true a l s e =
    elim (Option-cases (close_names d names n0.children)) [
      | inl p ↦ absurd (ground (arith, rw (p, finish_open) at e))
      | inr (cs, p) ↦ absurd (ground (arith, rw (p, finish_open) at e))
    ]

has_device :
    (cs : List NexusChild) (b : Bdev) (bs : List Bdev) → bdevs cs ≡ some (b ∷ bs) → 0 < length cs
unfolding bdevs
has_device [] b bs e = absurd (ground arith)
has_device (c ∷ cs) b bs e = omega arith

after_devices :
    (buf_align : ℕ → ℕ) (d : Devices) (n n' : Nexus) (bs : List Bdev)
    → bdevs n.children ≡ some bs
    → open_with buf_align d n bs ≡ some (n', ok tt)
    → IsOpened n n' × (0 < length n.children)
unfolding open_with
after_devices f d n n' [] p e = absurd (ground arith)
after_devices f d n n' (b ∷ bs) p e =
    elim (Bool-cases (any (λ b'. not (b'.block_len == b.block_len)) (b ∷ bs))) [
      | inl q ↦ absurd (ground (arith, rw (q, open_with) at e))
      | inr q ↦
          let opened = open_each d n.size n.children in
          let names = partition_opened opened.1 in
          let e' : finish_open f d (record n { block_len = b.block_len; children = opened.0 })
                (b ∷ bs) names
              ≡ some (n', ok tt) =
            rw (q, open_with) at e in
          (
            after_open f d n (record n { block_len = b.block_len; children = opened.0 }) n' (b ∷ bs)
                names.0 names.1 (λ k. open_each-IsOpen d n.size n.children k)
                (length-open_each d n.size n.children) refl e',
            has_device n.children b bs p,
          )
    ]

registered :
    (d : Devices) (n : Nexus)
    → n.state ≡ nexus_init
    → register d (ok tt) n ≡ some (set_nexus_state n nexus_open, ok tt)
unfolding register
registered d n e = ground arith

online_of :
    (n : Nexus) → All IsOpen n.children → status (set_nexus_state n nexus_open) ≡ nexus_online
unfolding status set_nexus_state
online_of n a = rw (all_open n.children a) refl

-- If `try_open_children` succeeds on a nexus in its Init state, then all of its children are open, it
-- has as many as before and at least one, and when SPDK registers it, its status is Online.
pub try_open_children-status :
    (buf_align : ℕ → ℕ) (d : Devices) (n n' : Nexus)
    → n.state ≡ nexus_init
    → try_open_children buf_align d n ≡ some (n', ok tt)
    → (All IsOpen n'.children)
      × ((length n'.children ≡ length n.children)
          × ((0 < length n.children)
              × ((n'' : Nexus) × ((register d (ok tt) n' ≡ some (n'', ok tt))
                    × (status n'' ≡ nexus_online)))))
unfolding try_open_children
try_open_children-status b d n n' init e = elim (Option-cases (bdevs n.children)) [
  | inl p ↦ absurd (ground (arith, rw (p, try_open_children) at e))
  | inr (bs, p) ↦
      let (o, l) = after_devices b d n n' bs p (rw (p, try_open_children) at e) in
      let s : n'.state ≡ nexus_init = o.state ∙ init in
      (
        o.open_,
        (o.count, (l, (set_nexus_state n' nexus_open, (registered d n' s, online_of n' o.open_)))),
      )
]
