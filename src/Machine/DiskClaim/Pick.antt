-- ===== src/Machine/DiskClaim/Pick.antt =====
-- Which persistent disk a slot gets, and the index of a new one.
use mathlib.Core.Logic.{inl, inr}
use cluster_api_provider_scv.Base.{
  ℕ, ◌+◌, ◌≤◌, Bool, true, false, none, some, List, [], ◌∷◌, ◌++◌, ◌≡◌, ◌≢◌, arith, All, ltb, leb,
  ◌==◌, if◌then◌else◌, map, Bool-cases, ap, ◌⊎◌,
}
use cluster_api_provider_scv.Api.Meta.{OwnerReference}
use cluster_api_provider_scv.Api.PersistentDisk.{ScvmmPersistentDisk, ScvmmPersistentDiskReference}
use cluster_api_provider_scv.Machine.DiskClaim.{
  index_of_name, with_index, insert_disk, sort_disks, is_owned, is_skipped, pick_disk,
}

-- The first disk is followed by none of a smaller index, and so on.
abbrev pub Sorted : List ScvmmPersistentDisk → Type 0
Sorted [] = Unit
Sorted (d ∷ ds) = All (λ e. d.index ≤ e.index) ds × Sorted ds

module _ (P : ScvmmPersistentDisk → Type 0) where
  All-insert_disk :
      (d : ScvmmPersistentDisk) (es : List ScvmmPersistentDisk)
      → P d
      → All P es
      → All P (insert_disk d es)
  unfolding insert_disk
  All-insert_disk d [] p h = (p, tt)
  All-insert_disk d (e ∷ es) p h = elim (Bool-cases (leb d.index e.index)) [
    | inl k ↦ rw k (p, h)
    | inr k ↦ rw k (h.0, All-insert_disk d es p h.1)
  ]

  of_if :
      {Q : Type 0} (b : Bool) (xs ys : List ScvmmPersistentDisk)
      → (All P xs → Q)
      → (All P ys → Q)
      → All P (if b then xs else ys)
      → Q
  of_if true xs ys f g h = f h
  of_if false xs ys f g h = g h

  of_insert_disk :
      (d : ScvmmPersistentDisk) (es : List ScvmmPersistentDisk)
      → All P (insert_disk d es)
      → P d × All P es
  unfolding insert_disk
  of_insert_disk d [] h = (h.0, tt)
  of_insert_disk d (e ∷ es) h =
      of_if (leb d.index e.index) _ _ (λ k. k)
        (λ k. let (p, q) = of_insert_disk d es k.1 in (p, (k.0, q))) h

  of_sort_disks : (ds : List ScvmmPersistentDisk) → All P (sort_disks ds) → All P ds
  unfolding sort_disks
  of_sort_disks [] h = tt
  of_sort_disks (d ∷ ds) h =
      let (p, q) = of_insert_disk d (sort_disks ds) h in (p, of_sort_disks ds q)

All-map :
    (P Q : ScvmmPersistentDisk → Type 0) (f : ScvmmPersistentDisk → ScvmmPersistentDisk)
    (ds : List ScvmmPersistentDisk)
    → ((d : ScvmmPersistentDisk) → P (f d) → Q d)
    → All P (map f ds)
    → All Q ds
All-map P Q f [] h k = tt
All-map P Q f (d ∷ ds) h k = (h d k.0, All-map P Q f ds h k.1)

All-le :
    (a b : ℕ) (ds : List ScvmmPersistentDisk)
    → a ≤ b
    → All (λ e. b ≤ e.index) ds
    → All (λ e. a ≤ e.index) ds
All-le a b [] h k = tt
All-le a b (d ∷ ds) h k = (omega (arith, h, k.0), All-le a b ds h k.1)

insert_disk-Sorted :
    (d : ScvmmPersistentDisk) (es : List ScvmmPersistentDisk)
    → Sorted es
    → Sorted (insert_disk d es)
unfolding insert_disk
insert_disk-Sorted d [] h = (tt, tt)
insert_disk-Sorted d (e ∷ es) h = elim (Bool-cases (leb d.index e.index)) [
  | inl k ↦
      let le : d.index ≤ e.index = ground arith in rw k ((le, All-le d.index e.index es le h.0), h)
  | inr k ↦
      let le : e.index ≤ d.index = ground arith in
      rw k (All-insert_disk _ d es le h.0, insert_disk-Sorted d es h.1)
]

pub sort_disks-Sorted : (ds : List ScvmmPersistentDisk) → Sorted (sort_disks ds)
unfolding sort_disks
sort_disks-Sorted [] = tt
sort_disks-Sorted (d ∷ ds) = insert_disk-Sorted d (sort_disks ds) (sort_disks-Sorted ds)

module _ (owner : OwnerReference) (seen : List ScvmmPersistentDiskReference) (max : ℕ) where
  pick_disk-above :
      (low k : ℕ) (ds : List ScvmmPersistentDisk)
      → All (λ e. low + 1 ≤ e.index) ds
      → pick_disk owner seen max low ds ≡ (none, k)
      → k ≡ low
  unfolding pick_disk
  pick_disk-above low k [] h p = ground arith
  pick_disk-above low k (d ∷ ds) h p = ground (arith, pick_disk-above low k ds h.1, h.0)

  abbrev after : ℕ → ScvmmPersistentDisk → ℕ
  after low d = if low == d.index then low + 1 else low

  pick_disk-skip :
      (low k : ℕ) (d : ScvmmPersistentDisk) (ds : List ScvmmPersistentDisk)
      → pick_disk owner seen max low (d ∷ ds) ≡ (none, k)
      → pick_disk owner seen max (after low d) ds ≡ (none, k)
  unfolding pick_disk
  pick_disk-skip low k d ds p = ground arith

  pick_disk-not_head :
      (low k : ℕ) (d : ScvmmPersistentDisk) (ds : List ScvmmPersistentDisk)
      → All (λ e. d.index ≤ e.index) ds
      → pick_disk owner seen max (after low d) ds ≡ (none, k)
      → after low d ≤ k
      → d.index ≢ k
  pick_disk-not_head low k d ds h p le = elim (Bool-cases (ltb low d.index)) [
    | inl b ↦
        let more =
          pick_disk-above (after low d) k ds (All-le (after low d + 1) d.index ds (ground arith) h)
            p in
        ground arith
    | inr b ↦ ground arith
  ]

  pick_disk-free :
      (low k : ℕ) (ds : List ScvmmPersistentDisk)
      → Sorted ds
      → pick_disk owner seen max low ds ≡ (none, k)
      → (low ≤ k) × All (λ e. e.index ≢ k) ds
  unfolding pick_disk
  pick_disk-free low k [] h p = (ground arith, tt)
  pick_disk-free low k (d ∷ ds) h p =
      let q = pick_disk-skip low k d ds p in
      let (le, free) = pick_disk-free (after low d) k ds h.1 q in
      (ground arith, (pick_disk-not_head low k d ds h.0 q le, free))

-- If pick_disk, from the lowest index 1 over the listed disks with their indexes in order, picks
-- none, the index that it gives is at least 1 and is the index of no listed disk.
pub pick_disk-new_index :
    (owner : OwnerReference) (seen : List ScvmmPersistentDiskReference) (max k : ℕ)
    (ds : List ScvmmPersistentDisk)
    → pick_disk owner seen max 1 (sort_disks (map with_index ds)) ≡ (none, k)
    → (1 ≤ k) × All (λ d. index_of_name d.meta.name ≢ k) ds
unfolding with_index
pick_disk-new_index owner seen max k ds p =
    let listed = map with_index ds in
    let (le, free) =
      pick_disk-free owner seen max 1 k (sort_disks listed) (sort_disks-Sorted listed) p in
    (le, All-map _ _ with_index ds (λ d h. h) (of_sort_disks _ listed free))

module _ (owner : OwnerReference) (seen : List ScvmmPersistentDiskReference) (max : ℕ) where
  -- A disk that may be claimed.
  abbrev pub IsClaimable : ScvmmPersistentDisk → Type 0
  IsClaimable d =
      (d.meta.deleting ≡ false) × ((max ≡ 0) ⊎ (d.index ≤ max)) × (is_owned owner seen d ≡ false)

  IsClaimable-not_skipped :
      (d : ScvmmPersistentDisk) → is_skipped owner seen max d ≡ false → IsClaimable d
  unfolding is_skipped
  IsClaimable-not_skipped d h = (
    ground arith,
    elim (Bool-cases (ltb 0 max)) [ inl b ↦ inr (ground arith) | inr b ↦ inl (ground arith) ],
    ground arith,
  )

  -- If pick_disk picks a disk, that disk is in the list, is not being deleted, has an index of at
  -- most max where max is not 0, and does not count as owned; every disk before it in the list is
  -- one that the loop passes over.
  pub pick_disk-IsClaimable :
      (low k : ℕ) (d : ScvmmPersistentDisk) (ds : List ScvmmPersistentDisk)
      → pick_disk owner seen max low ds ≡ (some d, k)
      → (passed : List ScvmmPersistentDisk) × (rest : List ScvmmPersistentDisk) × (ds
          ≡ passed ++ (d ∷ rest))
        × IsClaimable d
        × All (λ e. is_skipped owner seen max e ≡ true) passed
  unfolding pick_disk
  pick_disk-IsClaimable low k d [] p = absurd (ground arith)
  pick_disk-IsClaimable low k d (e ∷ es) p = elim (Bool-cases (is_skipped owner seen max e)) [
    | inl h ↦
        let (passed, rest, q, s, a) =
          pick_disk-IsClaimable (after owner seen max low e) k d es (ground arith) in
        (e ∷ passed, rest, ap (λ t. e ∷ t) q, s, (h, a))
    | inr h ↦
        let same : e ≡ d = ground arith in
        ([], es, ap (λ x. x ∷ es) same, IsClaimable-not_skipped d (rw (← same) h), tt)
  ]
