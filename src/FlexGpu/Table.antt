-- ===== src/FlexGpu/Table.antt =====
-- The GPU table of gpu_node.go against the pods that it is built from: what each pod asks of each
-- GPU, summed up, with no table and no loop.
use flex_gpu_scheduler.Prelude.{
  ℕ, zero, suc, ◌+◌, ◌≡◌, ◌∙◌, ap, refl, ℤ, pos, negsuc, ◌+ℤ◌, +ℤ-zero, +ℤ_assoc, Bool, true, false,
  ◌&&◌, ◌||◌, if◌then◌else◌, ltb, ◌==◌, lookup, Option, none, some, List, [], ◌∷◌, length,
  get_elem?, modify, length-modify, modify-some, modify-none, get_elem?-modify, >>=-eq-returns,
  arith, returns, panics, inl, inr, Option-cases, Bool-cases,
}
use flex_gpu_scheduler.Api.{Vendor, Pod}
use flex_gpu_scheduler.FlexGpu.Node.{
  gpu_resource_name, mem_resource_name, gpu_index_annotation_key, Gpu, set_monopoly, add_memory,
  pod_resource_limit, fresh_gpus, at_index, place_at, place_pod, place_pods,
}

-- The index that an annotation names is the GPU's.
abbrev pub is_index : ℕ → ℤ → Bool
is_index i (pos j) = j == i
is_index i (negsuc j) = false

abbrev pub is_below : ℕ → ℤ → Bool
is_below n (pos j) = ltb j n
is_below n (negsuc j) = false

module _ (v : Vendor) where
  open v use {Quantity, amount, atoi, add, amount-add, new_quantity, amount-new_zero}

  abbrev pub mem_limit : Pod Quantity → ℤ
  mem_limit pod = amount (pod_resource_limit v mem_resource_name pod).0

  abbrev pub has_gpu : Pod Quantity → Bool
  has_gpu pod = (pod_resource_limit v gpu_resource_name pod).1

  abbrev pub has_mem : Pod Quantity → Bool
  has_mem pod = (pod_resource_limit v mem_resource_name pod).1

  -- The number in the pod's annotation.
  abbrev pub annotated : Pod Quantity → Option ℤ
  annotated pod = elim (lookup gpu_index_annotation_key pod.annotations) [
    | none ↦ none
    | some val ↦ atoi val
  ]

  abbrev pub placed_on : ℕ → Pod Quantity → Bool
  placed_on i pod = elim (annotated pod) [ none ↦ false | some z ↦ is_index i z ]

  -- The memory that a pod takes on a GPU, and whether it holds the GPU for itself.
  abbrev pub mem_on : ℕ → Pod Quantity → ℤ
  mem_on i pod = if has_mem pod && placed_on i pod then mem_limit pod else pos 0

  abbrev pub gpu_on : ℕ → Pod Quantity → Bool
  gpu_on i pod = has_gpu pod && placed_on i pod

  abbrev pub used_on : ℕ → List (Pod Quantity) → ℤ
  used_on i [] = pos 0
  used_on i (pod ∷ pods) = mem_on i pod +ℤ used_on i pods

  abbrev pub monopolised : ℕ → List (Pod Quantity) → Bool
  monopolised i [] = false
  monopolised i (pod ∷ pods) = gpu_on i pod || monopolised i pods

  -- The pod's index, if it counts at all, is that of one of `n` GPUs.
  abbrev pub in_range : ℕ → Pod Quantity → Bool
  in_range n pod =
      if has_gpu pod || has_mem pod
      then elim (annotated pod) [ none ↦ true | some z ↦ is_below n z ]
      else true

  -- Every GPU of the table has its position for its index, and the memory in use, and the
  -- monopoly, that two functions say.
  abbrev pub Table : (ℕ → ℤ) → (ℕ → Bool) → List (Gpu Quantity) → Type 0
  Table used mono us =
      (i : ℕ) (u : Gpu Quantity)
      → get_elem? us i ≡ some u
      → (u.index ≡ i) × (amount u.used_memory ≡ used i) × (u.monopoly ≡ mono i)

  pub fresh_gpus-Table :
      (start n i : ℕ) (u : Gpu Quantity)
      → get_elem? (fresh_gpus v start n) i ≡ some u
      → (u.index ≡ start + i) × (amount u.used_memory ≡ pos 0) × (u.monopoly ≡ false)
  unfolding fresh_gpus
  fresh_gpus-Table start zero i u e = cc
  fresh_gpus-Table start (suc n) zero u e = ground (arith, amount-new_zero)
  fresh_gpus-Table start (suc n) (suc i) u e = ground (arith, fresh_gpus-Table (suc start) n i u)

  pub length-fresh_gpus : (start n : ℕ) → length (fresh_gpus v start n) ≡ n
  unfolding fresh_gpus
  length-fresh_gpus start zero = refl
  length-fresh_gpus start (suc n) = ap suc (length-fresh_gpus (suc start) n)

  -- A write that does not panic changes the GPU with that index, and no other.
  at_index_lem :
      (us us' : List (Gpu Quantity)) (z : ℤ) (f : Gpu Quantity → Gpu Quantity)
      → at_index v us z f ≡ returns us'
      → (length us' ≡ length us)
        × ((i : ℕ) (u' : Gpu Quantity)
            → get_elem? us' i ≡ some u'
            → (u : Gpu Quantity) × (get_elem? us i ≡ some u)
              × (u' ≡ (if is_index i z then f u else u)))
  unfolding at_index
  at_index_lem us us' (negsuc j) f e = cc
  at_index_lem us us' (pos j) f e = elim (Option-cases (modify us j f)) [
    | inl bad ↦ ground arith
    | inr (ys, good) ↦
        let same : ys ≡ us' = ground arith in
        rw (← same) (length-modify us j f ys good, λ i u' g. get_elem?-modify us j i f ys u' good g)
  ]

  module _ (used : ℕ → ℤ) (mono : ℕ → Bool) (us us' : List (Gpu Quantity)) (z : ℤ) where
    mark-Table :
        (exist : Bool)
        → (if exist then at_index v us z (set_monopoly v) else returns us) ≡ returns us'
        → Table used mono us
        → (length us' ≡ length us) × Table used (λ i. mono i || (exist && is_index i z)) us'
    mark-Table false e t =
        let same : us ≡ us' = ground arith in rw (← same) (refl, λ i u g. ground (arith, t i u g))
    mark-Table true e t =
        let (len, from) = at_index_lem us us' z (set_monopoly v) e in
        (len, λ i u' g. let (u, old, new) = from i u' g in ground (arith, t i u old))

    charge-Table :
        (limit : Quantity) (exist : Bool)
        → (if exist then at_index v us z (add_memory v limit) else returns us) ≡ returns us'
        → Table used mono us
        → (length us' ≡ length us)
          × Table (λ i. used i +ℤ (if exist && is_index i z then amount limit else pos 0)) mono us'
    charge-Table limit false e t =
        let same : us ≡ us' = ground arith in
        rw (← same) (refl, λ i u g. ground (arith, t i u g, +ℤ-zero (used i)))
    charge-Table limit true e t =
        let (len, from) = at_index_lem us us' z (add_memory v limit) e in
        (
          len,
          λ i u' g.
              let (u, old, new) = from i u' g in
              ground (arith, t i u old, amount-add u.used_memory limit, +ℤ-zero (used i)),
        )

  -- A pod that is placed adds what it asks of each GPU.
  place_pod-Table :
      (used : ℕ → ℤ) (mono : ℕ → Bool) (us us' : List (Gpu Quantity)) (pod : Pod Quantity)
      → place_pod v us pod ≡ returns us'
      → Table used mono us
      → (length us' ≡ length us)
        × Table (λ i. used i +ℤ mem_on i pod) (λ i. mono i || gpu_on i pod) us'
  unfolding place_pod place_at
  place_pod-Table used mono us us' pod e t = elim (Bool-cases (has_gpu pod || has_mem pod)) [
    | inl limited ↦ elim (Option-cases (annotated pod)) [
      | inl missing ↦ unplaced (ground arith) (λ i. ground arith) (λ i. ground arith)
      | inr (z, found) ↦
          let (marked, first, second) =
            >>=-eq-returns (if has_gpu pod then at_index v us z (set_monopoly v) else returns us)
              (λ marked.
                if has_mem pod
                then at_index v marked z
                    (add_memory v (pod_resource_limit v mem_resource_name pod).0)
                else returns marked)
              {b = us'} (ground arith) in
          let (len, t1) = mark-Table used mono us marked z (has_gpu pod) first t in
          let (len', t2) = charge-Table used _ marked us' z _ (has_mem pod) second t1 in
          (len' ∙ len, λ i u g. ground (arith, t2 i u g))
    ]
    | inr free ↦ unplaced (ground arith) (λ i. ground arith) (λ i. ground arith)
  ]
    where
      unplaced :
          us ≡ us'
          → ((i : ℕ) → mem_on i pod ≡ pos 0)
          → ((i : ℕ) → gpu_on i pod ≡ false)
          → (length us' ≡ length us)
            × Table (λ i. used i +ℤ mem_on i pod) (λ i. mono i || gpu_on i pod) us'
      unplaced same p q =
          rw (← same) (refl, λ i u g. ground (arith, t i u g, p i, q i, +ℤ-zero (used i)))

  pub place_pods-Table :
      (pods : List (Pod Quantity)) (used : ℕ → ℤ) (mono : ℕ → Bool) (us us' : List (Gpu Quantity))
      → place_pods v us pods ≡ returns us'
      → Table used mono us
      → (length us' ≡ length us)
        × Table (λ i. used i +ℤ used_on i pods) (λ i. mono i || monopolised i pods) us'
  unfolding place_pods
  place_pods-Table [] used mono us us' e t =
      let same : us ≡ us' = ground arith in
      rw (← same) (refl, λ i u g. ground (arith, t i u g, +ℤ-zero (used i)))
  place_pods-Table (pod ∷ pods) used mono us us' e t =
      let (mid, first, rest) = >>=-eq-returns (place_pod v us pod) _ e in
      let (len, t1) = place_pod-Table used mono us mid pod first t in
      let (len', t2) = place_pods-Table pods _ _ mid us' rest t1 in
      (
        len' ∙ len,
        λ i u g. ground (arith, t2 i u g, +ℤ_assoc (used i) (mem_on i pod) (used_on i pods)),
      )

  -- Each write of a pod whose index is in range succeeds.
  at_index_total :
      (us : List (Gpu Quantity)) (z : ℤ) (f : Gpu Quantity → Gpu Quantity)
      → is_below (length us) z ≡ true
      → (us' : List (Gpu Quantity)) × (at_index v us z f ≡ returns us')
  unfolding at_index
  at_index_total us (negsuc j) f h = cc
  at_index_total us (pos j) f h =
      let (us', e) = modify-some us j f (ground arith) in (us', ground arith)

  at_index_out :
      (us : List (Gpu Quantity)) (z : ℤ) (f : Gpu Quantity → Gpu Quantity)
      → is_below (length us) z ≡ false
      → at_index v us z f ≡ panics
  unfolding at_index
  at_index_out us (negsuc j) f h = refl
  at_index_out us (pos j) f h = ground (arith, modify-none us j f)

  write_total :
      (exist : Bool) (us : List (Gpu Quantity)) (z : ℤ) (f : Gpu Quantity → Gpu Quantity)
      → is_below (length us) z ≡ true
      → (us' : List (Gpu Quantity)) × ((if exist then at_index v us z f else returns us)
          ≡ returns us')
        × (length us' ≡ length us)
  write_total false us z f h = (us, refl, refl)
  write_total true us z f h =
      let (us', e) = at_index_total us z f h in (us', e, (at_index_lem us us' z f e).0)

  pub place_pod_total :
      (us : List (Gpu Quantity)) (pod : Pod Quantity)
      → in_range (length us) pod ≡ true
      → (us' : List (Gpu Quantity)) × (place_pod v us pod ≡ returns us') × (length us' ≡ length us)
  unfolding place_pod place_at
  place_pod_total us pod h = elim (Bool-cases (has_gpu pod || has_mem pod)) [
    | inl limited ↦ elim (Option-cases (annotated pod)) [
      | inl missing ↦ (us, ground arith, refl)
      | inr (z, found) ↦
          let (mid, e, len) = write_total (has_gpu pod) us z (set_monopoly v) (ground arith) in
          let (us', e', len') =
            write_total (has_mem pod) mid z
              (add_memory v (pod_resource_limit v mem_resource_name pod).0)
              (rw len (ground arith)) in
          (us', ground arith, len' ∙ len)
    ]
    | inr free ↦ (us, ground arith, refl)
  ]

  pub place_pod_out :
      (us : List (Gpu Quantity)) (pod : Pod Quantity)
      → in_range (length us) pod ≡ false
      → place_pod v us pod ≡ panics
  unfolding place_pod place_at
  place_pod_out us pod h = elim (Option-cases (annotated pod)) [
    | inl missing ↦ ground arith
    | inr (z, found) ↦ ground (
      arith,
      at_index_out us z (set_monopoly v),
      at_index_out us z (add_memory v (pod_resource_limit v mem_resource_name pod).0),
    )
  ]
