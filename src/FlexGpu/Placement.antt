-- ===== src/FlexGpu/Placement.antt =====
-- What a node's pods ask of its GPUs when a pod comes or goes, and what the annotation that Reserve
-- writes says.
use flex_gpu_scheduler.Prelude.{
  ℕ, suc, ◌+◌, ◌≡◌, ◌∙◌, refl, ap, pos, ◌+ℤ◌, ◌≤ℤ◌, int_laws, +ℤ-zero, Bool, true, false, ◌&&◌,
  ◌||◌, ◌==◌, ltb, String, if◌then◌else◌, insert, lookup-insert, eq_iff, some, List, [], ◌∷◌, ◌++◌,
  All, get_elem?, arith,
}
use flex_gpu_scheduler.Api.{Vendor, Pod}
use flex_gpu_scheduler.FlexGpu.Node.{
  gpu_index_annotation_key, gpu_resource_name, mem_resource_name, Gpu, pod_resource_limit,
}
use flex_gpu_scheduler.FlexGpu.Table.{
  mem_limit, has_gpu, has_mem, annotated, mem_on, gpu_on, used_on, monopolised, in_range, Table,
}
use flex_gpu_scheduler.FlexGpu.Rebuild.{all_in_range}

module _ (v : Vendor) where
  open v use {Quantity, amount, itoa, atoi-itoa}

  -- How many pods hold a GPU for themselves.
  abbrev pub holders : ℕ → List (Pod Quantity) → ℕ
  holders i [] = 0
  holders i (pod ∷ pods) = (if gpu_on v i pod then 1 else 0) + holders i pods

  pub holders-monopolised :
      (i : ℕ) (pods : List (Pod Quantity)) → monopolised v i pods ≡ false → holders i pods ≡ 0
  holders-monopolised i [] e = refl
  holders-monopolised i (pod ∷ pods) e = ground (arith, holders-monopolised i pods)

  module _ (i : ℕ) (pod : Pod Quantity) where
    pub used_on-append :
        (pods : List (Pod Quantity))
        → used_on v i (pods ++ pod ∷ []) ≡ used_on v i pods +ℤ mem_on v i pod
    used_on-append [] = +ℤ-zero (mem_on v i pod) ∙ omega int_laws
    used_on-append (p ∷ pods) = rw (used_on-append pods) (omega int_laws)

    pub monopolised-append :
        (pods : List (Pod Quantity))
        → monopolised v i (pods ++ pod ∷ []) ≡ (monopolised v i pods || gpu_on v i pod)
    monopolised-append [] = ground arith
    monopolised-append (p ∷ pods) = ground (arith, monopolised-append pods)

    pub holders-append :
        (pods : List (Pod Quantity))
        → holders i (pods ++ pod ∷ []) ≡ holders i pods + (if gpu_on v i pod then 1 else 0)
    holders-append [] = omega arith
    holders-append (p ∷ pods) = omega (arith, holders-append pods)

    -- Without one of the pods, less memory is in use and fewer pods hold the GPU.
    pub used_on-remove :
        (before after : List (Pod Quantity))
        → used_on v i (before ++ pod ∷ after) ≡ used_on v i (before ++ after) +ℤ mem_on v i pod
    used_on-remove [] after = omega int_laws
    used_on-remove (p ∷ before) after = rw (used_on-remove before after) (omega int_laws)

    pub holders-remove :
        (before after : List (Pod Quantity))
        → holders i (before ++ pod ∷ after)
          ≡ holders i (before ++ after) + (if gpu_on v i pod then 1 else 0)
    holders-remove [] after = omega arith
    holders-remove (p ∷ before) after = omega (arith, holders-remove before after)

    pub monopolised-remove :
        (before after : List (Pod Quantity))
        → monopolised v i (before ++ after) ≡ true
        → monopolised v i (before ++ pod ∷ after) ≡ true
    monopolised-remove [] after e = ground arith
    monopolised-remove (p ∷ before) after e = ground (arith, monopolised-remove before after)

  pub all_in_range-append :
      (n : ℕ) (pod : Pod Quantity) (pods : List (Pod Quantity))
      → all_in_range v n pods ≡ true
      → in_range v n pod ≡ true
      → all_in_range v n (pods ++ pod ∷ []) ≡ true
  all_in_range-append n pod [] e f = ground arith
  all_in_range-append n pod (p ∷ pods) e f = ground (arith, all_in_range-append n pod pods)

  pub all_in_range-remove :
      (n : ℕ) (pod : Pod Quantity) (before after : List (Pod Quantity))
      → all_in_range v n (before ++ pod ∷ after) ≡ true
      → all_in_range v n (before ++ after) ≡ true
  all_in_range-remove n pod [] after e = ground arith
  all_in_range-remove n pod (p ∷ before) after e =
      ground (arith, all_in_range-remove n pod before after)

  abbrev pub NonnegLimits : List (Pod Quantity) → Type 0
  NonnegLimits = All λ pod. pos 0 ≤ℤ mem_limit v pod

  pub NonnegLimits-append :
      (pod : Pod Quantity) (pods : List (Pod Quantity))
      → NonnegLimits pods
      → pos 0 ≤ℤ mem_limit v pod
      → NonnegLimits (pods ++ pod ∷ [])
  NonnegLimits-append pod [] a h = (h, tt)
  NonnegLimits-append pod (p ∷ pods) a h = (a.0, NonnegLimits-append pod pods a.1 h)

  pub NonnegLimits-remove :
      (pod : Pod Quantity) (before after : List (Pod Quantity))
      → NonnegLimits (before ++ pod ∷ after)
      → NonnegLimits (before ++ after) × (pos 0 ≤ℤ mem_limit v pod)
  NonnegLimits-remove pod [] after a = (a.1, a.0)
  NonnegLimits-remove pod (p ∷ before) after a =
      let (rest, h) = NonnegLimits-remove pod before after a.1 in ((a.0, rest), h)

  pub mem_on-nonneg :
      (i : ℕ) (pod : Pod Quantity) → pos 0 ≤ℤ mem_limit v pod → pos 0 ≤ℤ mem_on v i pod
  mem_on-nonneg i pod h = ground arith

  pub used_on-nonneg :
      (i : ℕ) (pods : List (Pod Quantity)) → NonnegLimits pods → pos 0 ≤ℤ used_on v i pods
  used_on-nonneg i [] a = omega arith
  used_on-nonneg i (pod ∷ pods) a =
      omega (int_laws, mem_on-nonneg i pod a.0, used_on-nonneg i pods a.1)

  All-get_elem? :
      (P : Gpu Quantity → Type 0) (us : List (Gpu Quantity))
      → ((i : ℕ) (u : Gpu Quantity) → get_elem? us i ≡ some u → P u)
      → All P us
  All-get_elem? P [] h = tt
  All-get_elem? P (u ∷ us) h = (h 0 u refl, All-get_elem? P us (λ i w e. h (suc i) w e))

  pub Table-nonneg :
      (pods : List (Pod Quantity)) (mono : ℕ → Bool) (us : List (Gpu Quantity))
      → NonnegLimits pods
      → Table v (λ i. used_on v i pods) mono us
      → All (λ u. pos 0 ≤ℤ amount u.used_memory) us
  Table-nonneg pods mono us a t =
      All-get_elem? _ us (λ i u e. rw ((t i u e).1) (used_on-nonneg i pods a))

  -- The pod with the annotation that Reserve writes.
  abbrev pub annotated_pod : ℕ → Pod Quantity → Pod Quantity
  annotated_pod i pod = record pod {
    annotations = insert gpu_index_annotation_key (itoa i) pod.annotations;
  }

  pub annotated-annotated_pod :
      (i : ℕ) (pod : Pod Quantity) → annotated v (annotated_pod i pod) ≡ some (pos i)
  annotated-annotated_pod i pod = ground (
    arith,
    lookup-insert gpu_index_annotation_key gpu_index_annotation_key (itoa i) pod.annotations,
    eq_iff gpu_index_annotation_key gpu_index_annotation_key,
    atoi-itoa i,
  )

  module _ (i : ℕ) (pod : Pod Quantity) where
    limits-annotated_pod :
        (name : String)
        → pod_resource_limit v name (annotated_pod i pod) ≡ pod_resource_limit v name pod
    unfolding pod_resource_limit
    limits-annotated_pod name = refl

    pub mem_limit-annotated_pod : mem_limit v (annotated_pod i pod) ≡ mem_limit v pod
    mem_limit-annotated_pod =
        ap (λ (r : Quantity × Bool). amount r.0) (limits-annotated_pod mem_resource_name)

    pub mem_on-annotated_pod :
        (j : ℕ)
        → mem_on v j (annotated_pod i pod)
          ≡ (if has_mem v pod && (i == j) then mem_limit v pod else pos 0)
    mem_on-annotated_pod j =
        ground (arith, annotated-annotated_pod i pod, limits-annotated_pod mem_resource_name)

    pub gpu_on-annotated_pod :
        (j : ℕ) → gpu_on v j (annotated_pod i pod) ≡ (has_gpu v pod && (i == j))
    gpu_on-annotated_pod j =
        ground (arith, annotated-annotated_pod i pod, limits-annotated_pod gpu_resource_name)

    pub in_range-annotated_pod :
        (n : ℕ)
        → in_range v n (annotated_pod i pod)
          ≡ (if has_gpu v pod || has_mem v pod then ltb i n else true)
    in_range-annotated_pod n = ground (
      arith,
      annotated-annotated_pod i pod,
      limits-annotated_pod gpu_resource_name,
      limits-annotated_pod mem_resource_name,
    )
