-- ===== src/Resources.antt =====
-- framework.Resource, and its conversion to a list of quantities in pkg/util/resource.go.
pub mod Effective
pub mod Tests
use flex_gpu_scheduler.Prelude.{ℤ, Map, insert, lookup, none, some, Ordering, List, [], ◌∷◌}
use flex_gpu_scheduler.Api.{Vendor}

pub record Resource : Type 0 where
  pub milli_cpu : ℤ
  pub memory : ℤ
  pub ephemeral_storage : ℤ
  pub allowed_pod_number : ℤ
  pub scalar_resources : Map ℤ

module _ (v : Vendor) where
  open v use {Quantity, new_quantity, new_milli_quantity}

  -- The loop of ResourceList. The two formats of a quantity have the same value.
  unfoldable pub scalar_list : Map ℤ → Map Quantity → Map Quantity
  scalar_list [] result = result
  scalar_list ((name, quant) ∷ rest) result =
      scalar_list rest (insert name (new_quantity quant) result)

  -- ResourceList
  unfoldable pub resource_list : Resource → Map Quantity
  unfolding scalar_list
  resource_list r = scalar_list r.scalar_resources (
      ("cpu", new_milli_quantity r.milli_cpu)
      ∷ ("memory", new_quantity r.memory)
      ∷ ("pods", new_quantity r.allowed_pod_number)
      ∷ ("ephemeral-storage", new_quantity r.ephemeral_storage)
      ∷ [])

module _ (v : Vendor) where
  open v use {Quantity, add, cmp}

  -- The inner loop over an init container, and the last loop, of GetPodEffectiveRequest: an entry
  -- replaces a smaller one.
  unfoldable pub raise : Map Quantity → Map Quantity → Map Quantity
  raise [] result = result
  raise ((name, quantity) ∷ rest) result =
      let kept = raise rest result in
      let put = raise rest (insert name quantity result) in
      elim (lookup name result) [
        | none ↦ put
        | some q ↦ elim (cmp quantity q) [ Ordering.gt ↦ put | _ ↦ kept ]
      ]

  -- The inner loop over a container: an entry is added to what is there.
  unfoldable pub add_up : Map Quantity → Map Quantity → Map Quantity
  add_up [] result = result
  add_up ((name, quantity) ∷ rest) result = elim (lookup name result) [
    | none ↦ add_up rest (insert name quantity result)
    | some q ↦ add_up rest (insert name (add quantity q) result)
  ]

  unfoldable pub over_containers :
      (Map Quantity → Map Quantity → Map Quantity)
      → List (Map Quantity)
      → Map Quantity
      → Map Quantity
  over_containers step [] result = result
  over_containers step (requests ∷ rest) result = over_containers step rest (step requests result)

  -- GetPodEffectiveRequest, on the requests of the init containers and of the containers
  unfoldable pub get_pod_effective_request :
      List (Map Quantity) → List (Map Quantity) → Map Quantity
  get_pod_effective_request init_containers containers =
      raise (over_containers raise init_containers []) (over_containers add_up containers [])
