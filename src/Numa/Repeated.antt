-- ===== src/Numa/Repeated.antt =====
-- A resource that only the node reports, requested by two containers (filter.go).
use flex_gpu_scheduler.Prelude.{
  ℕ, zero, suc, ◌≡◌, refl, ap, ◌∙◌, ◌==◌, pos, ◌<ℤ◌, true, false, String, Map, lookup,
  lookup-insert, eq_iff, value_or, some, List, [], ◌∷◌, Ordering, arith, inl, inr, Bool-cases,
  Option-cases, returns,
}
use flex_gpu_scheduler.Prelude.Int.{pos_part, neg_part, compare_ℤ, -ℤ_parts}
use flex_gpu_scheduler.Api.{Vendor}
use flex_gpu_scheduler.Numa.Filter.{
  BitMasks, Names, NumaNode, guaranteed, is_numa_node_suitable, subtract_requests,
  subtract_from_numa, resources_available_in_any_numa_nodes, align_containers,
}
use flex_gpu_scheduler.Numa.Fitting.{IsNumbered, has_entry, suits, fits_all}
use flex_gpu_scheduler.Numa.Aligned.{
  resources_available_in_any_numa_nodes-fits_all, subtract_from_numa-IsNumbered,
}

module _ (v : Vendor) (names : Names) (masks : BitMasks) (node_resources : Map v.Quantity)
    (resource : String) (quantity : v.Quantity) where
  open v use {
    Quantity, amount-zero_value, sub, zero_value, amount, cmp, cmp-amount, amount-sub, is_zero,
  }

  -- Nothing less what is requested is less than what is requested.
  sub-lt : pos 0 <ℤ amount quantity → cmp (sub zero_value quantity) quantity ≡ Ordering.lt
  sub-lt some_amount =
      let law = cmp-amount (sub zero_value quantity) quantity in
      let difference = amount-sub zero_value quantity in
      let parts = -ℤ_parts (amount zero_value) (amount quantity) in
      let nothing = ap pos_part amount-zero_value in
      let no_debt = ap neg_part amount-zero_value in
      law ∙ ap (λ z. compare_ℤ z (amount quantity)) difference ∙ ground arith

  -- After the request is taken from a NUMA node, the only entry for the resource is one that does not
  -- suit.
  suits-subtract :
      (nodes : List (NumaNode Quantity)) (k j : ℕ)
      → cmp (sub zero_value quantity) quantity ≡ Ordering.lt
      → has_entry v names masks guaranteed resource nodes ≡ false
      → suits v names masks guaranteed j resource quantity
          (subtract_from_numa v names nodes k ((resource, quantity) ∷ []))
        ≡ false
  unfolding subtract_from_numa subtract_requests is_numa_node_suitable
  suits-subtract [] k j low e = refl
  suits-subtract (node ∷ nodes) k j low e = elim (Option-cases (lookup resource node.resources)) [
    | inr (q, there) ↦ ground arith
    | inl missing ↦
        let later = suits-subtract nodes k j low (ground arith) in
        let own = (eq_iff resource resource).1 refl in
        let put = lookup-insert resource resource (sub zero_value quantity) node.resources in
        elim (Bool-cases (node.numa_id == k)) [
          | inl same ↦ ground arith
          | inr differ ↦ ground arith
        ]
  ]

  has_entry-subtract :
      (node : NumaNode Quantity) (nodes : List (NumaNode Quantity))
      → node.numa_id ≡ 0
      → has_entry v names masks guaranteed resource
          (subtract_from_numa v names (node ∷ nodes) 0 ((resource, quantity) ∷ []))
        ≡ true
  unfolding subtract_from_numa subtract_requests
  has_entry-subtract node nodes first =
      let own = (eq_iff resource resource).1 refl in
      let put =
        lookup-insert resource resource
          (sub (value_or zero_value (lookup resource node.resources)) quantity) node.resources in
      let same : (node.numa_id == 0) ≡ true = ground arith in ground arith

  -- The resource is one that the node reports and no NUMA node has, and some of it is requested.
  pub record IsUnaligned (nodes : List (NumaNode Quantity)) : Type 0 where
    pub numbered : IsNumbered v names masks guaranteed nodes
    pub no_entry : has_entry v names masks guaranteed resource nodes ≡ false
    pub foreign : names.is_native_resource resource ≡ false
    pub reported : (q : Quantity) × (lookup resource node_resources ≡ some q)
    pub nonzero : is_zero quantity ≡ false
    pub some_amount : pos 0 <ℤ amount quantity

  first_call :
      (nodes : List (NumaNode Quantity))
      → IsUnaligned nodes
      → resources_available_in_any_numa_nodes v names masks nodes
          ((resource, quantity) ∷ [])
          guaranteed
          node_resources
        ≡ returns (0, true)
  first_call nodes u =
      let (q, there) = u.reported in
      let no_entry = u.no_entry in
      let foreign = u.foreign in
      let nonzero = u.nonzero in
      let all : (j : ℕ)
          → fits_all v names masks guaranteed nodes node_resources j ((resource, quantity) ∷ [])
            ≡ true =
        λ j. ground arith in
      elim (resources_available_in_any_numa_nodes-fits_all v names masks guaranteed node_resources
        nodes ((resource, quantity) ∷ []) u.numbered) [
          | inl (call, none_fits) ↦ cc (none_fits 0 (omega arith), all 0)
          | inr (zero, call, small, fitting, lower) ↦ call
          | inr (suc k, call, small, fitting, lower) ↦ cc (lower 0 (omega arith), all 0)
        ]

  second_call :
      (node : NumaNode Quantity) (nodes : List (NumaNode Quantity))
      → IsUnaligned (node ∷ nodes)
      → node.numa_id ≡ 0
      → (k : ℕ) × (resources_available_in_any_numa_nodes v names masks
            (subtract_from_numa v names (node ∷ nodes) 0 ((resource, quantity) ∷ []))
            ((resource, quantity) ∷ [])
            guaranteed
            node_resources
          ≡ returns (k, false))
  second_call node nodes u first =
      let taken = subtract_from_numa v names (node ∷ nodes) 0 ((resource, quantity) ∷ []) in
      let entry = has_entry-subtract node nodes first in
      let nonzero = u.nonzero in
      let none_fits : (j : ℕ)
          → fits_all v names masks guaranteed taken node_resources j ((resource, quantity) ∷ [])
            ≡ false =
        λ j.
          let bad = suits-subtract (node ∷ nodes) 0 j (sub-lt u.some_amount) u.no_entry in
          ground arith in
      let numbered =
        subtract_from_numa-IsNumbered v names masks guaranteed node_resources (node ∷ nodes) 0
          ((resource, quantity) ∷ []) u.numbered in
      elim (resources_available_in_any_numa_nodes-fits_all v names masks guaranteed node_resources
        taken ((resource, quantity) ∷ []) numbered) [
          | inl (call, h) ↦ (_, call)
          | inr (k, call, small, fitting, lower) ↦ cc (none_fits k, fitting)
        ]

  -- Where a node reports a resource that is not native and that no NUMA node has an entry for, and
  -- the first NUMA node has the ID zero: one container of a guaranteed pod, that requests a
  -- positive amount of that resource alone, can be aligned, and two such containers can not,
  -- however much the node has.
  pub align_containers-repeated :
      (node : NumaNode Quantity) (nodes : List (NumaNode Quantity))
      → IsUnaligned (node ∷ nodes)
      → node.numa_id ≡ 0
      → let request : Map Quantity = (resource, quantity) ∷ [] in
        (align_containers v names masks (node ∷ nodes) guaranteed node_resources (request ∷ [])
          ≡ returns true)
        × (align_containers v names masks
              (node ∷ nodes)
              guaranteed
              node_resources
              (request ∷ request ∷ [])
            ≡ returns false)
  unfolding align_containers
  align_containers-repeated node nodes u first =
      let one = first_call (node ∷ nodes) u in
      let (k, two) = second_call node nodes u first in (ground arith, ground arith)
