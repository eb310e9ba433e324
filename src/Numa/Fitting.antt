-- ===== src/Numa/Fitting.antt =====
-- Which NUMA nodes resourcesAvailableInAnyNUMANodes leaves in its mask (filter.go).
use flex_gpu_scheduler.Prelude.{
  ℕ, ◌<◌, ◌≡◌, subst, ◌==◌, Bool, true, false, ◌&&◌, ◌||◌, not, String, Map, lookup, none, some,
  List, [], ◌∷◌, All, arith, inl, inr, Bool-cases, Option-cases,
}
use mathlib.Core.Option.{some-injective}
use flex_gpu_scheduler.Api.{Vendor}
use flex_gpu_scheduler.Numa.Filter.{
  BitMasks, Names, NumaNode, PodQos, is_numa_node_suitable, scan_nodes, restrict,
}

module _ (v : Vendor) (names : Names) (masks : BitMasks) (qos : PodQos) where
  open v use {Quantity, is_zero}
  open names use {is_native_resource}
  open masks use {
    BitMask, empty_mask, full_mask, add_bit, and_mask, is_empty, get_bits, is_set,
    is_set-empty_mask, is_set-add_bit, is_set-and_mask, is_set-empty,
  }

  -- Some NUMA node has an entry for a resource.
  abbrev pub has_entry : String → List (NumaNode Quantity) → Bool
  has_entry resource [] = false
  has_entry resource (node ∷ rest) = elim (lookup resource node.resources) [
    | none ↦ has_entry resource rest
    | some _ ↦ true
  ]

  -- Some NUMA node with an ID has an entry that is suitable.
  abbrev pub suits : ℕ → String → Quantity → List (NumaNode Quantity) → Bool
  suits j resource quantity [] = false
  suits j resource quantity (node ∷ rest) = elim (lookup resource node.resources) [
    | none ↦ suits j resource quantity rest
    | some numa_quantity ↦
        (node.numa_id == j && is_numa_node_suitable v names qos resource quantity numa_quantity)
        || suits j resource quantity rest
  ]

  -- The IDs are bits of a mask.
  abbrev pub IsNumbered : List (NumaNode Quantity) → Type 0
  IsNumbered = All λ (node : NumaNode Quantity). node.numa_id < 64

  scan_nodes-suits :
      (resource : String) (quantity : Quantity) (rest : List (NumaNode Quantity)) (found : Bool)
      (mask : BitMask) (j : ℕ)
      → IsNumbered rest
      → let r = scan_nodes v names masks qos resource quantity rest (found, mask) in
        (r.0 ≡ (found || has_entry resource rest))
        × (is_set r.1 j ≡ (is_set mask j || suits j resource quantity rest))
  unfolding scan_nodes
  scan_nodes-suits resource quantity [] found mask j h = (ground arith, ground arith)
  scan_nodes-suits resource quantity (node ∷ rest) found mask j (small, h) =
      elim (Option-cases (lookup resource node.resources)) [
        | inl missing ↦
            let later = scan_nodes-suits resource quantity rest found mask j h in
            (ground arith, ground arith)
        | inr (numa_quantity, there) ↦
            elim (Bool-cases (is_numa_node_suitable v names qos resource quantity numa_quantity)) [
              | inl good ↦
                  let later =
                    scan_nodes-suits resource quantity rest true (add_bit mask node.numa_id) j h in
                  let added = is_set-add_bit mask node.numa_id j small in
                  (ground arith, ground arith)
              | inr bad ↦
                  let later = scan_nodes-suits resource quantity rest true mask j h in
                  (ground arith, ground arith)
            ]
      ]

  module _ (nodes : List (NumaNode Quantity)) (node_resources : Map Quantity) where
    -- A requested resource puts no bar on a NUMA node: nothing is requested, or the node reports the
    -- resource and either no NUMA node has an entry for it, where it is not a native one, or this one
    -- suits.
    abbrev pub fits_one : ℕ → String → Quantity → Bool
    fits_one j resource quantity =
        is_zero quantity
        || (elim (lookup resource node_resources) [ none ↦ false | some _ ↦ true ]
            && ((not (has_entry resource nodes) && not (is_native_resource resource))
                || suits j resource quantity nodes))

    abbrev pub fits_all : ℕ → Map Quantity → Bool
    fits_all j [] = true
    fits_all j ((resource, quantity) ∷ rest) = fits_one j resource quantity && fits_all j rest

    pub restrict-some :
        (resources : Map Quantity) (mask mask' : BitMask) (j : ℕ)
        → IsNumbered nodes
        → restrict v names masks qos node_resources nodes resources mask ≡ some mask'
        → (is_set mask' j ≡ (is_set mask j && fits_all j resources))
          × (is_empty mask ≡ false → is_empty mask' ≡ false)
    unfolding restrict
    restrict-some [] mask mask' j numbered e =
        let same = some-injective _ _ e in
        subst
          (λ m.
            (is_set m j ≡ (is_set mask j && true)) × (is_empty mask ≡ false → is_empty m ≡ false))
          same (ground arith, λ h. h)
    restrict-some ((resource, quantity) ∷ rest) mask mask' j numbered e =
        let r = scan_nodes v names masks qos resource quantity nodes (false, empty_mask) in
        let (affinity, scanned) =
          scan_nodes-suits resource quantity nodes false empty_mask j numbered in
        let nothing = is_set-empty_mask j in
        elim (Bool-cases (is_zero quantity)) [
          | inl zero_amount ↦
              let (bits, full) = restrict-some rest mask mask' j numbered (ground arith) in
              (ground arith, full)
          | inr amount ↦ elim (Option-cases (lookup resource node_resources)) [
            | inl missing ↦ ground arith
            | inr (reported, there) ↦
                elim (Bool-cases (not r.0 && not (is_native_resource resource))) [
                  | inl free ↦
                      let (bits, full) = restrict-some rest mask mask' j numbered (ground arith) in
                      (ground arith, full)
                  | inr bound ↦
                      let meet = and_mask mask r.1 in
                      let both = is_set-and_mask mask r.1 j in
                      elim (Bool-cases (is_empty meet)) [
                        | inl empty ↦ ground arith
                        | inr some_left ↦
                            let (bits, full) =
                              restrict-some rest meet mask' j numbered (ground arith) in
                            (ground arith, λ h. full some_left)
                      ]
                ]
          ]
        ]

    pub restrict-none :
        (resources : Map Quantity) (mask : BitMask) (j : ℕ)
        → IsNumbered nodes
        → restrict v names masks qos node_resources nodes resources mask ≡ none
        → (is_set mask j && fits_all j resources) ≡ false
    unfolding restrict
    restrict-none [] mask j numbered e = cc
    restrict-none ((resource, quantity) ∷ rest) mask j numbered e =
        let r = scan_nodes v names masks qos resource quantity nodes (false, empty_mask) in
        let (affinity, scanned) =
          scan_nodes-suits resource quantity nodes false empty_mask j numbered in
        let nothing = is_set-empty_mask j in
        elim (Bool-cases (is_zero quantity)) [
          | inl zero_amount ↦
              let bits = restrict-none rest mask j numbered (ground arith) in ground arith
          | inr amount ↦ elim (Option-cases (lookup resource node_resources)) [
            | inl missing ↦ ground arith
            | inr (reported, there) ↦
                elim (Bool-cases (not r.0 && not (is_native_resource resource))) [
                  | inl free ↦
                      let bits = restrict-none rest mask j numbered (ground arith) in ground arith
                  | inr bound ↦
                      let meet = and_mask mask r.1 in
                      let both = is_set-and_mask mask r.1 j in
                      elim (Bool-cases (is_empty meet)) [
                        | inl empty ↦ let unset_bit = is_set-empty meet j empty in ground arith
                        | inr some_left ↦
                            let bits = restrict-none rest meet j numbered (ground arith) in
                            ground arith
                      ]
                ]
          ]
        ]
