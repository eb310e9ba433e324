-- ===== src/Numa/Tests.antt =====
-- NodeResourceTopologyMatch at a concrete node, with bit masks as lists of bits.
use flex_gpu_scheduler.Prelude.{
  ℕ, zero, suc, ◌+◌, ◌<◌, ◌≡◌, ◌⊎◌, refl, ap, ◌∙◌, ltb, ◌==◌, ℤ, pos, Bool, true, false, ◌&&◌, ◌||◌,
  not, if◌then◌else◌, str_eq, Map, none, some, List, [], ◌∷◌, arith, returns,
}
use flex_gpu_scheduler.Prelude.Maps
use flex_gpu_scheduler.Samples.{sample_vendor}
use flex_gpu_scheduler.Resources.{Resource}
use flex_gpu_scheduler.Numa.Filter.{
  BitMasks, Names, NumaNode, Zone, Pod, guaranteed, highest_numa_id,
  resources_available_in_any_numa_nodes, align_containers, filter, new_policy_handler_map,
}
use flex_gpu_scheduler.Numa.Fitting.{fits_all}
use flex_gpu_scheduler.Numa.Aligned.{resources_available_in_any_numa_nodes-fits_all, filter_total}
use flex_gpu_scheduler.Numa.Repeated.{align_containers-repeated}

abbrev ones : ℕ → List Bool
ones zero = []
ones (suc n) = true ∷ ones n

abbrev bit : List Bool → ℕ → Bool
bit [] j = false
bit (b ∷ m) zero = b
bit (b ∷ m) (suc j) = bit m j

abbrev set_bit : List Bool → ℕ → List Bool
set_bit [] zero = true ∷ []
set_bit [] (suc i) = false ∷ set_bit [] i
set_bit (b ∷ m) zero = true ∷ m
set_bit (b ∷ m) (suc i) = b ∷ set_bit m i

abbrev meet : List Bool → List Bool → List Bool
meet [] n = []
meet (b ∷ m) [] = []
meet (b ∷ m) (c ∷ n) = (b && c) ∷ meet m n

abbrev has_none : List Bool → Bool
has_none [] = true
has_none (b ∷ m) = not b && has_none m

abbrev bits_from : ℕ → List Bool → List ℕ
bits_from n [] = []
bits_from n (true ∷ m) = n ∷ bits_from (suc n) m
bits_from n (false ∷ m) = bits_from (suc n) m

bit-ones : (n j : ℕ) → bit (ones n) j ≡ ltb j n
bit-ones zero j = ground arith
bit-ones (suc n) zero = ground arith
bit-ones (suc n) (suc j) = let rest = bit-ones n j in ground arith

bit-set_bit : (m : List Bool) (i j : ℕ) → bit (set_bit m i) j ≡ (i == j || bit m j)
bit-set_bit [] zero zero = ground arith
bit-set_bit [] zero (suc j) = ground arith
bit-set_bit [] (suc i) zero = ground arith
bit-set_bit [] (suc i) (suc j) = let rest = bit-set_bit [] i j in ground arith
bit-set_bit (b ∷ m) zero zero = ground arith
bit-set_bit (b ∷ m) zero (suc j) = ground arith
bit-set_bit (b ∷ m) (suc i) zero = ground arith
bit-set_bit (b ∷ m) (suc i) (suc j) = let rest = bit-set_bit m i j in ground arith

bit-meet : (m n : List Bool) (j : ℕ) → bit (meet m n) j ≡ (bit m j && bit n j)
bit-meet [] n j = ground arith
bit-meet (b ∷ m) [] j = ground arith
bit-meet (b ∷ m) (c ∷ n) zero = ground arith
bit-meet (b ∷ m) (c ∷ n) (suc j) = bit-meet m n j

bit-has_none : (m : List Bool) (j : ℕ) → has_none m ≡ true → bit m j ≡ false
bit-has_none [] j e = refl
bit-has_none (b ∷ m) zero e = ground arith
bit-has_none (b ∷ m) (suc j) e = bit-has_none m j (ground arith)

bit_lower :
    (m : List Bool) (k : ℕ)
    → ((j : ℕ) → suc j < k → bit m j ≡ false)
    → (j : ℕ) → j < k
    → bit (false ∷ m) j ≡ false
bit_lower m k lower zero h = refl
bit_lower m k lower (suc j) h = lower j h

bits_from_lowest :
    (n : ℕ) (m : List Bool)
    → has_none m ≡ false
    → (k : ℕ) × (rest : List ℕ) × (bits_from n m ≡ (n + k) ∷ rest)
      × (bit m k ≡ true)
      × ((j : ℕ) → j < k → bit m j ≡ false)
bits_from_lowest n [] e = cc
bits_from_lowest n (true ∷ m) e = (0, bits_from (suc n) m, ground arith, refl, λ j h. ground arith)
bits_from_lowest n (false ∷ m) e =
    let (k, rest, found, there, lower) = bits_from_lowest (suc n) m e in
    let below = bit_lower m (suc k) (λ j h. lower j (omega arith)) in
    let shift : suc n + k ≡ n + suc k = omega arith in
    (suc k, rest, found ∙ ap (λ i. i ∷ rest) shift, there, λ j h. below j h)

abbrev sample_masks : BitMasks
sample_masks = record {
  BitMask = List Bool;
  empty_mask = [];
  full_mask = ones 64;
  add_bit = set_bit;
  and_mask = meet;
  is_empty = has_none;
  get_bits = bits_from 0;
  is_set = bit;
  is_set-empty_mask = λ j. refl;
  is_set-full_mask = bit-ones 64;
  is_set-add_bit = λ m i j h. bit-set_bit m i j;
  is_set-and_mask = bit-meet;
  is_set-empty = bit-has_none;
  get_bits_lowest = λ m e.
      let (k, rest, found, there, lower) = bits_from_lowest 0 m e in
      let same : 0 + k ≡ k = omega arith in
      (k, rest, found ∙ ap (λ i. i ∷ rest) same, there, lower);
}

abbrev sample_names : Names
sample_names = record {
  is_huge_page_resource_name = λ s. false;
  is_native_resource = λ s. str_eq s "cpu" || str_eq s "memory";
  single_numa_node_pod_level = "pod";
  single_numa_node_container_level = "container";
  scan_numa_id = λ s.
      if str_eq s "node-0" then some (pos 0) else if str_eq s "node-1" then some (pos 1) else none;
}

-- The second NUMA node has the CPUs, and none has the NIC that the node reports.
abbrev sample_nodes : List (NumaNode ℤ)
sample_nodes =
    record { numa_id = 0; resources = ("cpu", pos 2) ∷ [] }
    ∷ record { numa_id = 1; resources = ("cpu", pos 8) ∷ [] }
    ∷ []

abbrev sample_zones : List (Zone ℤ)
sample_zones =
    record { zone_type = "Node"; name = "node-0"; resources = ("cpu", pos 2) ∷ [] }
    ∷ record { zone_type = "Node"; name = "node-1"; resources = ("cpu", pos 8) ∷ [] }
    ∷ []

abbrev reported : Map ℤ
reported = ("cpu", pos 10) ∷ ("nic", pos 4) ∷ []

resources_available_in_any_numa_nodes-fits_all_example :
    let request : Map ℤ = ("cpu", pos 4) ∷ [] in
    let call =
      resources_available_in_any_numa_nodes sample_vendor sample_names sample_masks sample_nodes
        request guaranteed reported in
    let fits = λ (j : ℕ).
      fits_all sample_vendor sample_names sample_masks guaranteed sample_nodes reported j request in
    ((call ≡ returns (highest_numa_id, false)) × ((j : ℕ) → j < 64 → fits j ≡ false))
    ⊎ ((k : ℕ) × (call ≡ returns (k, true))
        × (k < 64)
        × (fits k ≡ true)
        × ((j : ℕ) → j < k → fits j ≡ false))
resources_available_in_any_numa_nodes-fits_all_example =
    resources_available_in_any_numa_nodes-fits_all sample_vendor sample_names sample_masks
      guaranteed reported sample_nodes (("cpu", pos 4) ∷ []) (omega arith, (omega arith, tt))

abbrev sample_allocatable : Resource
sample_allocatable = record {
  milli_cpu = pos 10000;
  memory = pos 64;
  ephemeral_storage = pos 0;
  allowed_pod_number = pos 100;
  scalar_resources = [];
}

abbrev sample_pod : Pod ℤ
sample_pod = record {
  init_containers = (("cpu", pos 6) ∷ []) ∷ [];
  containers = (("cpu", pos 4) ∷ []) ∷ (("cpu", pos 4) ∷ []) ∷ [];
}

filter_total_example :
    (b : Bool) × (filter sample_vendor sample_names sample_masks
        (new_policy_handler_map sample_vendor sample_names sample_masks)
        sample_pod
        guaranteed
        (some ("container" ∷ [], sample_zones))
        sample_allocatable
      ≡ returns b)
filter_total_example =
    filter_total sample_vendor sample_names sample_masks guaranteed sample_pod
      (some ("container" ∷ [], sample_zones)) sample_allocatable

align_containers-repeated_example :
    let request : Map ℤ = ("nic", pos 1) ∷ [] in
    (align_containers sample_vendor sample_names sample_masks sample_nodes guaranteed reported
        (request ∷ [])
      ≡ returns true)
    × (align_containers sample_vendor sample_names sample_masks sample_nodes guaranteed reported
          (request ∷ request ∷ [])
        ≡ returns false)
unfolding Maps.lookup
align_containers-repeated_example =
    align_containers-repeated sample_vendor sample_names sample_masks reported "nic" (pos 1)
      (record { numa_id = 0; resources = ("cpu", pos 2) ∷ [] })
      (record { numa_id = 1; resources = ("cpu", pos 8) ∷ [] } ∷ [])
      (record {
        numbered = (omega arith, (omega arith, tt));
        no_entry = refl;
        foreign = refl;
        reported = (pos 4, refl);
        nonzero = refl;
        some_amount = omega arith;
      })
      refl
