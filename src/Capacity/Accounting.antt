-- ===== src/Capacity/Accounting.antt =====
-- The books of a quota (pkg/capacityscheduling/elasticquota.go): what is used is what the pods in it
-- request.
use flex_gpu_scheduler.Prelude.{
  ◌≡◌, refl, sym, ap, ◌∙◌, subst, ℤ, pos, ◌+ℤ◌, ◌-ℤ◌, int_laws, str_eq, eq_iff, String, Map, lookup,
  lookup-insert, lookup-erase, insert, erase, none, some, [], ◌∷◌, arith, inl, inr, Bool-cases,
  Option-cases, if-true, if-false, +ℤ_assoc,
}
use flex_gpu_scheduler.Api.{Vendor}
use flex_gpu_scheduler.Resources.{Resource}
use flex_gpu_scheduler.PodGroups.{to_int64}
use flex_gpu_scheduler.Capacity.Quota.{
  Pod, Framework, ElasticQuotaInfo, compute_pod_resource_request, add_pod_if_not_present,
  delete_pod_if_present, reserve_resource, unreserve_resource,
}
use flex_gpu_scheduler.Capacity.Wrap.{IsInt64, to_int64-IsInt64, to_int64-add, to_int64-sub}
use flex_gpu_scheduler.Capacity.Dimensions.{
  Dimension, read, asked, read-reserve_resource, read-unreserve_resource,
}

-- No key is entered twice.
abbrev pub Distinct : Map {0} Unit → Type 0
Distinct [] = Unit
Distinct ((k, _) ∷ m) = (lookup k m ≡ none) × Distinct m

insert-Distinct :
    (k : String) (m : Map {0} Unit) → lookup k m ≡ none → Distinct m → Distinct (insert k tt m)
unfolding lookup insert
insert-Distinct k [] absent distinct = (refl, tt)
insert-Distinct k ((j, u) ∷ m) absent distinct =
    ground (arith, eq_iff k j, eq_iff j k, lookup-insert j k tt m, insert-Distinct k m)

erase-Distinct : (k : String) (m : Map {0} Unit) → Distinct m → Distinct (erase k m)
unfolding erase
erase-Distinct k [] distinct = tt
erase-Distinct k ((j, u) ∷ m) distinct =
    ground (arith, lookup-erase j k m, erase-Distinct k m distinct.1)

erase_absent : (k : String) (m : Map {0} Unit) → lookup k m ≡ none → erase k m ≡ m
unfolding lookup erase
erase_absent k [] absent = refl
erase_absent k ((j, u) ∷ m) absent = ground (arith, erase_absent k m)

-- Sums, regrouped.
add_sub : (a b c : ℤ) → a +ℤ (b -ℤ c) ≡ a +ℤ b -ℤ c
add_sub a b c = omega int_laws

same_sub : (t a : ℤ) → t ≡ a +ℤ t -ℤ a
same_sub t a = omega int_laws

-- `request_of` is what the pod with a key requests.
module _ (request_of : String → Resource) where
  abbrev pub total : Dimension → Map {0} Unit → ℤ
  total d [] = pos 0
  total d ((k, _) ∷ m) = asked d (request_of k) +ℤ total d m

  insert-total :
      (d : Dimension) (k : String) (m : Map {0} Unit)
      → lookup k m ≡ none
      → total d (insert k tt m) ≡ total d m +ℤ asked d (request_of k)
  unfolding lookup insert
  insert-total d k [] absent = omega int_laws
  insert-total d k ((j, u) ∷ m) absent = elim (Bool-cases (str_eq j k)) [
    | inl same ↦ ground arith
    | inr differ ↦
        let later = insert-total d k m (ground arith) in
        ap (total d) (if-false _ _ differ)
        ∙ ap (λ x. asked d (request_of j) +ℤ x) later
        ∙ sym (+ℤ_assoc (asked d (request_of j)) (total d m) (asked d (request_of k)))
  ]

  erase-total :
      (d : Dimension) (k : String) (m : Map {0} Unit)
      → Distinct m
      → lookup k m ≡ some tt
      → total d (erase k m) ≡ total d m -ℤ asked d (request_of k)
  unfolding lookup erase
  erase-total d k [] distinct there = cc
  erase-total d k ((j, u) ∷ m) distinct there = elim (Bool-cases (str_eq j k)) [
    | inl same ↦
        let key = (eq_iff j k).0 same in
        let gone : erase k m ≡ m = erase_absent k m (rw key at distinct.0) in
        ap (total d) (if-true _ _ same ∙ gone)
        ∙ same_sub (total d m) (asked d (request_of j))
        ∙ ap (λ x. asked d (request_of j) +ℤ total d m -ℤ asked d (request_of x)) key
    | inr differ ↦
        let later = erase-total d k m distinct.1 (ground arith) in
        ap (total d) (if-false _ _ differ)
        ∙ ap (λ x. asked d (request_of j) +ℤ x) later
        ∙ add_sub (asked d (request_of j)) (total d m) (asked d (request_of k))
  ]

  -- The set of keys has no key twice, and of every dimension the pods' requests are used, as an
  -- int64.
  abbrev pub IsAccounted : ElasticQuotaInfo → Type 0
  IsAccounted e = Distinct e.pods × ((d : Dimension) → read d e.used ≡ to_int64 (total d e.pods))

  module _ (v : Vendor) (fw : Framework v) where
    open v use {Quantity}
    open fw use {pod_key}

    -- A pod that has a key requests what is known of that key.
    abbrev pub IsKnown : Pod Quantity → Type 0
    IsKnown pod =
        (key : String)
        → pod_key pod ≡ some key
        → compute_pod_resource_request v fw pod ≡ request_of key

    reserved-read :
        (d : Dimension) (e : ElasticQuotaInfo) (key : String)
        → IsAccounted e
        → lookup key e.pods ≡ none
        → read d (reserve_resource v fw e.used (request_of key))
          ≡ to_int64 (total d (insert key tt e.pods))
    reserved-read d e key books absent =
        let small : IsInt64 (read d e.used) = rw (books.1 d) (to_int64-IsInt64 (total d e.pods)) in
        read-reserve_resource v fw d e.used (request_of key) small
        ∙ ap (λ x. to_int64 (x +ℤ asked d (request_of key))) (books.1 d)
        ∙ to_int64-add (total d e.pods) (asked d (request_of key))
        ∙ ap to_int64 (sym (insert-total d key e.pods absent))

    unreserved-read :
        (d : Dimension) (e : ElasticQuotaInfo) (key : String)
        → IsAccounted e
        → lookup key e.pods ≡ some tt
        → read d (unreserve_resource v fw e.used (request_of key))
          ≡ to_int64 (total d (erase key e.pods))
    unreserved-read d e key books there =
        let small : IsInt64 (read d e.used) = rw (books.1 d) (to_int64-IsInt64 (total d e.pods)) in
        read-unreserve_resource v fw d e.used (request_of key) small
        ∙ ap (λ x. to_int64 (x -ℤ asked d (request_of key))) (books.1 d)
        ∙ to_int64-sub (total d e.pods) (asked d (request_of key))
        ∙ ap to_int64 (sym (erase-total d key e.pods books.0 there))

    pub add_pod_if_not_present-IsAccounted :
        (e e' : ElasticQuotaInfo) (pod : Pod Quantity)
        → IsKnown pod
        → IsAccounted e
        → add_pod_if_not_present v fw e pod ≡ some e'
        → IsAccounted e'
    unfolding add_pod_if_not_present
    add_pod_if_not_present-IsAccounted e e' pod known books run =
        elim (Option-cases (pod_key pod)) [
          | inl keyless ↦ ground arith
          | inr (key, keyed) ↦ elim (Option-cases (lookup key e.pods)) [
            | inl absent ↦
                let same = known key keyed in
                let after : ElasticQuotaInfo = record e {
                  pods = insert key tt e.pods;
                  used = reserve_resource v fw e.used (request_of key);
                } in
                let is : after ≡ e' = ground arith in
                subst IsAccounted is (
                  insert-Distinct key e.pods absent books.0,
                  λ d. reserved-read d e key books absent,
                )
            | inr (_, there) ↦ let is : e ≡ e' = ground arith in subst IsAccounted is books
          ]
        ]

    pub delete_pod_if_present-IsAccounted :
        (e e' : ElasticQuotaInfo) (pod : Pod Quantity)
        → IsKnown pod
        → IsAccounted e
        → delete_pod_if_present v fw e pod ≡ some e'
        → IsAccounted e'
    unfolding delete_pod_if_present
    delete_pod_if_present-IsAccounted e e' pod known books run = elim (Option-cases (pod_key pod)) [
      | inl keyless ↦ ground arith
      | inr (key, keyed) ↦ elim (Option-cases (lookup key e.pods)) [
        | inl absent ↦ let is : e ≡ e' = ground arith in subst IsAccounted is books
        | inr (_, there) ↦
            let same = known key keyed in
            let after : ElasticQuotaInfo = record e {
              pods = erase key e.pods;
              used = unreserve_resource v fw e.used (request_of key);
            } in
            let is : after ≡ e' = ground arith in
            subst IsAccounted is
              (erase-Distinct key e.pods books.0, λ d. unreserved-read d e key books there)
      ]
    ]
