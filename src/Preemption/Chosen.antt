-- ===== src/Preemption/Chosen.antt =====
-- Which pods the loops of SelectVictimsOnNode can make victims, in either plugin.
use mathlib.Core.List.{Mem, mem-cons, not-mem-nil}
use mathlib.Core.Logic.Or
use mathlib.Core.Logic.{∥∥₁_map}
use mathlib.Core.Option.{some-injective}
use flex_gpu_scheduler.Prelude.{
  ℕ, suc, ◌≡◌, refl, ap, subst, sym, Bool, true, false, if◌then◌else◌, Option, none, some, List, [],
  ◌∷◌, ◌++◌, All, arith, inl, inr, Bool-cases, Option-cases,
}
use flex_gpu_scheduler.Preemption.Budgets.{Pod}
use flex_gpu_scheduler.Preemption.DryRun.{Framework, Dry, remove_pod, collect, reprieve_all}

module _ {A : Type 0} where
  pub All-mem : (P : A → Type 0) (xs : List A) → ((a : A) → Mem a xs → P a) → All P xs
  All-mem P [] h = tt
  All-mem P (x ∷ xs) h =
      (h x (mem-cons.1 (Or.inl refl)), All-mem P xs (λ a m. h a (mem-cons.1 (Or.inr m))))

  pub mem-All :
      (P : A → Type 0) (xs : List A)
      → ((a : A) → IsProp (P a))
      → All P xs
      → (a : A) → Mem a xs
      → P a
  mem-All P [] prop h a m = absurd (not-mem-nil m)
  mem-All P (x ∷ xs) prop (h, hs) a m =
      Or.elim (prop a) (mem-cons.0 m) (λ e. subst P (sym e) h)
        (λ later. mem-All P xs prop hs a later)

  pub All-append : (P : A → Type 0) (xs ys : List A) → All P xs → All P ys → All P (xs ++ ys)
  All-append P [] ys p q = q
  All-append P (x ∷ xs) ys (p, ps) q = (p, All-append P xs ys ps q)

module _ (fw : Framework) where
  -- A loop keeps what each of its calls keeps of the victims.
  pub reprieve_all-All :
      (P : Pod → Type 0)
      (reprieve_pod : Pod → Dry fw × List Pod → Option (Bool × (Dry fw × List Pod)))
      → ((pod : Pod) (start end : Dry fw × List Pod) (fitting : Bool)
          → P pod
          → All P start.1
          → reprieve_pod pod start ≡ some (fitting, end)
          → All P end.1)
      → (pods : List Pod) (n : ℕ) (start end : Dry fw × List Pod) → All P pods
      → All P start.1
      → reprieve_all fw reprieve_pod pods start ≡ some (n, end)
      → All P end.1
  unfolding reprieve_all
  reprieve_all-All P reprieve_pod step [] n start end hs h e =
      let same : ◌≡◌ {A = Option (ℕ × (Dry fw × List Pod))} (some (0, start)) (some (n, end)) = e in
      subst (λ (x : ℕ × (Dry fw × List Pod)). All P x.1.1) (some-injective _ _ same) h
  reprieve_all-All P reprieve_pod step (pod ∷ pods) n start end (hp, hs) h e =
      elim (Option-cases (reprieve_pod pod start)) [
        | inl bad ↦ ground arith
        | inr ((fitting, mid), first) ↦
            elim (Option-cases (reprieve_all fw reprieve_pod pods mid)) [
              | inl bad ↦ ground arith
              | inr ((k, last), rest) ↦
                  let kept =
                    reprieve_all-All P reprieve_pod step pods k mid last hs
                      (step pod start mid fitting hp h first) rest in
                  let same : ◌≡◌ {A = Option (ℕ × (Dry fw × List Pod))}
                      (some (if fitting then k else suc k, last)) (some (n, end)) =
                    ground arith in
                  subst (λ (x : ℕ × (Dry fw × List Pod)). All P x.1.1) (some-injective _ _ same)
                    kept
            ]
      ]

  -- Pods are removed one after the other.
  abbrev pub remove_each : Pod → List Pod → Dry fw → Option (Dry fw)
  remove_each preemptor [] dry = some dry
  remove_each preemptor (pod ∷ pods) dry = elim (remove_pod fw preemptor pod dry) [
    | none ↦ none
    | some dry' ↦ remove_each preemptor pods dry'
  ]

  -- The loop leaves the dry run in which just its potential victims are removed.
  pub collect-remove_each :
      (test : Dry fw → Pod → Option Bool) (preemptor : Pod) (pods victims : List Pod)
      (dry end : Dry fw)
      → collect fw test preemptor pods dry ≡ some (victims, end)
      → remove_each preemptor victims dry ≡ some end
  unfolding collect
  collect-remove_each test preemptor [] victims dry end e =
      let same : ◌≡◌ {A = Option (List Pod × Dry fw)} (some ([], dry)) (some (victims, end)) = e in
      subst (λ (x : List Pod × Dry fw). remove_each preemptor x.0 dry ≡ some x.1)
        (some-injective _ _ same) refl
  collect-remove_each test preemptor (pod ∷ pods) victims dry end e =
      elim (Option-cases (test dry pod)) [
        | inl bad ↦ ground arith
        | inr (is_victim, tested) ↦ elim (Bool-cases is_victim) [
          | inr spared ↦ collect-remove_each test preemptor pods victims dry end (ground arith)
          | inl chosen ↦ elim (Option-cases (remove_pod fw preemptor pod dry)) [
            | inl bad ↦ ground arith
            | inr (dry', removed) ↦ elim (Option-cases (collect fw test preemptor pods dry')) [
              | inl bad ↦ ground arith
              | inr ((later, last), collected) ↦
                  let rest = collect-remove_each test preemptor pods later dry' last collected in
                  let all : remove_each preemptor (pod ∷ later) dry ≡ some last = ground arith in
                  let same : ◌≡◌ {A = Option (List Pod × Dry fw)} (some (pod ∷ later, last))
                      (some (victims, end)) =
                    ground arith in
                  subst (λ (x : List Pod × Dry fw). remove_each preemptor x.0 dry ≡ some x.1)
                    (some-injective _ _ same) all
            ]
          ]
        ]
      ]

  -- A pod of some pods passes the test where the loop over them comes to it: after the pods before
  -- it, in the dry run that their removals left.
  abbrev pub Passes : (Dry fw → Pod → Option Bool) → Pod → List Pod → Dry fw → Pod → Type 0
  Passes test preemptor pods start pod = ∥ (
      (before : List Pod) × (after : List Pod) × (removed : List Pod) × (dry : Dry fw) × (pods
        ≡ before ++ pod ∷ after)
      × (collect fw test preemptor before start ≡ some (removed, dry))
      × (test dry pod ≡ some true)) ∥₁

  Passes-spared :
      (test : Dry fw → Pod → Option Bool) (preemptor first : Pod) (pods : List Pod) (start : Dry fw)
      (pod : Pod)
      → test start first ≡ some false
      → Passes test preemptor pods start pod
      → Passes test preemptor (first ∷ pods) start pod
  unfolding collect
  Passes-spared test preemptor first pods start pod spared passes =
      ∥∥₁_map passes λ (before, after, removed, dry, split, reached, passed).
        (first ∷ before, after, removed, dry, ap (λ l. first ∷ l) split, ground arith, passed)

  Passes-removed :
      (test : Dry fw → Pod → Option Bool) (preemptor first : Pod) (pods : List Pod)
      (start next : Dry fw) (pod : Pod)
      → test start first ≡ some true
      → remove_pod fw preemptor first start ≡ some next
      → Passes test preemptor pods next pod
      → Passes test preemptor (first ∷ pods) start pod
  unfolding collect
  Passes-removed test preemptor first pods start next pod chosen gone passes =
      ∥∥₁_map passes λ (before, after, removed, dry, split, reached, passed). (
        first ∷ before,
        after,
        first ∷ removed,
        dry,
        ap (λ l. first ∷ l) split,
        ground arith,
        passed,
      )

  -- What is kept of the victims.
  abbrev IsCollected : (Dry fw → Pod → Option Bool) → Pod → List Pod → Dry fw → Pod → Type 0
  IsCollected test preemptor pods start p = Mem p pods × Passes test preemptor pods start p

  map-All : (P Q : Pod → Type 0) (xs : List Pod) → ((p : Pod) → P p → Q p) → All P xs → All Q xs
  map-All P Q [] f h = tt
  map-All P Q (x ∷ xs) f (h, hs) = (f x h, map-All P Q xs f hs)

  -- A potential victim is a pod of the node that passes.
  pub collect-Passes :
      (test : Dry fw → Pod → Option Bool) (preemptor : Pod) (pods victims : List Pod)
      (dry end : Dry fw)
      → collect fw test preemptor pods dry ≡ some (victims, end)
      → All (λ p. Mem p pods × Passes test preemptor pods dry p) victims
  unfolding collect
  collect-Passes test preemptor [] victims dry end e =
      let same : ◌≡◌ {A = Option (List Pod × Dry fw)} (some ([], dry)) (some (victims, end)) = e in
      subst (λ (x : List Pod × Dry fw). All (IsCollected test preemptor [] dry) x.0)
        (some-injective _ _ same) tt
  collect-Passes test preemptor (pod ∷ pods) victims dry end e =
      let P = IsCollected test preemptor (pod ∷ pods) dry in
      elim (Option-cases (test dry pod)) [
        | inl bad ↦ ground arith
        | inr (is_victim, tested) ↦ elim (Bool-cases is_victim) [
          | inr spared ↦
              let passed : test dry pod ≡ some false = ground arith in
              let later : collect fw test preemptor pods dry ≡ some (victims, end) = ground arith in
              map-All (IsCollected test preemptor pods dry) P victims
                (λ p (m, passes). (
                  mem-cons.1 (Or.inr m),
                  Passes-spared test preemptor pod pods dry p passed passes,
                ))
                (collect-Passes test preemptor pods victims dry end later)
          | inl chosen ↦ elim (Option-cases (remove_pod fw preemptor pod dry)) [
            | inl bad ↦ ground arith
            | inr (dry', removed) ↦ elim (Option-cases (collect fw test preemptor pods dry')) [
              | inl bad ↦ ground arith
              | inr ((later, last), collected) ↦
                  let passed : test dry pod ≡ some true = ground arith in
                  let rest =
                    map-All (IsCollected test preemptor pods dry') P later
                      (λ p (m, passes). (
                        mem-cons.1 (Or.inr m),
                        Passes-removed test preemptor pod pods dry dry' p passed removed passes,
                      ))
                      (collect-Passes test preemptor pods later dry' last collected) in
                  let same : ◌≡◌ {A = Option (List Pod × Dry fw)} (some (pod ∷ later, last))
                      (some (victims, end)) =
                    ground arith in
                  subst (λ (x : List Pod × Dry fw). All P x.0) (some-injective _ _ same)
                    ((mem-cons.1 (Or.inl refl), ∣ ([], pods, [], dry, refl, refl, passed) ∣₁), rest)
            ]
          ]
        ]
      ]
