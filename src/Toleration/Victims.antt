-- ===== src/Toleration/Victims.antt =====
-- The victims that SelectVictimsOnNode chooses (preemption_toleration.go).
use mathlib.Core.List.{append-nil, append_assoc}
use mathlib.Core.Option.{some-injective}
use flex_gpu_scheduler.Prelude.{
  ℕ, suc, ◌+◌, length-append, ◌≡◌, refl, sym, ap, subst, ◌∙◌, Bool, true, false, if◌then◌else◌,
  Option, some, List, [], ◌∷◌, ◌++◌, All, length, arith, inl, inr, Bool-cases, Option-cases,
}
use flex_gpu_scheduler.Preemption.Budgets.{Pod, Selectors, Pdb, filter_pods_with_pdb_violation}
use flex_gpu_scheduler.Preemption.Within.{Interleaved, both_empty, from_left, from_right}
use flex_gpu_scheduler.Preemption.DryRun.{
  Framework, selected, Dry, fits, remove_pod, add_pod, reprieve_all,
}
use flex_gpu_scheduler.Preemption.Monotone.{Monotone}
use flex_gpu_scheduler.Toleration.Node.{reprieve_pod, reprieve_victims}

Interleaved-append :
    {xs ys zs us vs ws : List Pod}
    → Interleaved xs ys zs
    → Interleaved us vs ws
    → Interleaved (xs ++ us) (ys ++ vs) (zs ++ ws)
Interleaved-append both_empty i = i
Interleaved-append (from_left h) i = from_left (Interleaved-append h i)
Interleaved-append (from_right h) i = from_right (Interleaved-append h i)

module _ (fw : Framework) (preemptor : Pod) (m : Monotone fw preemptor) where
  open m use {
    Fuller, reflexive, transitive, fits-Fuller, add_pod-Fuller, remove_pod-add_pod, add_pod_fuller,
  }

  -- In an earlier dry run, with no more pods, the preemptor did not fit once the pod was back.
  abbrev pub WasNeeded : Dry fw → Pod → Type 0
  WasNeeded dry pod =
      (a : Dry fw) × (b : Dry fw) × Fuller a dry
      × (add_pod fw preemptor pod a ≡ some b)
      × (fits fw preemptor b ≡ false)

  All-needed :
      (a b : Dry fw) (pods : List Pod)
      → Fuller a b
      → All (WasNeeded a) pods
      → All (WasNeeded b) pods
  All-needed a b [] fuller h = tt
  All-needed a b (pod ∷ pods) fuller ((c, d, less, was, old), rest) =
      ((c, d, transitive c a b less fuller, was, old), All-needed a b pods fuller rest)

  All-append :
      (dry : Dry fw) (xs ys : List Pod)
      → All (WasNeeded dry) xs
      → All (WasNeeded dry) ys
      → All (WasNeeded dry) (xs ++ ys)
  All-append dry [] ys p q = q
  All-append dry (x ∷ xs) ys (p, ps) q = (p, All-append dry xs ys ps q)

  -- What is known after a call of reprievePod, or a loop of such calls on the pods.
  pub record Reprieved (pods : List Pod) (n : ℕ) (start end : Dry fw × List Pod) : Type 0 where
    victims : List Pod
    kept : List Pod
    appended : end.1 ≡ start.1 ++ victims
    split : Interleaved victims kept pods
    counted : length victims ≡ n
    fuller : Fuller start.0 end.0
    still_fits : fits fw preemptor start.0 ≡ true → fits fw preemptor end.0 ≡ true
    needed : All (WasNeeded end.0) victims

  reprieve_pod-Reprieved :
      (pod : Pod) (fitting : Bool) (start end : Dry fw × List Pod)
      → reprieve_pod fw preemptor pod start ≡ some (fitting, end)
      → Reprieved (pod ∷ []) (if fitting then 0 else 1) start end
  unfolding reprieve_pod
  reprieve_pod-Reprieved pod fitting start end e =
      elim (Option-cases (add_pod fw preemptor pod start.0)) [
        | inl bad ↦ ground arith
        | inr (dry1, added) ↦ elim (Bool-cases (fits fw preemptor dry1)) [
          | inl good ↦
              let same : ◌≡◌ {A = Option (Bool × (Dry fw × List Pod))}
                  (some (true, (dry1, start.1))) (some (fitting, end)) =
                ground arith in
              let as_kept : Reprieved (pod ∷ []) 0 start (dry1, start.1) = record {
                victims = [];
                kept = pod ∷ [];
                appended = sym (append-nil start.1);
                split = from_right both_empty;
                counted = refl;
                fuller = add_pod_fuller pod start.0 dry1 added;
                still_fits = λ old. good;
                needed = tt;
              } in
              subst (λ x. Reprieved (pod ∷ []) (if x.0 then 0 else 1) start x.1)
                (some-injective _ _ same) as_kept
          | inr bad ↦ elim (Option-cases (remove_pod fw preemptor pod dry1)) [
            | inl stuck ↦ ground arith
            | inr (dry2, removed) ↦
                let same : ◌≡◌ {A = Option (Bool × (Dry fw × List Pod))}
                    (some (false, (dry2, start.1 ++ pod ∷ []))) (some (fitting, end)) =
                  ground arith in
                let (fuller, emptier) = remove_pod-add_pod pod start.0 dry1 dry2 added removed in
                let as_victim : Reprieved (pod ∷ []) 1 start (dry2, start.1 ++ pod ∷ []) = record {
                  victims = pod ∷ [];
                  kept = [];
                  appended = refl;
                  split = from_left both_empty;
                  counted = refl;
                  fuller = fuller;
                  still_fits = fits-Fuller dry2 start.0 emptier;
                  needed = ((start.0, dry1, fuller, added, bad), tt);
                } in
                subst (λ x. Reprieved (pod ∷ []) (if x.0 then 0 else 1) start x.1)
                  (some-injective _ _ same) as_victim
          ]
        ]
      ]

  Reprieved-append :
      (xs ys : List Pod) (k n : ℕ) (a b c : Dry fw × List Pod)
      → Reprieved xs k a b
      → Reprieved ys n b c
      → Reprieved (xs ++ ys) (k + n) a c
  Reprieved-append xs ys k n a b c r q = record {
    victims = r.victims ++ q.victims;
    kept = r.kept ++ q.kept;
    appended =
        q.appended
        ∙ ap (λ (l : List Pod). l ++ q.victims) r.appended
        ∙ append_assoc a.1 r.victims q.victims;
    split = Interleaved-append r.split q.split;
    counted = length-append r.victims q.victims ∙ ground (arith, r.counted, q.counted);
    fuller = transitive a.0 b.0 c.0 r.fuller q.fuller;
    still_fits = λ h. q.still_fits (r.still_fits h);
    needed =
        All-append c.0 r.victims q.victims (All-needed b.0 c.0 r.victims q.fuller r.needed)
          q.needed;
  }

  reprieve_all-Reprieved :
      (pods : List Pod) (n : ℕ) (start end : Dry fw × List Pod)
      → reprieve_all fw (reprieve_pod fw preemptor) pods start ≡ some (n, end)
      → Reprieved pods n start end
  unfolding reprieve_all
  reprieve_all-Reprieved [] n start end e =
      let nothing : Reprieved [] 0 start start = record {
        victims = [];
        kept = [];
        appended = sym (append-nil start.1);
        split = both_empty;
        counted = refl;
        fuller = reflexive start.0;
        still_fits = λ h. h;
        needed = tt;
      } in
      subst (λ x. Reprieved [] x.0 start x.1) (some-injective _ _ e) nothing
  reprieve_all-Reprieved (pod ∷ pods) n start end e =
      elim (Option-cases (reprieve_pod fw preemptor pod start)) [
        | inl bad ↦ ground arith
        | inr ((fitting, mid), first) ↦
            elim (Option-cases (reprieve_all fw (reprieve_pod fw preemptor) pods mid)) [
              | inl bad ↦ ground arith
              | inr ((k, last), rest) ↦
                  let both =
                    Reprieved-append (pod ∷ []) pods (if fitting then 0 else 1) k start mid last
                      (reprieve_pod-Reprieved pod fitting start mid first)
                      (reprieve_all-Reprieved pods k mid last rest) in
                  let same : ◌≡◌ {A = Option (ℕ × (Dry fw × List Pod))}
                      (some (if fitting then k else suc k, last)) (some (n, end)) =
                    ground arith in
                  let number : (if fitting then 0 else 1) + k ≡ (if fitting then k else suc k) =
                    ground arith in
                  subst (λ x. Reprieved (pod ∷ pods) x.0 start x.1) (some-injective _ _ same)
                    (subst (λ i. Reprieved (pod ∷ pods) i start last) number both)
            ]
      ]

  -- The victims of both loops, the violating ones first.
  pub record Chosen (s : Selectors) (pdbs : List (Pdb s.LabelSelector))
      (potential_victims victims : List Pod) (n : ℕ) (dry end : Dry fw) : Type 0 where
    pub violating : List Pod
    pub others : List Pod
    pub kept_violating : List Pod
    pub kept_others : List Pod
    pub together : victims ≡ violating ++ others
    pub counted : length violating ≡ n
    pub split_violating :
        Interleaved violating kept_violating
          (filter_pods_with_pdb_violation s (fw.more_important_first potential_victims) pdbs).0
    pub split_others :
        Interleaved others kept_others
          (filter_pods_with_pdb_violation s (fw.more_important_first potential_victims) pdbs).1
    pub still_fits : fits fw preemptor dry ≡ true → fits fw preemptor end ≡ true
    pub needed : All (WasNeeded end) victims

  pub reprieve_victims-Chosen :
      (s : Selectors) (pdbs : List (Pdb s.LabelSelector)) (potential_victims victims : List Pod)
      (n : ℕ) (dry end : Dry fw)
      → reprieve_victims fw s pdbs preemptor potential_victims dry ≡ selected victims n end
      → Chosen s pdbs potential_victims victims n dry end
  unfolding reprieve_victims
  reprieve_victims-Chosen s pdbs potential_victims victims n dry end e =
      let groups =
        filter_pods_with_pdb_violation s (fw.more_important_first potential_victims) pdbs in
      elim (Option-cases (reprieve_all fw (reprieve_pod fw preemptor) groups.0 (dry, []))) [
        | inl bad ↦ ground arith
        | inr ((k, mid), first) ↦
            elim (Option-cases (reprieve_all fw (reprieve_pod fw preemptor) groups.1 mid)) [
              | inl bad ↦ ground arith
              | inr ((j, last), second) ↦
                  let r = reprieve_all-Reprieved groups.0 k (dry, []) mid first in
                  let q = reprieve_all-Reprieved groups.1 j mid last second in
                  let same : selected last.1 k last.0 ≡ selected victims n end = ground arith in
                  let victims_same : last.1 ≡ victims = cc same in
                  let n_same : k ≡ n = cc same in
                  let end_same : last.0 ≡ end = cc same in
                  let together : last.1 ≡ r.victims ++ q.victims =
                    q.appended ∙ ap (λ (l : List Pod). l ++ q.victims) r.appended in
                  let needed =
                    All-append last.0 r.victims q.victims
                      (All-needed mid.0 last.0 r.victims q.fuller r.needed) q.needed in
                  record {
                    violating = r.victims;
                    others = q.victims;
                    kept_violating = r.kept;
                    kept_others = q.kept;
                    together = sym victims_same ∙ together;
                    counted = r.counted ∙ n_same;
                    split_violating = r.split;
                    split_others = q.split;
                    still_fits = λ h.
                        subst (λ d. fits fw preemptor d ≡ true) end_same
                          (q.still_fits (r.still_fits h));
                    needed =
                        subst (λ d. All (WasNeeded d) victims) end_same
                          (subst (λ l. All (WasNeeded last.0) l) (sym together ∙ victims_same)
                            needed);
                  }
            ]
      ]
