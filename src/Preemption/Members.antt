-- ===== src/Preemption/Members.antt =====
-- The members of two lists that are put together.
use mathlib.Core.List.{List, Mem, Mem-prop, mem-cons}
use mathlib.Core.Logic.Or
use flex_gpu_scheduler.Preemption.Within.{Interleaved, both_empty, from_left, from_right}

pub mem_left : {A : Type 0} {a : A} {xs ys zs : List A} → Interleaved xs ys zs → Mem a xs → Mem a zs
mem_left both_empty m = m
mem_left (from_left i) m =
    Or.elim Mem-prop (mem-cons.0 m) (λ e. mem-cons.1 (Or.inl e))
      (λ later. mem-cons.1 (Or.inr (mem_left i later)))
mem_left (from_right i) m = mem-cons.1 (Or.inr (mem_left i m))

pub mem_right :
    {A : Type 0} {a : A} {xs ys zs : List A} → Interleaved xs ys zs → Mem a ys → Mem a zs
mem_right both_empty m = m
mem_right (from_left i) m = mem-cons.1 (Or.inr (mem_right i m))
mem_right (from_right i) m =
    Or.elim Mem-prop (mem-cons.0 m) (λ e. mem-cons.1 (Or.inl e))
      (λ later. mem-cons.1 (Or.inr (mem_right i later)))
