-- ===== src/Dma/Gate/Linear.antt =====
-- The calls of all threads, in the order in which they take effect, are those of the stack.
use mathlib.Core.List.{map-append}
use target_syslibs.Base.{
  ℕ, suc, ◌+◌, ◌<◌, ◌≡◌, refl, sym, ap, ◌∙◌, none, some, true, List, [], ◌∷◌, ◌++◌, map, length,
  length-drop, drop, drop-all, drop-set, drop_of_get_elem?, get_elem?-set_self, set, lt→ltb, arith,
}
use target_syslibs.Base.Threads.{assign, tally, tally-zero, tally-assign}
use target_syslibs.Dma.Queue.Stack.{Stack, Request, take, give, Reply, taken, given, serve_stack}
use target_syslibs.Dma.Gate.{
  Shared, Pc, idle, Move, pop_call, pop_wait, pop_enter, pop_none, pop_more, pop_offset, pop_value,
  pop_advance, pop_leave, push_call, push_wait, push_enter, push_none, push_some, push_over,
  push_within, push_offset, push_retreat, push_slot, push_value, push_leave, pick, System, Reach,
  start, later,
}
use target_syslibs.Dma.Gate.Inv.{storing}
use target_syslibs.Dma.Gate.Effect.{Before}
use target_syslibs.Dma.Gate.Moves.{before, Reach-Inv}
use target_syslibs.Dma.Gate.Logs.{ThreadLog, Reach-ThreadLog}
use target_syslibs.Dma.Gate.Atomic.{effect, request, reply, stamp, effects, respond, stack_after}

-- The free buffers, while `gap` slots wait to be written.
abbrev free : ℕ → Shared → Stack
free gap m = drop (m.offset + gap) m.queue

-- What the accesses `es` do on the stack `s`.
record Acts (cap : ℕ) (s : Stack) (es : List (Request × Reply)) (t : Stack) : Type 0 where
  leaves : stack_after cap s (map request es) ≡ t
  replies : serve_stack cap s (map request es) ≡ map reply es

stack_after-append :
    (cap : ℕ) (s : Stack) (xs ys : List Request)
    → stack_after cap s (xs ++ ys) ≡ stack_after cap (stack_after cap s xs) ys
stack_after-append cap s [] ys = refl
stack_after-append cap s (q ∷ xs) ys = stack_after-append cap (respond cap s q).1 xs ys

serve_stack-append :
    (cap : ℕ) (s : Stack) (xs ys : List Request)
    → serve_stack cap s (xs ++ ys)
      ≡ serve_stack cap s xs ++ serve_stack cap (stack_after cap s xs) ys
unfolding serve_stack
serve_stack-append cap s [] ys = refl
serve_stack-append cap s (take ∷ xs) ys =
    ap (λ l. (respond cap s take).0 ∷ l) (serve_stack-append cap (respond cap s take).1 xs ys)
serve_stack-append cap s (give b ∷ xs) ys =
    ap (λ l. (respond cap s (give b)).0 ∷ l)
      (serve_stack-append cap (respond cap s (give b)).1 xs ys)

module _ {cnt : ℕ} where
  -- Nothing is taken or given.
  still : (q : List ℕ) (k k' : ℕ) → k' ≡ k → Acts cnt (drop k q) [] (drop k' q)
  unfolding serve_stack
  still q k k' e = record { leaves = ap (λ x. drop x q) (sym e); replies = refl }

  takes_none : (s t : Stack) → s ≡ [] → t ≡ [] → Acts cnt s ((take, taken none) ∷ []) t
  unfolding serve_stack
  takes_none s t e e' = rw (e, e') (record { leaves = refl; replies = refl })

  takes_top : (s t : Stack) (v : ℕ) → s ≡ v ∷ t → Acts cnt s ((take, taken (some v)) ∷ []) t
  unfolding serve_stack
  takes_top s t v e = rw e (record { leaves = refl; replies = refl })

  puts_top :
      (s t : Stack) (b : ℕ) → length s < cnt → t ≡ b ∷ s → Acts cnt s ((give b, given true) ∷ []) t
  unfolding serve_stack
  puts_top s t b room e = record {
    leaves = rw (stack_after, lt→ltb (length s) cnt room) (sym e);
    replies = rw (lt→ltb (length s) cnt room) refl;
  }

  Move-Acts :
      (m m' : Shared) (gap gap' : ℕ) {p p' : Pc} (mv : Move m p m' p')
      → Before cnt gap m p
      → gap' + storing p ≡ gap + storing p'
      → Acts cnt (free gap m) (effect mv) (free gap' m')
  Move-Acts m _ k k' pop_call v g = still m.queue _ _ (omega arith)
  Move-Acts m _ k k' (pop_wait _) v g = still m.queue _ _ (omega arith)
  Move-Acts m _ k k' (pop_enter _) v g = still m.queue _ _ (omega arith)
  Move-Acts m _ k k' (pop_none e) v g =
      takes_none _ _ (drop-all m.queue (m.offset + k) (omega (arith, v)))
        (drop-all m.queue (m.offset + k') (omega (arith, v)))
  Move-Acts m _ k k' (pop_more _) v g = still m.queue _ _ (omega arith)
  Move-Acts m _ k k' pop_offset v g = still m.queue _ _ (omega arith)
  Move-Acts m _ k k' (pop_value _) v g = still m.queue _ _ (omega arith)
  Move-Acts m _ k k' (pop_advance {o = o} {v = b}) v g = takes_top _ _ b (
      ap (λ x. drop x m.queue) {x = m.offset + k} {y = o} (omega (arith, v.fresh, v.mine refl))
      ∙ drop_of_get_elem? m.queue o b v.fresh.2
      ∙ ap (λ x. b ∷ drop x m.queue) {x = suc o} {y = o + 1 + k'} (omega (arith, v.mine refl)))
  Move-Acts m _ k k' (pop_leave _) v g = still m.queue _ _ (omega arith)
  Move-Acts m _ k k' (push_call _ _ _ _) v g = still m.queue _ _ (omega arith)
  Move-Acts m _ k k' (push_wait _) v g = still m.queue _ _ (omega arith)
  Move-Acts m _ k k' (push_enter _) v g = still m.queue _ _ (omega arith)
  Move-Acts m _ k k' (push_none e) v g = absurd (omega (arith, v.enough, v.mine refl))
  Move-Acts m _ k k' (push_some _) v g = still m.queue _ _ (omega arith)
  Move-Acts m _ k k' (push_over e) v g = absurd (omega (arith, v.in_range, v.same_cnt))
  Move-Acts m _ k k' (push_within _) v g = still m.queue _ _ (omega arith)
  Move-Acts m _ k k' push_offset v g = still m.queue _ _ (omega arith)
  Move-Acts m _ k k' push_retreat v g = still m.queue _ _ (omega (arith, v.fresh, v.mine refl))
  Move-Acts m _ k k' push_slot v g = still m.queue _ _ (omega arith)
  Move-Acts m _ k k' (push_value {b = b} {o = o}) v g =
      puts_top _ _ b (omega (arith, v, v.fresh, length-drop (m.offset + k) m.queue)) (
        ap (λ x. drop x (set m.queue o b)) {x = m.offset + k'} {y = o}
          (omega (arith, v.fresh, v.mine refl))
        ∙ drop_of_get_elem? (set m.queue o b) o b
            (get_elem?-set_self m.queue o b (omega (arith, v.slots, v.fresh)))
        ∙ ap (λ l. b ∷ l) (drop-set m.queue o b)
        ∙ ap (λ x. b ∷ drop x m.queue) {x = suc o} {y = m.offset + k}
            (omega (arith, v.fresh, v.mine refl)))
  Move-Acts m _ k k' (push_leave _) v g = still m.queue _ _ (omega arith)

  -- One log after another.
  Acts-append :
      {s t u : Stack} (es fs : List (Request × Reply))
      → Acts cnt s es t
      → Acts cnt t fs u
      → Acts cnt s (es ++ fs) u
  Acts-append {s} es fs a b = record {
    leaves =
        ap (stack_after cnt s) (map-append request es fs)
        ∙ stack_after-append cnt s (map request es) (map request fs)
        ∙ ap (λ x. stack_after cnt x (map request fs)) a.leaves
        ∙ b.leaves;
    replies =
        ap (serve_stack cnt s) (map-append request es fs)
        ∙ serve_stack-append cnt s (map request es) (map request fs)
        ∙ ap (λ x. x ++ serve_stack cnt (stack_after cnt s (map request es)) (map request fs))
            a.replies
        ∙ ap (λ x. map reply es ++ serve_stack cnt x (map request fs)) a.leaves
        ∙ ap (λ x. map reply es ++ x) b.replies
        ∙ sym (map-append reply es fs);
  }

-- The calls that have taken effect, in this order, without the numbers of their threads.
abbrev pub history :
    {n cnt : ℕ} {bufs : List ℕ} {s : System} → Reach n cnt bufs s → List (Request × Reply)
history r = map (λ e. e.1) (effects r)

history-step :
    (log : List (ℕ × (Request × Reply))) (i : ℕ) (es : List (Request × Reply))
    → map (λ e. e.1) (log ++ stamp i es) ≡ map (λ e. e.1) log ++ es
history-step [] i [] = refl
history-step [] i (e ∷ es) = ap (λ l. e ∷ l) (history-step [] i es)
history-step (x ∷ log) i es = ap (λ l. x.1 ∷ l) (history-step log i es)

Reach-Acts :
    {n cnt : ℕ} {bufs : List ℕ} {s : System}
    → length bufs ≡ cnt
    → (r : Reach n cnt bufs s) → Acts cnt bufs (history r) (free (tally storing n s.pc) s.mem)
unfolding serve_stack
Reach-Acts {n} {bufs} e start = record {
  leaves =
      ap (λ k. drop k bufs) {x = 0}
        (omega (arith, tally-zero storing n (λ _. idle []) (λ _. refl)));
  replies = refl;
}
Reach-Acts {n} {cnt} {bufs} e (later {s} r (pick i {m} {p} lt mv)) =
    rw (history-step (effects r) i (effect mv)) (
      Acts-append (history r) (effect mv) (Reach-Acts e r) (
        Move-Acts s.mem m (tally storing n s.pc) (tally storing n (assign s.pc i p)) mv
          (rw (Reach-Inv e r).gap_is (before (Reach-Inv e r) i lt))
          (tally-assign storing n s.pc i p lt)))

-- Whatever the interleaving, on a pool that starts with its `cnt` buffers free the calls that have
-- taken effect are, in this order, calls of one stack of at most `cnt` buffers: it gives their
-- replies and leaves the free buffers. Each thread's calls take effect in the order in which it makes
-- them, each before it returns, and it gets their replies.
pub linearizable :
    {n cnt : ℕ} {bufs : List ℕ} {s : System}
    → length bufs ≡ cnt
    → (r : Reach n cnt bufs s)
    → (serve_stack cnt bufs (map request (history r)) ≡ map reply (history r))
      × (stack_after cnt bufs (map request (history r))
          ≡ drop (s.mem.offset + tally storing n s.pc) s.mem.queue)
      × ((i : ℕ) → ThreadLog r i)
linearizable e r = ((Reach-Acts e r).replies, (Reach-Acts e r).leaves, Reach-ThreadLog r)
