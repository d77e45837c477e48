-- ===== src/Proc/Wakeups.antt =====
-- Whom `wakeup1` and `kill` of HW3/proc.c touch.
use operating_systems.Base.{
  ℕ, ◌≡◌, inl, inr, refl, ap, ◌∙◌, true, Option, none, some, get_elem?, arith, Bool-cases, ◌&&◌,
  get_elem?-map, get_elem?-modify_self,
}
use operating_systems.Proc.Types.{
  ProcState, sleeping, runnable, Chan, at_proc, at_addr, Proc, Kernel, is_sleeping, same_chan,
  set_state,
}
use operating_systems.Proc.Signal.{wake_one, wakeup1, wakeup, go_to_sleep}

same_chan→eq : (a b : Option Chan) → same_chan a b ≡ true → a ≡ b
same_chan→eq none none h = refl
same_chan→eq none (some d) h = absurd (ground arith)
same_chan→eq (some (at_proc i)) none h = absurd (ground arith)
same_chan→eq (some (at_addr i)) none h = absurd (ground arith)
same_chan→eq (some (at_proc i)) (some (at_proc j)) h = ap (λ n. some (at_proc n)) (ground arith)
same_chan→eq (some (at_proc i)) (some (at_addr j)) h = absurd (ground arith)
same_chan→eq (some (at_addr i)) (some (at_proc j)) h = absurd (ground arith)
same_chan→eq (some (at_addr i)) (some (at_addr j)) h = ap (λ n. some (at_addr n)) (ground arith)

same_chan_refl : (a : Option Chan) → same_chan a a ≡ true
same_chan_refl none = refl
same_chan_refl (some (at_proc i)) = ground arith
same_chan_refl (some (at_addr i)) = ground arith

-- The process sleeps on the channel `c`.
abbrev pub SleepsOn : Option Chan → Proc → Type 0
SleepsOn c p = (p.state ≡ sleeping) × (p.chan ≡ c)

wake_one_hit : (c : Option Chan) (p : Proc) → SleepsOn c p → wake_one c p ≡ set_state runnable p
wake_one_hit c p (s, e) = rw (s, e, same_chan_refl c)

wake_one_miss : (c : Option Chan) (p : Proc) → ¬ SleepsOn c p → wake_one c p ≡ p
wake_one_miss c p h = elim (Bool-cases (is_sleeping p.state && same_chan p.chan c)) [
  | inl t ↦ absurd (h (is_sleeping→eq p.state (ground arith), same_chan→eq p.chan c (ground arith)))
  | inr f ↦ rw f
]
  where
    is_sleeping→eq : (s : ProcState) → is_sleeping s ≡ true → s ≡ sleeping
    is_sleeping→eq s h = ground arith

-- `wakeup` makes exactly the processes that sleep on the channel runnable, and changes no other.
pub wakeup_exact :
    {M : Type 0} (c : Option Chan) (k : Kernel M) (i : ℕ) (p : Proc)
    → get_elem? k.procs i ≡ some p
    → (SleepsOn c p → get_elem? (wakeup c k).procs i ≡ some (set_state runnable p))
      × (¬ SleepsOn c p → get_elem? (wakeup c k).procs i ≡ some p)
unfolding wakeup wakeup1
wakeup_exact c k i p e = (
  λ s. get_elem?-map (wake_one c) k.procs i ∙ rw e (ap some (wake_one_hit c p s)),
  λ s. get_elem?-map (wake_one c) k.procs i ∙ rw e (ap some (wake_one_miss c p s)),
)

-- A process that went to sleep on a channel is runnable after the next wakeup of that channel, and
-- is otherwise the process that it was.
pub wakeup-go_to_sleep :
    {M : Type 0} (c : Option Chan) (k : Kernel M) (cur : ℕ) (p : Proc)
    → get_elem? k.procs cur ≡ some p
    → get_elem? (wakeup c (go_to_sleep cur c k)).procs cur
      ≡ some (record p { chan = c; state = runnable })
unfolding go_to_sleep
wakeup-go_to_sleep c k cur p e =
    (wakeup_exact c (go_to_sleep cur c k) cur (record p { chan = c; state = sleeping })
        (get_elem?-modify_self k.procs cur _ ∙ rw e)).0
      (refl, refl)
