-- ===== src/Threads/Mutex/Exclusion.antt =====
-- Mutual exclusion for the mutex of thread-worker.c.
use cs416_operating_systems.Base.{
  ℕ, Option, none, some, true, false, ◌≡◌, ◌≢◌, refl, sym, ap, ◌∙◌, inl, inr, eq_or_ne, Bool-cases,
  List, [], ◌∷◌, ◌++◌,
}
use cs416_operating_systems.Threads.Mutex.{
  Place, outside, trying, refused, asleep, taking, inside, releasing, waking, destroying, checking,
  Mutex, moved, worker_mutex_init, Step, call_lock, test_free, test_set, sleep, own, unlock_refused,
  call_unlock, clear, wake, none_waiting, destroy_locked, destroy_free, destroy_clear,
  destroy_waiting, destroyed, Reaches, start, next,
}
use cs416_operating_systems.Threads.Mutex.Holding.{
  in_section, Holder, ownerless, IsExclusive, not_both, some_injective, ownerless-in_section,
  moved_other, tested_before, was_inside,
}

-- A move of one thread to a place outside the section, with the owner as before.
module _ (m : Mutex) (w : IsExclusive m) (t : ℕ) (p : Place) (out : in_section p ≡ false)
    (ne : p ≢ inside) where
  held_before :
      (u : ℕ) (q : List ℕ)
      → Holder (record m { wait_queue = q; place = moved m t p }) u
      → Holder m u
  held_before u q (inl h) = inl (tested_before m t p in_section out u h).1
  held_before u q (inr h) = inr h

  not_ownerless : ownerless p ≡ false
  not_ownerless = elim (Bool-cases (ownerless p)) [
    | inl e ↦ absurd (not_both (ownerless-in_section p e) out)
    | inr e ↦ e
  ]

  leaves-IsExclusive : (q : List ℕ) → IsExclusive (record m { wait_queue = q; place = moved m t p })
  leaves-IsExclusive q = record {
    flag = λ u h. w.flag u (held_before u q h);
    alone = λ u v hu hv. w.alone u v (held_before u q hu) (held_before v q hv);
    owned = λ u e. w.owned u (was_inside m t p ne u e).1;
    unowned = λ u e. w.unowned u (tested_before m t p ownerless not_ownerless u e).1;
  }

-- A thread finds the flag clear and sets it.
module _ (m : Mutex) (w : IsExclusive m) (t : ℕ) (p : Place) (free : m.locked ≡ false)
    (ne : p ≢ inside) where
  no_owner : m.owner ≡ none
  no_owner = none_if (m.owner) (λ u e. not_both (w.flag u (inr e)) free)
    where
      none_if : (o : Option ℕ) → ((u : ℕ) → o ≡ some u → ⊥) → o ≡ none
      none_if none h = refl
      none_if (some u) h = absurd (h u refl)

  only_taker : (u : ℕ) → Holder (record m { locked = true; place = moved m t p }) u → u ≡ t
  only_taker u (inr e) = absurd (not_both (w.flag u (inr e)) free)
  only_taker u (inl h) = elim (eq_or_ne u t) [
    | inl e ↦ e
    | inr other ↦ absurd (not_both (w.flag u (inl (rw (moved_other m t u p other) at h))) free)
  ]

  takes-IsExclusive : IsExclusive (record m { locked = true; place = moved m t p })
  takes-IsExclusive = record {
    flag = λ u h. refl;
    alone = λ u v hu hv. only_taker u hu ∙ sym (only_taker v hv);
    owned = λ u e. w.owned u (was_inside m t p ne u e).1;
    unowned = λ u e. no_owner;
  }

-- A thread that has set the flag becomes the owner.
owns-IsExclusive :
    (m : Mutex) (t : ℕ)
    → IsExclusive m
    → m.place t ≡ taking
    → IsExclusive (record m { owner = some t; place = moved m t inside })
owns-IsExclusive m t w here = record {
  flag = λ u h. w.flag t mine;
  alone = λ u v hu hv. only u hu ∙ sym (only v hv);
  owned = λ u e. elim (eq_or_ne u t) [
    | inl q ↦ ap some (sym q)
    | inr ne ↦
        absurd (ne (w.alone u t (inr (w.owned u (sym (moved_other m t u inside ne) ∙ e))) mine))
  ];
  unowned = λ u e.
      let (ne, h) = tested_before m t inside ownerless refl u e in
      absurd (ne (w.alone u t (inl (ownerless-in_section (m.place u) h)) mine));
}
  where
    mine : Holder m t
    mine = inl (ap in_section here)

    only : (u : ℕ) → Holder (record m { owner = some t; place = moved m t inside }) u → u ≡ t
    only u (inl h) = w.alone u t (inl (tested_before m t inside in_section refl u h).1) mine
    only u (inr e) = sym (some_injective e)

-- The owner gives the mutex up.
gives_up-IsExclusive :
    (m : Mutex) (t : ℕ)
    → IsExclusive m
    → m.owner ≡ some t
    → IsExclusive (record m { owner = none; place = moved m t releasing })
gives_up-IsExclusive m t w mine = record {
  flag = λ u h. w.flag t (inr mine);
  alone = λ u v hu hv. only u hu ∙ sym (only v hv);
  owned = λ u e.
      let (ne, h) = was_inside m t releasing (λ q. cc) u e in
      absurd (ne (some_injective (sym (w.owned u h) ∙ mine)));
  unowned = λ u e. refl;
}
  where
    only : (u : ℕ) → Holder (record m { owner = none; place = moved m t releasing }) u → u ≡ t
    only u (inr e) = cc
    only u (inl h) = elim (eq_or_ne u t) [
      | inl e ↦ e
      | inr ne ↦ w.alone u t (inl (rw (moved_other m t u releasing ne) at h)) (inr mine)
    ]

-- A thread in a place without an owner clears the flag.
module _ (m : Mutex) (w : IsExclusive m) (t : ℕ) (p : Place) (here : ownerless (m.place t) ≡ true)
    (out : in_section p ≡ false) (ne : p ≢ inside) where
  mine_to_clear : Holder m t
  mine_to_clear = inl (ownerless-in_section (m.place t) here)

  nobody : (u : ℕ) → ¬ (Holder (record m { locked = false; place = moved m t p }) u)
  nobody u (inl h) =
      let (other, held) = tested_before m t p in_section out u h in
      other (w.alone u t (inl held) mine_to_clear)
  nobody u (inr e) = cc (w.unowned t here, e)

  clears-IsExclusive : IsExclusive (record m { locked = false; place = moved m t p })
  clears-IsExclusive = record {
    flag = λ u h. absurd (nobody u h);
    alone = λ u v hu hv. absurd (nobody u hu);
    owned = λ u e. w.owned u (was_inside m t p ne u e).1;
    unowned = λ u e. w.unowned t here;
  }

Step-IsExclusive : (m n : Mutex) → IsExclusive m → Step m n → IsExclusive n
Step-IsExclusive m n w (call_lock t nz e) =
    leaves-IsExclusive m w t trying refl (λ q. cc) m.wait_queue
Step-IsExclusive m n w (test_free t e free) = takes-IsExclusive m w t taking free (λ q. cc)
Step-IsExclusive m n w (test_set t e set) =
    leaves-IsExclusive m w t refused refl (λ q. cc) m.wait_queue
Step-IsExclusive m n w (sleep t e) =
    leaves-IsExclusive m w t asleep refl (λ q. cc) (m.wait_queue ++ (t ∷ []))
Step-IsExclusive m n w (own t e) = owns-IsExclusive m t w e
Step-IsExclusive m n w (unlock_refused t e o) = w
Step-IsExclusive m n w (call_unlock t e o) = gives_up-IsExclusive m t w o
Step-IsExclusive m n w (clear t e) = clears-IsExclusive m w t waking (ap ownerless e) refl (λ q. cc)
Step-IsExclusive m n w (wake t u rest e q) =
    leaves-IsExclusive (record m { wait_queue = rest; place = moved m t outside })
      (leaves-IsExclusive m w t outside refl (λ q. cc) rest) u trying refl (λ q. cc) rest
Step-IsExclusive m n w (none_waiting t e q) =
    leaves-IsExclusive m w t outside refl (λ q. cc) m.wait_queue
Step-IsExclusive m n w (destroy_locked t e set) = w
Step-IsExclusive m n w (destroy_free t e free) = takes-IsExclusive m w t destroying free (λ q. cc)
Step-IsExclusive m n w (destroy_clear t e) =
    clears-IsExclusive m w t checking (ap ownerless e) refl (λ q. cc)
Step-IsExclusive m n w (destroy_waiting t e q) =
    leaves-IsExclusive m w t outside refl (λ q. cc) m.wait_queue
Step-IsExclusive m n w (destroyed t e q) =
    leaves-IsExclusive m w t outside refl (λ q. cc) m.wait_queue

-- In every state that lock, unlock and destroy calls of any threads can reach from an initialised
-- mutex, by any interleaving of their steps, calls of a thread that is not the owner and of one that
-- is the owner already included: at most one thread has set the flag and not yet cleared it, be it in
-- a call or as the owner; the flag is set while there is one; a thread whose last call was a
-- worker_mutex_lock that has returned is the owner; and while a thread gives the mutex up or
-- destroys it there is no owner.
pub worker_mutex-IsExclusive : (m : Mutex) → Reaches worker_mutex_init m → IsExclusive m
unfolding worker_mutex_init
worker_mutex-IsExclusive m start = record {
  flag = λ t h. absurd (nothing_held t h);
  alone = λ t u ht hu. absurd (nothing_held t ht);
  owned = λ t e. cc;
  unowned = λ t e. refl;
}
  where
    nothing_held : (t : ℕ) → ¬ (Holder worker_mutex_init t)
    nothing_held t (inl h) = not_both h refl
    nothing_held t (inr e) = cc
worker_mutex-IsExclusive m (next {n} {o} r s) =
    Step-IsExclusive n m (worker_mutex-IsExclusive n r) s
