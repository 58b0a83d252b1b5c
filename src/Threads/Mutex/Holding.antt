-- ===== src/Threads/Mutex/Holding.antt =====
-- Which thread holds the mutex of thread-worker.c, by the places of the threads and the owner.
use cs416_operating_systems.Base.{
  ℕ, none, some, Bool, true, false, ◌≡◌, ◌≢◌, ◌⊎◌, refl, sym, ap, ◌∙◌, ne→==, ==_self,
}
use cs416_operating_systems.Threads.Mutex.{
  Place, outside, trying, refused, asleep, taking, inside, releasing, waking, destroying, checking,
  Mutex, moved,
}

-- The places in a call between setting and clearing the flag.
abbrev pub in_section : Place → Bool
in_section taking = true
in_section releasing = true
in_section destroying = true
in_section p = false

-- The thread has set the flag and not yet cleared it: it is in such a place, or it is the owner.
abbrev pub Holder : Mutex → ℕ → Type 0
Holder m t = (in_section (m.place t) ≡ true) ⊎ (m.owner ≡ some t)

-- The places in which there is no owner.
abbrev pub ownerless : Place → Bool
ownerless releasing = true
ownerless destroying = true
ownerless p = false

pub record IsExclusive (m : Mutex) : Type 0 where
  pub flag : (t : ℕ) → Holder m t → m.locked ≡ true
  pub alone : (t u : ℕ) → Holder m t → Holder m u → t ≡ u
  pub owned : (t : ℕ) → m.place t ≡ inside → m.owner ≡ some t
  pub unowned : (t : ℕ) → ownerless (m.place t) ≡ true → m.owner ≡ none

pub not_both : {x : Bool} → x ≡ true → x ≡ false → ⊥
not_both e f = cc

pub some_injective : {t u : ℕ} → some t ≡ some u → t ≡ u
some_injective e = cc

pub ownerless-in_section : (p : Place) → ownerless p ≡ true → in_section p ≡ true
ownerless-in_section outside e = e
ownerless-in_section trying e = e
ownerless-in_section refused e = e
ownerless-in_section asleep e = e
ownerless-in_section taking e = refl
ownerless-in_section inside e = e
ownerless-in_section releasing e = e
ownerless-in_section waking e = e
ownerless-in_section destroying e = e
ownerless-in_section checking e = e

-- The place of a thread other than the one that moves.
pub moved_other : (m : Mutex) (t u : ℕ) (p : Place) → u ≢ t → moved m t p u ≡ m.place u
moved_other m t u p ne = rw (ne→== u t ne) refl

pub moved_self : (m : Mutex) (t : ℕ) (p : Place) → moved m t p t ≡ p
moved_self m t p = rw (==_self t) refl

-- What holds of the place of a thread after a move, and not of the place moved to, held before.
module _ (m : Mutex) (t : ℕ) (p : Place) (test : Place → Bool) (out : test p ≡ false) where
  pub tested_before : (u : ℕ) → test (moved m t p u) ≡ true → (u ≢ t) × (test (m.place u) ≡ true)
  tested_before u h =
      let ne : u ≢ t = λ e. not_both (rw (e, moved_self m t p) at h) out in
      (ne, rw (moved_other m t u p ne) at h)

is_inside : Place → Bool
is_inside inside = true
is_inside p = false

-- A thread other than the one that moves to a place that is not `inside`.
pub was_inside :
    (m : Mutex) (t : ℕ) (p : Place)
    → p ≢ inside
    → (u : ℕ) → moved m t p u ≡ inside
    → (u ≢ t) × (m.place u ≡ inside)
was_inside m t p ne u e =
    let other : u ≢ t = λ q. ne (sym (moved_self m t p) ∙ ap (moved m t p) (sym q) ∙ e) in
    (other, sym (moved_other m t u p other) ∙ e)
