-- ===== src/Threads/Lifecycle/Steps/Wake.antt =====
-- worker_exit of thread-worker.c wakes the thread that waits for the one that ends.
use cs416_operating_systems.Base.{
  ℕ, ◌+◌, List, append-nil, ◌≡◌, ◌≢◌, refl, sym, ap, ◌∙◌, inl, inr, [], ◌∷◌, ◌++◌, arith, ◌==◌,
  ==→ne, ne→==, ==_self, eq_or_ne, Bool-cases, if◌then◌else◌,
}
use cs416_operating_systems.Threads.Table.{ready, blocked}
use cs416_operating_systems.Threads.Library.{Thread, Library, put_thread, add_to_scheduler}
use cs416_operating_systems.Threads.Lifecycle.{wake_waiting}
use cs416_operating_systems.Threads.Library.Waiting.{
  occurrences, occurrences-append, places, state_of, waiting_of, IsWaiting, IsEntering,
}
use cs416_operating_systems.Threads.Library.Schedule.{
  state_put_self, state_put_other, waiting_put_self, waiting_put_other,
}

module _ (lib : Library) (e : IsEntering lib) (awake : state_of lib lib.running_tcb ≢ blocked)
    (nz : waiting_of lib lib.running_tcb ≢ 0) where
  abbrev r : ℕ
  r = lib.running_tcb

  abbrev w : ℕ
  w = waiting_of lib r

  abbrev woken : Thread
  woken = record (lib.tcbs w) { state = ready }

  abbrev lib1 : Library
  lib1 = put_thread w woken lib

  abbrev lib2 : Library
  lib2 = record lib1 { rr_queue = lib.rr_queue ++ w ∷ [] }

  abbrev cleared : Thread
  cleared = record (lib2.tcbs r) { waiting_thread = 0 }

  abbrev lib3 : Library
  lib3 = put_thread r cleared lib2

  slept : state_of lib w ≡ blocked
  slept = e.waiting.asleep r nz

  apart : w ≢ r
  apart q = awake (ap (state_of lib) (sym q) ∙ slept)

  state3 : (t : ℕ) → state_of lib3 t ≡ state_of lib1 t
  state3 t = elim (eq_or_ne t r) [
    | inl q ↦ rw q (state_put_self lib2 r cleared)
    | inr ne ↦ state_put_other lib2 r cleared t ne
  ]

  state_kept : (t : ℕ) → t ≢ w → state_of lib3 t ≡ state_of lib t
  state_kept t ne = state3 t ∙ state_put_other lib w woken t ne

  waiting1 : (t : ℕ) → waiting_of lib1 t ≡ waiting_of lib t
  waiting1 t = elim (eq_or_ne t w) [
    | inl q ↦ rw q (waiting_put_self lib w woken)
    | inr ne ↦ waiting_put_other lib w woken t ne
  ]

  waits_on : (t : ℕ) → waiting_of lib3 t ≢ 0 → (t ≢ r) × (waiting_of lib3 t ≡ waiting_of lib t)
  waits_on t h = elim (eq_or_ne t r) [
    | inl q ↦ absurd (h (ap (waiting_of lib3) q ∙ waiting_put_self lib2 r cleared))
    | inr ne ↦ (ne, waiting_put_other lib2 r cleared t ne ∙ waiting1 t)
  ]

  woken-IsWaiting : IsWaiting lib3
  woken-IsWaiting = record {
    null = state_kept 0 (λ q. nz (sym q)) ∙ e.waiting.null;
    asleep = λ t h.
        let (ne, same) = waits_on t h in
        let h0 : waiting_of lib t ≢ 0 = λ z. h (same ∙ z) in
        let other : waiting_of lib t ≢ w = λ q. ne (e.waiting.one_target t r h0 q) in
        ap (state_of lib3) same ∙ state_kept (waiting_of lib t) other ∙ e.waiting.asleep t h0;
    one_target = λ t u h q.
        let (ne, same) = waits_on t h in
        let (nu, same') = waits_on u (λ z. h (q ∙ z)) in
        e.waiting.one_target t u (λ z. h (same ∙ z)) (sym same ∙ q ∙ same');
  }

  others3 : (t : ℕ) → t ≢ r → occurrences t (lib.rr_queue ++ w ∷ []) ≡ places (state_of lib3 t)
  others3 t ne = elim (eq_or_ne t w) [
    | inl q ↦
        let before : occurrences w lib.rr_queue ≡ 0 = e.others w apart ∙ ap places slept in
        let one : occurrences w lib.rr_queue + (if w == w then 1 else 0) ≡ 1 =
          rw (before, ==_self w) refl in
        rw q (
          occurrences-append w w lib.rr_queue
          ∙ one
          ∙ sym (ap places (state3 w ∙ state_put_self lib w woken)))
    | inr other ↦
        let none_more : occurrences t lib.rr_queue + (if t == w then 1 else 0)
            ≡ occurrences t lib.rr_queue =
          rw (ne→== t w other) (omega arith) in
        occurrences-append t w lib.rr_queue
        ∙ none_more
        ∙ e.others t ne
        ∙ sym (ap places (state_kept t other))
  ]

  pub woken-IsEntering : IsEntering lib3
  woken-IsEntering = record {
    waiting = woken-IsWaiting;
    was_running = e.was_running;
    not_queued =
        occurrences-append r w lib.rr_queue
        ∙ rw (e.not_queued, ne→== r w (λ q. apart (sym q))) refl;
    others = others3;
  }

pub wake_waiting-IsEntering :
    (lib : Library)
    → IsEntering lib
    → state_of lib lib.running_tcb ≢ blocked
    → IsEntering (wake_waiting lib.running_tcb lib)
unfolding wake_waiting add_to_scheduler
wake_waiting-IsEntering lib e awake = elim (Bool-cases (waiting_of lib lib.running_tcb == 0)) [
  | inl z ↦ rw (wake_waiting, z) e
  | inr z ↦ rw (wake_waiting, z) (woken-IsEntering lib e awake (==→ne _ _ z))
]

-- The thread that worker_exit wakes, by the waiting thread of the one that ends.
abbrev pub woken_by : ℕ → List ℕ
woken_by w = if w == 0 then [] else w ∷ []

module _ (lib : Library) (e : IsEntering lib) (awake : state_of lib lib.running_tcb ≢ blocked) where
  pub wake_waiting-rr_queue :
      (wake_waiting lib.running_tcb lib).rr_queue
      ≡ lib.rr_queue ++ woken_by (waiting_of lib lib.running_tcb)
  unfolding wake_waiting add_to_scheduler
  wake_waiting-rr_queue = elim (Bool-cases (waiting_of lib lib.running_tcb == 0)) [
    | inl z ↦ rw (wake_waiting, z) (sym (append-nil lib.rr_queue))
    | inr z ↦ rw (wake_waiting, z) refl
  ]

  pub wake_waiting-running_tcb : (wake_waiting lib.running_tcb lib).running_tcb ≡ lib.running_tcb
  unfolding wake_waiting add_to_scheduler
  wake_waiting-running_tcb = elim (Bool-cases (waiting_of lib lib.running_tcb == 0)) [
    | inl z ↦ rw (wake_waiting, z) refl
    | inr z ↦ rw (wake_waiting, z) refl
  ]

  pub wake_waiting-state :
      state_of (wake_waiting lib.running_tcb lib) lib.running_tcb ≡ state_of lib lib.running_tcb
  unfolding wake_waiting add_to_scheduler
  wake_waiting-state = elim (Bool-cases (waiting_of lib lib.running_tcb == 0)) [
    | inl z ↦ rw (wake_waiting, z) refl
    | inr z ↦
        rw (wake_waiting, z)
          (state_kept lib e awake (==→ne _ _ z) lib.running_tcb
            (λ q. apart lib e awake (==→ne _ _ z) (sym q)))
  ]
