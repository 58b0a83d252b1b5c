-- ===== src/Threads/Lifecycle/Steps/Block.antt =====
-- worker_join of thread-worker.c blocks the thread that calls it.
use cs416_operating_systems.Base.{ℕ, refl, ◌≡◌, ◌≢◌, sym, ap, ◌∙◌, inl, inr, eq_or_ne}
use cs416_operating_systems.Threads.Table.{blocked}
use cs416_operating_systems.Threads.Library.{Thread, Library, put_thread}
use cs416_operating_systems.Threads.Lifecycle.{block_for}
use cs416_operating_systems.Threads.Library.Waiting.{
  places, state_of, waiting_of, IsLive, IsEntering,
}
use cs416_operating_systems.Threads.Library.Schedule.{
  state_put_self, state_put_other, waiting_put_self, waiting_put_other,
}
use cs416_operating_systems.Threads.Lifecycle.Steps.{
  running_nonzero, running_awake, running_unqueued,
}

-- A change of a TCB that leaves its state and its waiting thread.
module _ (lib : Library) (a : ℕ) (thread : Thread) (same_state : thread.state ≡ state_of lib a)
    (same_waiting : thread.waiting_thread ≡ waiting_of lib a) where
  state_as_before : (t : ℕ) → state_of (put_thread a thread lib) t ≡ state_of lib t
  state_as_before t = elim (eq_or_ne t a) [
    | inl q ↦ rw q (state_put_self lib a thread ∙ same_state)
    | inr ne ↦ state_put_other lib a thread t ne
  ]

  waiting_as_before : (t : ℕ) → waiting_of (put_thread a thread lib) t ≡ waiting_of lib t
  waiting_as_before t = elim (eq_or_ne t a) [
    | inl q ↦ rw q (waiting_put_self lib a thread ∙ same_waiting)
    | inr ne ↦ waiting_put_other lib a thread t ne
  ]

  pub neutral-IsLive : IsLive lib → IsLive (put_thread a thread lib)
  neutral-IsLive live = record {
    consistent = record {
      waiting = record {
        null = state_as_before 0 ∙ live.consistent.waiting.null;
        asleep = λ t h.
            ap (state_of (put_thread a thread lib)) (waiting_as_before t)
            ∙ state_as_before (waiting_of lib t)
            ∙ live.consistent.waiting.asleep t (λ z. h (waiting_as_before t ∙ z));
        one_target = λ t u h q.
            live.consistent.waiting.one_target t u (λ z. h (waiting_as_before t ∙ z))
              (sym (waiting_as_before t) ∙ q ∙ waiting_as_before u);
      };
      queued = λ t. live.consistent.queued t ∙ sym (ap places (state_as_before t));
    };
    runs = state_as_before lib.running_tcb ∙ live.runs;
  }

module _ (lib : Library) (live : IsLive lib) (target : ℕ) where
  abbrev r : ℕ
  r = lib.running_tcb

  abbrev sleeper : Thread
  sleeper = record (lib.tcbs r) { state = blocked }

  abbrev lib1 : Library
  lib1 = put_thread r sleeper lib

  abbrev awaited : Thread
  awaited = record (lib1.tcbs target) { waiting_thread = r }

  abbrev lib2 : Library
  lib2 = put_thread target awaited lib1

  state2 : (t : ℕ) → state_of lib2 t ≡ state_of lib1 t
  state2 t = elim (eq_or_ne t target) [
    | inl q ↦ rw q (state_put_self lib1 target awaited)
    | inr ne ↦ state_put_other lib1 target awaited t ne
  ]

  state_kept : (t : ℕ) → t ≢ r → state_of lib2 t ≡ state_of lib t
  state_kept t ne = state2 t ∙ state_put_other lib r sleeper t ne

  waiting1 : (t : ℕ) → waiting_of lib1 t ≡ waiting_of lib t
  waiting1 t = elim (eq_or_ne t r) [
    | inl q ↦ rw q (waiting_put_self lib r sleeper)
    | inr ne ↦ waiting_put_other lib r sleeper t ne
  ]

  waiting2 : (t : ℕ) → t ≢ target → waiting_of lib2 t ≡ waiting_of lib t
  waiting2 t ne = waiting_put_other lib1 target awaited t ne ∙ waiting1 t

  for_target : waiting_of lib2 target ≡ r
  for_target = waiting_put_self lib1 target awaited

  -- Nothing waited for by another is the thread that runs.
  not_r : (t : ℕ) → waiting_of lib t ≢ 0 → waiting_of lib t ≢ r
  not_r t h q =
      running_awake lib live (ap (state_of lib) (sym q) ∙ live.consistent.waiting.asleep t h)

  not_r2 : (t : ℕ) → t ≢ target → waiting_of lib2 t ≢ r
  not_r2 t ne q =
      let q0 = sym (waiting2 t ne) ∙ q in not_r t (λ z. running_nonzero lib live (sym q0 ∙ z)) q0

  asleep2 : (t : ℕ) → waiting_of lib2 t ≢ 0 → state_of lib2 (waiting_of lib2 t) ≡ blocked
  asleep2 t h = elim (eq_or_ne t target) [
    | inl q ↦
        ap (state_of lib2) (ap (waiting_of lib2) q ∙ for_target)
        ∙ state2 r
        ∙ state_put_self lib r sleeper
    | inr ne ↦
        let h0 : waiting_of lib t ≢ 0 = λ z. h (waiting2 t ne ∙ z) in
        ap (state_of lib2) (waiting2 t ne)
        ∙ state_kept (waiting_of lib t) (not_r t h0)
        ∙ live.consistent.waiting.asleep t h0
  ]

  one_target2 : (t u : ℕ) → waiting_of lib2 t ≢ 0 → waiting_of lib2 t ≡ waiting_of lib2 u → t ≡ u
  one_target2 t u h q = elim (eq_or_ne t target) [
    | inl qt ↦ elim (eq_or_ne u target) [
      | inl qu ↦ qt ∙ sym qu
      | inr nu ↦ absurd (not_r2 u nu (sym q ∙ ap (waiting_of lib2) qt ∙ for_target))
    ]
    | inr nt ↦ elim (eq_or_ne u target) [
      | inl qu ↦ absurd (not_r2 t nt (q ∙ ap (waiting_of lib2) qu ∙ for_target))
      | inr nu ↦
          live.consistent.waiting.one_target t u (λ z. h (waiting2 t nt ∙ z))
            (sym (waiting2 t nt) ∙ q ∙ waiting2 u nu)
    ]
  ]

  pub block_for-IsEntering : IsEntering (block_for target lib)
  unfolding block_for
  block_for-IsEntering = record {
    waiting = record {
      null = state_kept 0 (λ q. running_nonzero lib live (sym q)) ∙ live.consistent.waiting.null;
      asleep = asleep2;
      one_target = one_target2;
    };
    was_running = running_nonzero lib live;
    not_queued = running_unqueued lib live;
    others = λ t ne. live.consistent.queued t ∙ sym (ap places (state_kept t ne));
  }

  pub block_for-state : state_of (block_for target lib) lib.running_tcb ≡ blocked
  unfolding block_for
  block_for-state = state2 r ∙ state_put_self lib r sleeper

  pub block_for-rr_queue : (block_for target lib).rr_queue ≡ lib.rr_queue
  unfolding block_for
  block_for-rr_queue = refl

  pub block_for-running_tcb : (block_for target lib).running_tcb ≡ lib.running_tcb
  unfolding block_for
  block_for-running_tcb = refl
