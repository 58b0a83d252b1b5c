-- ===== src/Threads/Library/Schedule.antt =====
-- schedule of thread-worker.c keeps the ready queue in order.
use cs416_operating_systems.Base.{
  ℕ, suc, true, false, ◌≡◌, ◌≢◌, ◌⊎◌, refl, sym, ap, ◌∙◌, inl, inr, List, [], ◌∷◌, arith, ne→==,
  ==_self, eq_or_ne, Bool-cases,
}
use cs416_operating_systems.Threads.Table.{ThreadState, ready, running, blocked, terminated}
use cs416_operating_systems.Threads.Library.{
  Timespec, Thread, Library, Switch, to_thread, to_main, spins, put_thread, stops, rr_loop,
  dispatched, sched_rr,
}
use cs416_operating_systems.Threads.Library.Waiting.{
  occurrences, places, state_of, waiting_of, IsWaiting, IsConsistent, IsLive,
}

-- What the scheduler comes to with `queue` for its ready queue, entered with `lib`: the thread at the
-- head runs and the rest is the queue; or the queue is empty, and main goes on or nothing does.
pub data Runs (queue : List ℕ) (lib : Library) (r : Switch) : Type 0 where
  goes :
      (next : ℕ) (rest : List ℕ) (lib' : Library)
      → queue ≡ next ∷ rest
      → r ≡ to_thread lib'
      → lib'.running_tcb ≡ next
      → lib'.rr_queue ≡ rest
      → IsLive lib'
      → Runs queue lib r
  idles :
      (lib' : Library)
      → queue ≡ []
      → stops lib ≡ true
      → r ≡ to_main lib'
      → lib'.rr_queue ≡ []
      → IsConsistent lib'
      → Runs queue lib r
  hangs : queue ≡ [] → stops lib ≡ false → r ≡ spins → Runs queue lib r

-- The TCBs after one is written.
module _ (lib : Library) (a : ℕ) (thread : Thread) where
  pub put_self : (put_thread a thread lib).tcbs a ≡ thread
  put_self = rw (==_self a) refl

  pub put_other : (t : ℕ) → t ≢ a → (put_thread a thread lib).tcbs t ≡ lib.tcbs t
  put_other t ne = rw (ne→== t a ne) refl

  pub state_put_self : state_of (put_thread a thread lib) a ≡ thread.state
  state_put_self = ap (λ (x : Thread). x.state) put_self

  pub state_put_other : (t : ℕ) → t ≢ a → state_of (put_thread a thread lib) t ≡ state_of lib t
  state_put_other t ne = ap (λ (x : Thread). x.state) (put_other t ne)

  pub waiting_put_self : waiting_of (put_thread a thread lib) a ≡ thread.waiting_thread
  waiting_put_self = ap (λ (x : Thread). x.waiting_thread) put_self

  pub waiting_put_other :
      (t : ℕ) → t ≢ a → waiting_of (put_thread a thread lib) t ≡ waiting_of lib t
  waiting_put_other t ne = ap (λ (x : Thread). x.waiting_thread) (put_other t ne)

-- A new state for a thread that does not wait, and that keeps what waits for it.
module _ (lib : Library) (a : ℕ) (thread : Thread) (w : IsWaiting lib)
    (same : thread.waiting_thread ≡ waiting_of lib a) (nz : a ≢ 0)
    (awake : state_of lib a ≢ blocked) where
  abbrev changed : Library
  changed = put_thread a thread lib

  same_waiting : (t : ℕ) → waiting_of changed t ≡ waiting_of lib t
  same_waiting t = elim (eq_or_ne t a) [
    | inl e ↦ rw e (waiting_put_self lib a thread ∙ same)
    | inr ne ↦ waiting_put_other lib a thread t ne
  ]

  pub put_thread-IsWaiting : IsWaiting changed
  put_thread-IsWaiting = record {
    null = state_put_other lib a thread 0 (λ e. nz (sym e)) ∙ w.null;
    asleep = λ t h.
        let h0 : waiting_of lib t ≢ 0 = λ e. h (same_waiting t ∙ e) in
        let other : waiting_of lib t ≢ a = λ e. awake (rw e at (w.asleep t h0)) in
        ap (state_of changed) (same_waiting t)
        ∙ state_put_other lib a thread (waiting_of lib t) other
        ∙ w.asleep t h0;
    one_target = λ t u h e.
        w.one_target t u (λ z. h (same_waiting t ∙ z)) (sym (same_waiting t) ∙ e ∙ same_waiting u);
  }

-- The choice of the next thread.
module _ (now : Timespec) (lib : Library) (c : IsConsistent lib) (next : ℕ) (queue : List ℕ)
    (first : lib.rr_queue ≡ next ∷ queue) where
  next-ready : (state_of lib next ≡ ready) × (occurrences next queue ≡ 0)
  next-ready =
      places-suc (state_of lib next) _
        (sym (c.queued next) ∙ ap (occurrences next) first ∙ rw (==_self next) refl)
    where
      places-suc : (s : ThreadState) (n : ℕ) → places s ≡ suc n → (s ≡ ready) × (n ≡ 0)
      places-suc ready n e = (refl, omega (arith, e))
      places-suc running n e = absurd (omega (arith, e))
      places-suc blocked n e = absurd (omega (arith, e))
      places-suc terminated n e = absurd (omega (arith, e))

  abbrev shorter : Library
  shorter = record lib { rr_queue = queue; running_tcb = next }

  abbrev chosen : Library
  chosen = put_thread next (dispatched now (lib.tcbs next)) shorter

  pub next_nonzero : next ≢ 0
  next_nonzero e = cc (next-ready.0, ap (state_of lib) e, c.waiting.null)

  dispatched-state : (dispatched now (lib.tcbs next)).state ≡ running
  unfolding dispatched
  dispatched-state = refl

  dispatched-waiting : (dispatched now (lib.tcbs next)).waiting_thread ≡ waiting_of lib next
  unfolding dispatched
  dispatched-waiting = refl

  chosen_queued : (t : ℕ) → occurrences t queue ≡ places (state_of chosen t)
  chosen_queued t = elim (eq_or_ne t next) [
    | inl e ↦
        rw e (next-ready.1 ∙ sym (ap places (state_put_self shorter next _ ∙ dispatched-state)))
    | inr ne ↦
        let before : occurrences t (next ∷ queue) ≡ occurrences t queue =
          rw (ne→== t next ne) refl in
        sym before
        ∙ sym (ap (occurrences t) first)
        ∙ c.queued t
        ∙ sym (ap places (state_put_other shorter next _ t ne))
  ]

  pub chosen-IsLive : IsLive chosen
  chosen-IsLive = record {
    consistent = record {
      waiting =
          put_thread-IsWaiting shorter next _
            (record {
              null = c.waiting.null;
              asleep = c.waiting.asleep;
              one_target = c.waiting.one_target;
            })
            dispatched-waiting next_nonzero (λ e. cc (next-ready.0, e));
      queued = chosen_queued;
    };
    runs = state_put_self shorter next _ ∙ dispatched-state;
  }

List-cases : (x : List ℕ) → (x ≡ []) ⊎ ((c : ℕ) × (q : List ℕ) × (x ≡ c ∷ q))
List-cases [] = inl refl
List-cases (c ∷ q) = inr (c, q, refl)

pub sched_rr-Runs :
    (now : Timespec) (lib before : Library) (queue : List ℕ)
    → IsConsistent lib
    → lib.rr_queue ≡ queue
    → (queue ≡ [] → stops lib ≡ stops before)
    → Runs queue before (sched_rr now lib)
unfolding sched_rr rr_loop
sched_rr-Runs now lib before queue c same stays = elim (List-cases lib.rr_queue) [
  | inr (next, rest, first) ↦
      rw (sched_rr, first, rr_loop, ne→== next 0 (next_nonzero now lib c next rest first))
        (goes next rest (chosen now lib c next rest first) (sym same ∙ first) refl refl refl
          (chosen-IsLive now lib c next rest first))
  | inl empty ↦
      let none_left : queue ≡ [] = sym same ∙ empty in
      let calm : IsConsistent (record lib { rr_queue = [] }) = record {
        waiting = record {
          null = c.waiting.null;
          asleep = c.waiting.asleep;
          one_target = c.waiting.one_target;
        };
        queued = λ t. sym (ap (occurrences t) empty) ∙ c.queued t;
      } in
      elim (Bool-cases (stops lib)) [
        | inl t ↦
            rw (sched_rr, empty, rr_loop, t)
              (idles (record lib { rr_queue = [] }) none_left (sym (stays none_left) ∙ t) refl refl
                calm)
        | inr f ↦
            rw (sched_rr, empty, rr_loop, f) (hangs none_left (sym (stays none_left) ∙ f) refl)
      ]
]
