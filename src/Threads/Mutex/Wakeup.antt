-- ===== src/Threads/Mutex/Wakeup.antt =====
-- A wake-up that worker_mutex_lock of thread-worker.c loses: the timer can switch threads between
-- the test-and-set and the enqueue.
use cs416_operating_systems.Base.{
  ℕ, none, false, ◌≡◌, ◌≢◌, refl, sym, ne→==, ==_self, [], ◌∷◌, eq_or_ne, inl, inr,
}
use cs416_operating_systems.Threads.Mutex.{
  outside, asleep, Mutex, worker_mutex_init, call_lock, test_free, test_set, sleep, own,
  call_unlock, clear, none_waiting, Reaches, start, next,
}

-- The thread `t` sleeps in the wait queue, the mutex is free, and no other thread is in a call.
pub record IsStranded (m : Mutex) (t : ℕ) : Type 0 where
  pub free : m.locked ≡ false
  pub unowned : m.owner ≡ none
  pub queued : m.wait_queue ≡ t ∷ []
  pub sleeps : m.place t ≡ asleep
  pub idle : (v : ℕ) → v ≢ t → m.place v ≡ outside

-- For any two threads there is a run of the code after which one of them sleeps in the wait queue
-- although the mutex is free and no thread is in a call that could wake it.
pub worker_mutex-IsStranded :
    (t u : ℕ) → t ≢ 0 → u ≢ 0 → t ≢ u → (m : Mutex) × Reaches worker_mutex_init m × IsStranded m t
unfolding worker_mutex_init
worker_mutex-IsStranded t u nt nu ne =
    let tu = ne→== t u ne in
    let ut = ne→== u t (λ e. ne (sym e)) in
    let uu = ==_self u in
    let tt' = ==_self t in
    let s1 : Reaches worker_mutex_init _ = next start (call_lock u nu refl) in
    let s2 = next s1 (test_free u (rw uu refl) refl) in
    let s3 = next s2 (own u (rw uu refl)) in
    let s4 = next s3 (call_lock t nt (rw tu refl)) in
    let s5 = next s4 (test_set t (rw tt' refl) refl) in
    let s6 = next s5 (call_unlock u (rw (ut, uu) refl) refl) in
    let s7 = next s6 (clear u (rw uu refl)) in
    let s8 = next s7 (none_waiting u (rw uu refl) refl) in
    let s9 = next s8 (sleep t (rw (tu, tt') refl)) in
    (
      _,
      s9,
      record {
        free = refl;
        unowned = refl;
        queued = refl;
        sleeps = rw tt' refl;
        idle = λ v nv. elim (eq_or_ne v u) [
          | inl e ↦ rw (e, ut, uu) refl
          | inr nvu ↦ rw (ne→== v t nv, ne→== v u nvu) refl
        ];
      },
    )
