-- ===== src/Scheduler/Jobs/Invariant.antt =====
-- The runs in flight of services/scheduler.js and the marks on their jobs.
use red_man.Common.{
  ℕ, ◌<◌, ◌≡◌, refl, sym, ap, ◌∙◌, ◌≢◌, ◌⊎◌, inl, inr, String, true, false, some, List, arith,
  Bool-cases, Option-cases, ℕ-Comparable, String-Comparable, pair-Comparable, ℕ_discrete,
}
use red_man.Common.Dict
use red_man.Scheduler.Retry.{Outcome, resolved, rejected, after_failure}
use red_man.Scheduler.Jobs.{
  Key, Run, Scheduler, initial, register_executor, remove_job, start_run, skip_tick, tick_callback,
  tick, end_run, settle_run, settle, wake,
}

-- The runs in flight and the keys that are marked as running fit together, one to one.
pub record Exclusive (s : Scheduler) : Type 0 where
  pub marked :
      (i : ℕ) (r : Run) → Dict.get s.in_flight i ≡ some r → Dict.has s.running_jobs r.key ≡ true
  pub alone :
      (i j : ℕ) (r q : Run)
      → Dict.get s.in_flight i ≡ some r
      → Dict.get s.in_flight j ≡ some q
      → r.key ≡ q.key
      → i ≡ j
  pub fresh : (i : ℕ) (r : Run) → Dict.get s.in_flight i ≡ some r → i < s.next_run
  pub backed :
      (k : Key)
      → Dict.has s.running_jobs k ≡ true
      → (i : ℕ) × (r : Run) × (Dict.get s.in_flight i ≡ some r) × (r.key ≡ k)

pub initial-Exclusive : Exclusive initial
initial-Exclusive = record {
  marked = λ i r h. cc;
  alone = λ i j r q h k e. cc;
  fresh = λ i r h. cc;
  backed = λ k h. cc;
}

-- The invariant does not read the executors, the tasks and the counts.
module _ {s : Scheduler} (inv : Exclusive s) where
  executors-Exclusive : (x : List (String × ℕ)) → Exclusive (record s { executors = x })
  executors-Exclusive x = record {
    marked = inv.marked;
    alone = inv.alone;
    fresh = inv.fresh;
    backed = inv.backed;
  }

  pub active_jobs-Exclusive : (x : List (Key × String)) → Exclusive (record s { active_jobs = x })
  active_jobs-Exclusive x = record {
    marked = inv.marked;
    alone = inv.alone;
    fresh = inv.fresh;
    backed = inv.backed;
  }

  skip_counts-Exclusive : (x : List (Key × ℕ)) → Exclusive (record s { skip_counts = x })
  skip_counts-Exclusive x = record {
    marked = inv.marked;
    alone = inv.alone;
    fresh = inv.fresh;
    backed = inv.backed;
  }

module _ {s : Scheduler} (inv : Exclusive s) where
  -- A run in flight holds the mark of its key.
  pub busy :
      (i : ℕ) (r : Run) (k : Key)
      → Dict.get s.in_flight i ≡ some r
      → r.key ≡ k
      → Dict.has s.running_jobs k ≡ true
  busy i r k g e = rw e at (inv.marked i r g)

  pub start_run-Exclusive :
      (k : Key) → Dict.has s.running_jobs k ≡ false → Exclusive (start_run k s)
  unfolding start_run
  start_run-Exclusive k idle = record {
    marked = λ i r h. elim (Dict.get-put_inv s.in_flight s.next_run i started h) [
      | inl (_, e) ↦ Dict.has-add_self s.running_jobs k r.key (ap (λ (q : Run). q.key) e)
      | inr (_, old) ↦ Dict.has-add_old s.running_jobs k r.key (inv.marked i r old)
    ];
    alone = λ i j r q h g e.
        both i j r q e (Dict.get-put_inv s.in_flight s.next_run i started h)
          (Dict.get-put_inv s.in_flight s.next_run j started g);
    fresh = λ i r h. elim (Dict.get-put_inv s.in_flight s.next_run i started h) [
      | inl (e, _) ↦ omega arith
      | inr (_, old) ↦ omega (arith, inv.fresh i r old)
    ];
    backed = λ j h. elim (Dict.has-add_inv s.running_jobs k j h) [
      | inl e ↦
          (s.next_run, started, Dict.get-put_self s.in_flight s.next_run s.next_run started refl, e)
      | inr old ↦ kept j (inv.backed j old)
    ];
  }
    where
      started : Run
      started = record { key = k; attempt = 0; waiting = false }

      both :
          (i j : ℕ) (r q : Run)
          → r.key ≡ q.key
          → ((s.next_run ≡ i) × (started ≡ r))
            ⊎ ((s.next_run ≢ i) × (Dict.get s.in_flight i ≡ some r))
          → ((s.next_run ≡ j) × (started ≡ q))
            ⊎ ((s.next_run ≢ j) × (Dict.get s.in_flight j ≡ some q))
          → i ≡ j
      both i j r q e (inl (h, _)) (inl (g, _)) = omega arith
      both i j r q e (inl (_, h)) (inr (_, g)) =
          cc (busy j q k g (sym e ∙ sym (ap (λ (x : Run). x.key) h)))
      both i j r q e (inr (_, h)) (inl (_, g)) =
          cc (busy i r k h (e ∙ sym (ap (λ (x : Run). x.key) g)))
      both i j r q e (inr (_, h)) (inr (_, g)) = inv.alone i j r q h g e

      kept :
          (j : Key)
          → (i : ℕ) × (r : Run) × (Dict.get s.in_flight i ≡ some r) × (r.key ≡ j)
          → (i : ℕ) × (r : Run) × (Dict.get (Dict.put s.in_flight s.next_run started) i ≡ some r)
            × (r.key ≡ j)
      kept j (i, r, g, e) = (
        i,
        r,
        Dict.get-put_ne s.in_flight s.next_run i started
              (λ d. absurd (omega (arith, inv.fresh i r g)))
            ∙ g,
        e,
      )

  -- A run that ends gives up its mark, and no other run had it.
  end_run-Exclusive :
      (i : ℕ) (r : Run) → Dict.get s.in_flight i ≡ some r → Exclusive (end_run i r.key s)
  unfolding end_run
  end_run-Exclusive i r g = record {
    marked = λ j q h.
        let (d, old) = Dict.get-remove_inv s.in_flight i j h in
        Dict.has-discard_ne s.running_jobs r.key q.key (λ e. d (inv.alone i j r q g old e))
        ∙ inv.marked j q old;
    alone = λ j l q p h k e.
        inv.alone j l q p (Dict.get-remove_inv s.in_flight i j h).1
          (Dict.get-remove_inv s.in_flight i l k).1 e;
    fresh = λ j q h. inv.fresh j q (Dict.get-remove_inv s.in_flight i j h).1;
    backed = λ k h.
        let (d, old) = Dict.has-discard_inv s.running_jobs r.key k h in kept k d (inv.backed k old);
  }
    where
      kept :
          (k : Key)
          → r.key ≢ k
          → (j : ℕ) × (q : Run) × (Dict.get s.in_flight j ≡ some q) × (q.key ≡ k)
          → (j : ℕ) × (q : Run) × (Dict.get (Dict.remove s.in_flight i) j ≡ some q) × (q.key ≡ k)
      kept k d (j, q, h, e) =
          (j, q, Dict.get-remove_ne s.in_flight i j (λ same. d (cc (g, h))) ∙ h, e)

  -- Between its attempts a run keeps its number and its key.
  advance-Exclusive :
      (i : ℕ) (r q : Run)
      → Dict.get s.in_flight i ≡ some r
      → r.key ≡ q.key
      → Exclusive (record s { in_flight = Dict.put s.in_flight i q })
  advance-Exclusive i r q g e = record {
    marked = λ j p h. let (o, k, f) = before j p h in rw (← f) (inv.marked j o k);
    alone = λ j l p o h k f.
        let (p', h', u) = before j p h in
        let (o', k', v) = before l o k in inv.alone j l p' o' h' k' (u ∙ f ∙ sym v);
    fresh = λ j p h. let (o, k, f) = before j p h in inv.fresh j o k;
    backed = λ k h. kept k (inv.backed k h);
  }
    where
      before :
          (j : ℕ) (p : Run)
          → Dict.get (Dict.put s.in_flight i q) j ≡ some p
          → (o : Run) × (Dict.get s.in_flight j ≡ some o) × (o.key ≡ p.key)
      before j p h = elim (Dict.get-put_inv s.in_flight i j q h) [
        | inl (same, f) ↦ (r, rw (← same) g, e ∙ ap (λ (x : Run). x.key) f)
        | inr (_, old) ↦ (p, old, refl)
      ]

      kept :
          (k : Key)
          → (j : ℕ) × (p : Run) × (Dict.get s.in_flight j ≡ some p) × (p.key ≡ k)
          → (j : ℕ) × (p : Run) × (Dict.get (Dict.put s.in_flight i q) j ≡ some p) × (p.key ≡ k)
      kept k (j, p, h, f) = elim (ℕ_discrete i j) [
        | yes same ↦ (j, q, Dict.get-put_self s.in_flight i j q same, cc)
        | no d ↦ (j, p, Dict.get-put_ne s.in_flight i j q d ∙ h, f)
      ]

-- Counting a skip touches neither the marks nor the runs.
skip_tick-Exclusive : {s : Scheduler} (k : Key) → Exclusive s → Exclusive (skip_tick k s)
unfolding skip_tick
skip_tick-Exclusive {s} k inv = ground (arith, inv)

tick_callback-Exclusive : {s : Scheduler} (k : Key) → Exclusive s → Exclusive (tick_callback k s)
unfolding tick_callback
tick_callback-Exclusive {s} k inv = elim (Option-cases (Dict.get s.executors k.0)) [
  | inl e ↦ rw (e, tick_callback) inv
  | inr (fn, e) ↦ elim (Bool-cases (Dict.has s.running_jobs k)) [
    | inl b ↦ rw (e, tick_callback) (rw b (skip_tick-Exclusive k inv))
    | inr b ↦ rw (e, tick_callback) (rw b (start_run-Exclusive inv k b))
  ]
]

pub tick-Exclusive : {s : Scheduler} (k : Key) → Exclusive s → Exclusive (tick k s)
unfolding tick
tick-Exclusive {s} k inv = elim (Option-cases (Dict.get s.active_jobs k)) [
  | inl e ↦ rw (e, tick) inv
  | inr (task, e) ↦ rw (e, tick) (tick_callback-Exclusive k inv)
]

settle_run-Exclusive :
    {s : Scheduler} (i : ℕ) (r : Run) (o : Outcome)
    → Exclusive s
    → Dict.get s.in_flight i ≡ some r
    → Exclusive (settle_run i r o s)
unfolding settle_run
settle_run-Exclusive i r resolved inv g = end_run-Exclusive (skip_counts-Exclusive inv _) i r g
settle_run-Exclusive i r (rejected m) inv g = elim (Option-cases (after_failure r.attempt m)) [
  | inl e ↦ rw (e, settle_run) (end_run-Exclusive inv i r g)
  | inr (d, e) ↦ rw (e, settle_run) (advance-Exclusive inv i r (record r { waiting = true }) g refl)
]

pub settle-Exclusive :
    {s : Scheduler} (i : ℕ) (o : Outcome) → Exclusive s → Exclusive (settle i o s)
unfolding settle
settle-Exclusive {s} i o inv = elim (Option-cases (Dict.get s.in_flight i)) [
  | inl e ↦ rw (e, settle) inv
  | inr (r, e) ↦ elim (Bool-cases r.waiting) [
    | inl w ↦ rw (e, settle) (rw w inv)
    | inr w ↦ rw (e, settle) (simp w (settle_run-Exclusive i r o inv e))
  ]
]

pub wake-Exclusive : {s : Scheduler} (i : ℕ) → Exclusive s → Exclusive (wake i s)
unfolding wake
wake-Exclusive {s} i inv = elim (Option-cases (Dict.get s.in_flight i)) [
  | inl e ↦ rw (e, wake) inv
  | inr (r, e) ↦ elim (Bool-cases r.waiting) [
    | inl w ↦ rw (e, wake) (rw w (advance-Exclusive inv i r _ e refl))
    | inr w ↦ rw (e, wake) (rw w inv)
  ]
]

-- Taking a job away while it is not running.
pub remove_job-Exclusive :
    {s : Scheduler} (k : Key)
    → Exclusive s
    → Dict.has s.running_jobs k ≡ false
    → Exclusive (remove_job k s)
unfolding remove_job
remove_job-Exclusive {s} k inv idle = record {
  marked = λ i r h.
      Dict.has-discard_ne s.running_jobs k r.key (λ e. cc (busy inv i r k h (sym e)))
      ∙ inv.marked i r h;
  alone = inv.alone;
  fresh = inv.fresh;
  backed = λ j h. inv.backed j (Dict.has-discard_inv s.running_jobs k j h).1;
}

pub register_executor-Exclusive :
    {s : Scheduler} (f : String) (fn : ℕ) → Exclusive s → Exclusive (register_executor f fn s)
unfolding register_executor
register_executor-Exclusive f fn inv = executors-Exclusive inv _
