-- ===== src/Gateway/Tunnel/Lifecycle.antt =====
-- src/wss_gateway/mod.rs: `finish_bridge_task`, and `shutdown` of the transport stream, which waits
-- for the two tasks of the bridge. The steps of the tasks and of the waiter come in any order.
use newghost.Prelude.{
  ap, Bool-cases, ℕ, zero, suc, subst, sym, ◌-◌, ◌<◌, ◌≡◌, ◌≢◌, refl, arith, ◌==◌, ◌⊎◌, inl, inr,
  if◌then◌else◌,
}

-- Where `shutdown` stands: before a load of `active_tasks`, between a load that found a task and
-- the call of `notified`, in the wait for the notification, or at its result.
pub data Waiter : Type 0 where
  loading calling_notified notified_pending returned_ok returned_timeout : Waiter

pub record Lifecycle : Type 0 where
  pub active_tasks : ℕ
  pub waiter : Waiter

-- `notify_waiters` reaches a `notified` that exists, and is not kept for a later one.
unfoldable pub notify_waiters : Waiter → Waiter
notify_waiters notified_pending = loading
notify_waiters w = w

unfoldable pub finish_bridge_task : Lifecycle → Lifecycle
unfolding notify_waiters
finish_bridge_task l =
    let waiter' = if l.active_tasks == 1 then notify_waiters l.waiter else l.waiter in
    record { active_tasks = l.active_tasks - 1; waiter = waiter' }

unfoldable pub load_active : Lifecycle → Lifecycle
load_active l = record l { waiter = if l.active_tasks == 0 then returned_ok else calling_notified }

pub data Step : Lifecycle → Lifecycle → Type 0 where
  task_ends : (l : Lifecycle) → 0 < l.active_tasks → Step l (finish_bridge_task l)
  loads : (l : Lifecycle) → l.waiter ≡ loading → Step l (load_active l)
  calls_notified :
      (l : Lifecycle)
      → l.waiter ≡ calling_notified
      → Step l (record l { waiter = notified_pending })
  times_out :
      (l : Lifecycle)
      → l.waiter ≡ notified_pending
      → Step l (record l { waiter = returned_timeout })

pub data Steps : Lifecycle → Lifecycle → Type 0 where
  stays : (l : Lifecycle) → Steps l l
  goes : {l m n : Lifecycle} → Step l m → Steps m n → Steps l n

-- The two tasks run, and `shutdown` has just cancelled them.
abbrev pub shutdown_starts : Lifecycle
shutdown_starts = record { active_tasks = 2; waiter = loading }

abbrev IsHonest : Lifecycle → Type 0
IsHonest l = l.waiter ≡ returned_ok → l.active_tasks ≡ 0

abbrev IsStuck : Lifecycle → Type 0
IsStuck l = (l.active_tasks ≡ 0) × ((l.waiter ≡ notified_pending) ⊎ (l.waiter ≡ returned_timeout))

Step-IsStuck : (l m : Lifecycle) → Step l m → IsStuck l → IsStuck m
Step-IsStuck l _ (task_ends _ some_task) stuck = absurd (omega (arith, some_task, stuck.0))
Step-IsStuck l _ (loads _ at) stuck = absurd (ground (arith, at, stuck.1))
Step-IsStuck l _ (calls_notified _ at) stuck = absurd (ground (arith, at, stuck.1))
Step-IsStuck l _ (times_out _ at) stuck = (stuck.0, inr refl)

Steps-IsStuck : (l m : Lifecycle) → Steps l m → IsStuck l → IsStuck m
Steps-IsStuck l _ (stays _) stuck = stuck
Steps-IsStuck l _ (goes {m = m} step steps) stuck =
    Steps-IsStuck m _ steps (Step-IsStuck l m step stuck)

-- Every task that runs ends before `notified` is called, and then it is called.
abbrev pub missed : Lifecycle
missed = record { active_tasks = 0; waiter = notified_pending }

reaches_missed : (n : ℕ) → Steps (record { active_tasks = n; waiter = calling_notified }) missed
unfolding finish_bridge_task notify_waiters
reaches_missed zero = goes (calls_notified _ refl) (stays _)
reaches_missed (suc n) =
    let ends : finish_bridge_task (record { active_tasks = suc n; waiter = calling_notified })
        ≡ record { active_tasks = n; waiter = calling_notified } =
      elim (Bool-cases (suc n == 1)) [
        | inl last ↦
            rw last (ap (λ k. record { active_tasks = k; waiter = calling_notified }) (omega arith))
        | inr more ↦
            rw more (ap (λ k. record { active_tasks = k; waiter = calling_notified }) (omega arith))
      ] in
    goes
      (subst (λ l. Step (record { active_tasks = suc n; waiter = calling_notified }) l) ends
        (task_ends _ (omega arith)))
      (reaches_missed n)

-- A lost wake-up: the steps of a shutdown can lead to the wait for the notification when no task is
-- left. They can from wherever the waiter stands between a load that found a task and the call of
-- `notified`; and whatever steps follow, the shutdown does not return without a timeout.
pub shutdown_misses_end :
    (l m : Lifecycle)
    → l.waiter ≡ calling_notified
    → Steps missed m
    → Steps shutdown_starts missed
      × Steps l missed
      × (m.active_tasks ≡ 0)
      × (m.waiter ≢ returned_ok)
unfolding load_active
shutdown_misses_end l m between steps =
    let stuck = Steps-IsStuck missed m steps (refl, inl refl) in
    (
      goes (loads shutdown_starts refl) (reaches_missed 2),
      subst (λ w. Steps (record { active_tasks = l.active_tasks; waiter = w }) missed) (sym between)
          (reaches_missed l.active_tasks),
      stuck.0,
      λ done. absurd (ground (arith, stuck.1, done)),
    )
