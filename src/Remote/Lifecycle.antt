-- ===== src/Remote/Lifecycle.antt =====
-- Starting and stopping the remote control.
use esk.Common.{
  ℕ, zero, suc, ◌==◌, if◌then◌else◌, Bool-cases, inl, inr, ◌≡◌, ◌≢◌, ◌↔◌, refl, true, false, List,
  [], arith,
}
use esk.Err.{Err, ok, failed, err_oom, err_remt_reinit}
use esk.Remote.{
  Remote, stopped_remote, State, state_stopped, state_init, state_not_connected, Call, Sdk,
  remote_start, start_btn, start_ps2, start_pwm,
}

-- What a start that succeeds rests on.
pub record AllMade (sdk : Sdk) : Type 0 where
  pub nvs : sdk.nvs_err ≡ 0
  pub pwm : sdk.pwm.err ≡ ok
  pub ps2 : sdk.ps2.err ≡ ok
  pub ps2_tsk : sdk.ps2_tsk ≢ 0
  pub btn : sdk.btn.err ≡ ok
  pub btn_tsk : sdk.btn_tsk ≢ 0

-- A start that succeeds is not connected yet; one that fails keeps its state.
abbrev pub Ended : State → Remote × Err × List Call → Type 0 → Type 0
Ended state t made =
    ((t.1 ≡ ok) → made × (t.0.state ≡ state_not_connected))
    × ((t.1 ≢ ok) → t.0.state ≡ state)
    × (made → t.1 ≡ ok)

failed_ok : (e : Err) → failed e ≡ false → e ≡ ok
failed_ok e h = ground arith

pub failed-ne : (e : Err) → failed e ≡ true → e ≢ ok
failed-ne e h same = cc (h, same)

-- The return behind an initialisation that fails.
guard_err :
    (state : State) (e : Err) (r : Remote) (calls : List Call) (rest : Remote × Err × List Call)
    (made : Type 0)
    → r.state ≡ state
    → Ended state rest made
    → Ended state (if failed e then (r, e, calls) else rest) ((e ≡ ok) × made)
guard_err state e r calls rest made same ended = elim (Bool-cases (failed e)) [
  | inl bad ↦ rw bad ((λ fine. absurd (failed-ne e bad fine)), (λ ne. same), (λ m. m.0))
  | inr fine ↦ rw fine (
    (λ good. ((failed_ok e fine, (ended.0 good).0), (ended.0 good).1)),
    ended.1,
    (λ m. ended.2 m.1),
  )
]

-- The return behind a task that is not created.
guard_task :
    (state : State) (task : ℕ) (r : Remote) (calls : List Call) (rest : Remote × Err × List Call)
    (made : Type 0)
    → r.state ≡ state
    → Ended state rest made
    → Ended state (if task == 0 then (r, err_oom, calls) else rest) ((task ≢ 0) × made)
guard_task state zero r calls rest made same ended =
    ((λ bad. absurd (ground arith)), (λ ne. same), (λ m. absurd (m.0 refl)))
guard_task state (suc task) r calls rest made same ended =
    let set : (suc task == 0) ≡ false = ground arith in
    rw set (
      (λ good. (((λ e. omega arith), (ended.0 good).0), (ended.0 good).1)),
      ended.1,
      (λ m. ended.2 m.1),
    )

start_btn-Ended :
    (r : Remote) (sdk : Sdk)
    → Ended r.state (start_btn r sdk) ((sdk.btn.err ≡ ok) × ((sdk.btn_tsk ≢ 0) × Unit {0}))
unfolding start_btn
start_btn-Ended r sdk = guard_err r.state sdk.btn.err _ _ _ _ refl (
    guard_task r.state sdk.btn_tsk _ _ _ (Unit {0}) refl
      ((λ e. (tt, refl)), (λ ne. absurd (ne refl)), (λ u. refl)))

start_ps2-Ended :
    (r : Remote) (sdk : Sdk)
    → Ended r.state (start_ps2 r sdk) (
        (sdk.ps2.err ≡ ok)
        × ((sdk.ps2_tsk ≢ 0) × ((sdk.btn.err ≡ ok) × ((sdk.btn_tsk ≢ 0) × Unit {0}))))
unfolding start_ps2
start_ps2-Ended r sdk = guard_err r.state sdk.ps2.err _ _ _ _ refl (
    guard_task r.state sdk.ps2_tsk _ _ _ _ refl
      (start_btn-Ended (record r { hndl_ps2 = sdk.ps2.hndl; task_ps2 = sdk.ps2_tsk }) sdk))

start_pwm-Ended :
    (r : Remote) (sdk : Sdk)
    → Ended r.state (start_pwm r sdk) (
        (sdk.pwm.err ≡ ok)
        × ((sdk.ps2.err ≡ ok)
            × ((sdk.ps2_tsk ≢ 0) × ((sdk.btn.err ≡ ok) × ((sdk.btn_tsk ≢ 0) × Unit {0})))))
unfolding start_pwm
start_pwm-Ended r sdk =
    guard_err r.state sdk.pwm.err _ _ _ _ refl
      (start_ps2-Ended (record r { hndl_pwm = sdk.pwm.hndl }) sdk)

pub remote_start-Ended :
    (r : Remote) (sdk : Sdk)
    → r.state ≡ state_stopped
    → Ended state_init (remote_start r sdk) (AllMade sdk)
unfolding remote_start
remote_start-Ended r sdk stopped =
    let ended = start_pwm-Ended (record stopped_remote { state = state_init }) sdk in
    rw stopped (elim (Bool-cases (sdk.nvs_err == 0)) [
      | inl fine ↦ rw fine (
        (λ good. (made (ground arith) (ended.0 good).0, (ended.0 good).1)),
        ended.1,
        (λ m. ended.2 (m.pwm, (m.ps2, (m.ps2_tsk, (m.btn, (m.btn_tsk, tt)))))),
      )
      | inr bad ↦
          rw bad
            ((λ good. absurd (ground arith)), (λ ne. refl), (λ m. absurd (ground (arith, m.nvs))))
    ])
  where
    made :
        sdk.nvs_err ≡ 0
        → (sdk.pwm.err ≡ ok)
          × ((sdk.ps2.err ≡ ok)
              × ((sdk.ps2_tsk ≢ 0) × ((sdk.btn.err ≡ ok) × ((sdk.btn_tsk ≢ 0) × Unit {0}))))
        → AllMade sdk
    made nvs (pwm, (ps2, (ps2_tsk, (btn, (btn_tsk, _))))) = record {
      nvs = nvs;
      pwm = pwm;
      ps2 = ps2;
      ps2_tsk = ps2_tsk;
      btn = btn;
      btn_tsk = btn_tsk;
    }

-- A remote that is stopped starts exactly when the storage, the three drivers and the two tasks are all made.
pub remote_start_ok_iff :
    (r : Remote) (sdk : Sdk) → r.state ≡ state_stopped → ((remote_start r sdk).1 ≡ ok) ↔ AllMade sdk
remote_start_ok_iff r sdk stopped =
    let e = remote_start-Ended r sdk stopped in ((λ good. (e.0 good).0), e.2)

refused :
    (r : Remote) (sdk : Sdk) → r.state ≡ state_init → remote_start r sdk ≡ (r, err_remt_reinit, [])
unfolding remote_start
refused r sdk begun = rw begun refl

-- A start that fails leaves the state `INIT`, so that every later start is refused with `REINIT` and does
-- nothing.
pub remote_start_sticks :
    (r : Remote) (sdk later : Sdk)
    → r.state ≡ state_stopped
    → (remote_start r sdk).1 ≢ ok
    → ((remote_start r sdk).0.state ≡ state_init)
      × (remote_start (remote_start r sdk).0 later ≡ ((remote_start r sdk).0, err_remt_reinit, []))
remote_start_sticks r sdk later stopped bad =
    let kept = (remote_start-Ended r sdk stopped).1 bad in (kept, again kept)
  where
    again :
        (remote_start r sdk).0.state ≡ state_init
        → remote_start (remote_start r sdk).0 later ≡ ((remote_start r sdk).0, err_remt_reinit, [])
    again kept = refused (remote_start r sdk).0 later kept
