-- ===== src/Remote/Task/Laws.antt =====
-- lib/remote/esk8_remote_ps2_task.c: the speed, whatever the trackpad does.
use esk.Common.{
  ℕ, ◌≤◌, ◌≡◌, refl, sym, ap, ◌∙◌, Bool, true, false, List, [], ◌∷◌, ◌++◌, Option, none, some,
  if◌then◌else◌,
}
use esk.Common.Int.{pos}
use esk.Err.{failed}
use esk.Ps2.Types
use esk.Ps2.Types.{Hndl, SqncFrame, Frame, Mvmt}
use esk.Ps2.Command.{mvmt_sync}
use esk.Ps2.Mvmt.{await_mvmt}
use esk.Remote.{incr_speed}
use esk.Remote.Speed.{incr_speed-duty}
use esk.Remote.Task.{
  Phase, syncing, awaiting, Task, Reply, Act, ps2, pause, duty, all_ps2, sync_step, await_step,
  round, step, run,
}

-- The duty that was set last, and that all are a `uint8_t`.
abbrev pub last_duty : ℕ → List Act → ℕ
last_duty v [] = v
last_duty v (ps2 c ∷ acts) = last_duty v acts
last_duty v (pause ms ∷ acts) = last_duty v acts
last_duty v (duty now ∷ acts) = last_duty now acts

abbrev pub AllDuties : List Act → Type 0
AllDuties [] = Unit {0}
AllDuties (ps2 c ∷ acts) = AllDuties acts
AllDuties (pause ms ∷ acts) = AllDuties acts
AllDuties (duty now ∷ acts) = (now ≤ 255) × AllDuties acts

-- What holds behind any acts: the speed is the last duty, and no duty was above 255.
pub record Holds (v : ℕ) (outcome : Task × List Act) : Type 0 where
  pub speed : outcome.0.remote.speed ≡ pos (last_duty v outcome.1)
  pub bound : last_duty v outcome.1 ≤ 255
  pub all : AllDuties outcome.1

last_duty-append :
    (v : ℕ) (xs ys : List Act) → last_duty v (xs ++ ys) ≡ last_duty (last_duty v xs) ys
last_duty-append v [] ys = refl
last_duty-append v (ps2 c ∷ xs) ys = last_duty-append v xs ys
last_duty-append v (pause ms ∷ xs) ys = last_duty-append v xs ys
last_duty-append v (duty now ∷ xs) ys = last_duty-append now xs ys

AllDuties-append : (xs ys : List Act) → AllDuties xs → AllDuties ys → AllDuties (xs ++ ys)
AllDuties-append [] ys hx hy = hy
AllDuties-append (ps2 c ∷ xs) ys hx hy = AllDuties-append xs ys hx hy
AllDuties-append (pause ms ∷ xs) ys hx hy = AllDuties-append xs ys hx hy
AllDuties-append (duty now ∷ xs) ys hx hy = (hx.0, AllDuties-append xs ys hx.1 hy)

-- No duty is set.
abbrev Quiet : List Act → Type 0
Quiet acts = ((v : ℕ) → last_duty v acts ≡ v) × AllDuties acts

all_ps2-Quiet : (calls : List Types.Call) → Quiet (all_ps2 calls)
all_ps2-Quiet [] = ((λ v. refl), tt)
all_ps2-Quiet (c ∷ cs) = all_ps2-Quiet cs

Quiet-append : (xs ys : List Act) → Quiet xs → Quiet ys → Quiet (xs ++ ys)
Quiet-append xs ys hx hy = (
  (λ v. last_duty-append v xs ys ∙ (ap (λ u. last_duty u ys) (hx.0 v) ∙ hy.0 v)),
  AllDuties-append xs ys hx.1 hy.1,
)

Quiet-Holds :
    (v : ℕ) (t : Task) (acts : List Act)
    → t.remote.speed ≡ pos v
    → v ≤ 255
    → Quiet acts
    → Holds v (t, acts)
Quiet-Holds v t acts e le q = record {
  speed = e ∙ ap pos (sym (q.0 v));
  bound = rw (q.0 v) le;
  all = q.1;
}

if-Holds :
    (v : ℕ) (c : Bool) (x y : Task × List Act)
    → Holds v x
    → Holds v y
    → Holds v (if c then x else y)
if-Holds v true x y hx hy = hx
if-Holds v false x y hx hy = hy

sync_step-Holds :
    (v : ℕ) (t : Task) (reply : Reply)
    → t.remote.speed ≡ pos v
    → v ≤ 255
    → Holds v (sync_step t reply)
unfolding sync_step
sync_step-Holds v t reply e le =
    let r = mvmt_sync t.hndl reply.locked reply.wait reply.locked_again reply.wait_again in
    let quiet = all_ps2-Quiet r.1 in
    if-Holds v (failed r.2) _ _
      (Quiet-Holds v _ _ e le (Quiet-append (all_ps2 r.1) _ quiet ((λ u. refl), tt)))
      (Quiet-Holds v _ _ e le quiet)

moved_Holds :
    (v : ℕ) (t awaited : Task) (out_mvmt : Option Mvmt)
    → t.remote.speed ≡ pos v
    → v ≤ 255
    → awaited.remote.speed ≡ pos v
    → Holds v (elim out_mvmt [
      | none ↦ (awaited, [])
      | some mvmt ↦
          let (remote, now) = incr_speed t.remote mvmt.x in
          (record awaited { remote = remote }, duty now ∷ [])
    ])
moved_Holds v t awaited none e le same = Quiet-Holds v awaited [] same le ((λ u. refl), tt)
moved_Holds v t awaited (some mvmt) e le same =
    let (speed, bound) = incr_speed-duty t.remote mvmt.x in
    record { speed = speed; bound = bound; all = (bound, tt) }

await_step-Holds :
    (v : ℕ) (t : Task) (reply : Reply)
    → t.remote.speed ≡ pos v
    → v ≤ 255
    → Holds v (await_step t reply)
unfolding await_step
await_step-Holds v t reply e le =
    let r = await_mvmt t.hndl.sqnc_frame reply.receives in
    let awaited = record t { hndl = record t.hndl { sqnc_frame = r.0 } } in
    if-Holds v (failed r.1) _ _ (Quiet-Holds v _ [] e le ((λ u. refl), tt))
      (moved_Holds v t awaited r.2 e le e)

round-Holds :
    (v : ℕ) (phase : Phase) (t : Task) (reply : Reply)
    → t.remote.speed ≡ pos v
    → v ≤ 255
    → Holds v (round phase t reply)
unfolding round
round-Holds v syncing t reply e le = sync_step-Holds v t reply e le
round-Holds v awaiting t reply e le = await_step-Holds v t reply e le

-- From a speed of 0 to 255, whatever the resynchronisations and the waits of the task come to, the speed is the duty
-- that it set last, and no duty is above 255.
pub run-Holds :
    (v : ℕ) (t : Task) (replies : List Reply)
    → t.remote.speed ≡ pos v
    → v ≤ 255
    → Holds v (run t replies)
unfolding run
run-Holds v t [] e le = Quiet-Holds v t [] e le ((λ u. refl), tt)
run-Holds v t (reply ∷ replies) e le =
    let now = step t reply in
    let here = round-Holds v t.phase t reply e le in
    let rest = run-Holds (last_duty v now.1) now.0 replies here.speed here.bound in
    let more = (run now.0 replies).1 in
    record {
      speed = rest.speed ∙ ap pos (sym (last_duty-append v now.1 more));
      bound = rw (last_duty-append v now.1 more) rest.bound;
      all = AllDuties-append now.1 more here.all rest.all;
    }
