-- ===== src/Remote/Task/Pauses.antt =====
-- lib/remote/esk8_remote_ps2_task.c: the pauses, whatever the trackpad does.
use esk.Common.{
  ◌||◌, ℕ, ◌≡◌, refl, sym, ap, ◌∙◌, Bool, true, false, List, [], ◌∷◌, ◌++◌, Option, none, some,
  if◌then◌else◌, not,
}
use esk.Err.{failed}
use esk.Ps2.Types
use esk.Ps2.Types.{Hndl, SqncFrame, Frame, Mvmt}
use esk.Ps2.Command.{mvmt_sync}
use esk.Ps2.Mvmt.{await_mvmt}
use esk.Remote.{incr_speed}
use esk.Remote.Task.{
  Phase, syncing, awaiting, Task, Reply, Act, ps2, pause, duty, all_ps2, sync_step, await_step,
  round, step, run,
}

-- The pauses in order.
abbrev pub pauses : List Act → List ℕ
pauses [] = []
pauses (ps2 c ∷ acts) = pauses acts
pauses (pause ms ∷ acts) = ms ∷ pauses acts
pauses (duty now ∷ acts) = pauses acts

pauses-append : (xs ys : List Act) → pauses (xs ++ ys) ≡ pauses xs ++ pauses ys
pauses-append [] ys = refl
pauses-append (ps2 c ∷ xs) ys = pauses-append xs ys
pauses-append (pause ms ∷ xs) ys = ap (λ l. ms ∷ l) (pauses-append xs ys)
pauses-append (duty now ∷ xs) ys = pauses-append xs ys

pauses-all_ps2 : (calls : List Types.Call) → pauses (all_ps2 calls) ≡ []
pauses-all_ps2 [] = refl
pauses-all_ps2 (c ∷ cs) = pauses-all_ps2 cs

-- What the resynchronisations of a task come to, in order: whether each fails.
abbrev pub sync_failed : Phase → Task → Reply → List Bool
sync_failed awaiting t reply = []
sync_failed syncing t reply =
    failed (mvmt_sync t.hndl reply.locked reply.wait reply.locked_again reply.wait_again).2 ∷ []

abbrev pub syncs : Task → List Reply → List Bool
syncs t [] = []
syncs t (reply ∷ replies) = sync_failed t.phase t reply ++ syncs (step t reply).0 replies

-- The pauses behind them: of a second for each failure before the first success, and of 10 ms for each behind it.
abbrev pub paced : Bool → List Bool → List ℕ
paced available [] = []
paced available (false ∷ rest) = paced true rest
paced false (true ∷ rest) = 1000 ∷ paced false rest
paced true (true ∷ rest) = 10 ∷ paced true rest

paced-append :
    (available : Bool) (fails : Bool) (rest : List Bool)
    → paced available (fails ∷ rest)
      ≡ (if fails then (if available then 10 else 1000) ∷ [] else [])
        ++ paced (available || not fails) rest
paced-append true true rest = refl
paced-append false true rest = refl
paced-append true false rest = refl
paced-append false false rest = refl

-- What a round pauses, and what it leaves `ps2_available` at, for a resynchronisation.
abbrev SyncPaced : Bool → Bool → Task × List Act → Type 0
SyncPaced available fails (t, acts) =
    (pauses acts ≡ (if fails then (if available then 10 else 1000) ∷ [] else []))
    × (t.ps2_available ≡ (available || not fails))

or_false : (b : Bool) → b ≡ (b || false)
or_false true = refl
or_false false = refl

or_true : (b : Bool) → true ≡ (b || true)
or_true true = refl
or_true false = refl

if-SyncPaced :
    (available fails : Bool) (x y : Task × List Act)
    → SyncPaced available true x
    → SyncPaced available false y
    → SyncPaced available fails (if fails then x else y)
if-SyncPaced available true x y hx hy = hx
if-SyncPaced available false x y hx hy = hy

sync_step-SyncPaced :
    (t : Task) (reply : Reply)
    → SyncPaced t.ps2_available
        (failed (mvmt_sync t.hndl reply.locked reply.wait reply.locked_again reply.wait_again).2)
        (sync_step t reply)
unfolding sync_step
sync_step-SyncPaced t reply =
    let r = mvmt_sync t.hndl reply.locked reply.wait reply.locked_again reply.wait_again in
    let quiet = pauses-all_ps2 r.1 in
    if-SyncPaced t.ps2_available (failed r.2) _ _
      (
        pauses-append (all_ps2 r.1) (pause (if t.ps2_available then 10 else 1000) ∷ [])
            ∙ rw quiet refl,
        or_false t.ps2_available,
      )
      (quiet, or_true t.ps2_available)

-- A round of the inner loop pauses nowhere.
abbrev AwaitPaced : Task → Task × List Act → Type 0
AwaitPaced t (t', acts) = (pauses acts ≡ []) × (t'.ps2_available ≡ t.ps2_available)

if-AwaitPaced :
    (t : Task) (c : Bool) (x y : Task × List Act)
    → AwaitPaced t x
    → AwaitPaced t y
    → AwaitPaced t (if c then x else y)
if-AwaitPaced t true x y hx hy = hx
if-AwaitPaced t false x y hx hy = hy

moved_AwaitPaced :
    (t awaited : Task) (out_mvmt : Option Mvmt)
    → awaited.ps2_available ≡ t.ps2_available
    → AwaitPaced t (elim out_mvmt [
      | none ↦ (awaited, [])
      | some mvmt ↦
          let (remote, now) = incr_speed t.remote mvmt.x in
          (record awaited { remote = remote }, duty now ∷ [])
    ])
moved_AwaitPaced t awaited none e = (refl, e)
moved_AwaitPaced t awaited (some mvmt) e = (refl, e)

await_step-AwaitPaced : (t : Task) (reply : Reply) → AwaitPaced t (await_step t reply)
unfolding await_step
await_step-AwaitPaced t reply =
    let r = await_mvmt t.hndl.sqnc_frame reply.receives in
    if-AwaitPaced t (failed r.1) _ _ (refl, refl)
      (moved_AwaitPaced t (record t { hndl = record t.hndl { sqnc_frame = r.0 } }) r.2 refl)

-- The pauses of a round in front of those behind it.
round-paced :
    (phase : Phase) (t : Task) (reply : Reply) (rest : List Bool)
    → let r = round phase t reply in
      pauses r.1 ++ paced r.0.ps2_available rest
      ≡ paced t.ps2_available (sync_failed phase t reply ++ rest)
unfolding round
round-paced awaiting t reply rest =
    let (quiet, same) = await_step-AwaitPaced t reply in rw (quiet, same) refl
round-paced syncing t reply rest =
    let fails =
      failed (mvmt_sync t.hndl reply.locked reply.wait reply.locked_again reply.wait_again).2 in
    let (acts, after) = sync_step-SyncPaced t reply in
    rw (acts, after) (sym (paced-append t.ps2_available fails rest))

-- The task pauses just once behind each resynchronisation that fails: for a second while none has succeeded, and for
-- 10 ms from then on, as a task does from its start that has had a trackpad.
pub run-paced :
    (t : Task) (replies : List Reply)
    → pauses (run t replies).1 ≡ paced t.ps2_available (syncs t replies)
unfolding run
run-paced t [] = refl
run-paced t (reply ∷ replies) =
    let now = step t reply in
    pauses-append now.1 (run now.0 replies).1
    ∙ ap (λ l. pauses now.1 ++ l) (run-paced now.0 replies)
    ∙ round-paced t.phase t reply (syncs now.0 replies)
