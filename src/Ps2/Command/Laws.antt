-- ===== src/Ps2/Command/Laws.antt =====
-- When a command succeeds, what becomes of the lock, and what a resynchronisation restores.
use esk.Common.{
  ℕ, suc, ◌+◌, ◌%◌, ◌^◌, ◌≡◌, ◌↔◌, refl, ◌∙◌, sym, Bool, true, false, List, [], ◌∷◌, ◌++◌, Option,
  none, some, arith, if◌then◌else◌, Bool-cases, inl, inr,
}
use esk.Err.{Err, ok, failed}
use esk.Ps2.Types.{
  Cmd, cmd_byte, Frame, Hndl, Call, gpio_set_direction, gpio_set_level, gpio_setup, isr_handler_add,
  queue_send, queue_reset, queue_delete, semaphore_delete, task_delay_ms, free_hndl, semaphore_give,
  cmd_data_disable, cmd_data_enable,
}
use esk.Ps2.Isr.{isr}
use esk.Ps2.Command.{
  Wait, send_byte, send_cmd, response, acknowledge, verdict_of, sync_enable, mvmt_sync,
  restart_sequence,
}

-- The device's frame that acknowledges a command: no error in it, and the byte 0xFA.
pub record Acknowledges (received : Option Frame) : Type 0 where
  pub frame : Frame
  pub is_frame : received ≡ some frame
  pub no_error : frame.err ≡ ok
  pub is_ack : frame.byte ≡ 0xFA

-- What is received once the command's byte is under way.
abbrev pub reply : Hndl → Wait → Cmd → Option Frame
reply h wait cmd = (wait (send_byte h (cmd_byte cmd % 2 ^ 8)).0).1

outcome : Option Frame → Err
outcome received = verdict_of (response received).0 (response received).1

outcome-ok : (received : Option Frame) → outcome received ≡ ok → Acknowledges received
unfolding outcome response acknowledge
outcome-ok none e = absurd (ground arith)
outcome-ok (some f) e = record {
  frame = f;
  is_frame = refl;
  no_error = ground arith;
  is_ack = ground arith;
}

outcome-of_ack : (received : Option Frame) → Acknowledges received → outcome received ≡ ok
unfolding outcome response acknowledge
outcome-of_ack received a = ground (arith, a.is_frame, a.no_error, a.is_ack)

send_cmd-outcome :
    (h : Hndl) (wait : Wait) (cmd : Cmd) → (send_cmd h true wait cmd).2 ≡ outcome (reply h wait cmd)
unfolding send_cmd outcome
send_cmd-outcome h wait cmd = refl

-- A command succeeds exactly when the lock is taken in time and the frame that answers it has no error
-- and holds the byte 0xFA.
pub send_cmd_ok_iff :
    (h : Hndl) (locked : Bool) (wait : Wait) (cmd : Cmd)
    → ((send_cmd h locked wait cmd).2 ≡ ok) ↔ ((locked ≡ true) × Acknowledges (reply h wait cmd))
send_cmd_ok_iff h true wait cmd = (
  λ e. (refl, outcome-ok (reply h wait cmd) (sym (send_cmd-outcome h wait cmd) ∙ e)),
  λ a. send_cmd-outcome h wait cmd ∙ outcome-of_ack (reply h wait cmd) a.1,
)
send_cmd_ok_iff h false wait cmd = (λ e. absurd (unfold send_cmd in cc e), λ a. absurd (cc (a.0)))

-- The number of times that the lock is given.
abbrev pub gives : List Call → ℕ
gives [] = 0
gives (semaphore_give l ∷ calls) = suc (gives calls)
gives (_ ∷ calls) = gives calls

gives-append : (xs ys : List Call) → gives (xs ++ ys) ≡ gives xs + gives ys
gives-append [] ys = omega arith
gives-append (gpio_set_direction _ _ ∷ xs) ys = gives-append xs ys
gives-append (gpio_set_level _ _ ∷ xs) ys = gives-append xs ys
gives-append (gpio_setup _ ∷ xs) ys = gives-append xs ys
gives-append (isr_handler_add _ ∷ xs) ys = gives-append xs ys
gives-append (queue_send _ _ ∷ xs) ys = gives-append xs ys
gives-append (queue_reset _ ∷ xs) ys = gives-append xs ys
gives-append (queue_delete _ ∷ xs) ys = gives-append xs ys
gives-append (semaphore_give _ ∷ xs) ys = omega (arith, gives-append xs ys)
gives-append (semaphore_delete _ ∷ xs) ys = gives-append xs ys
gives-append (task_delay_ms _ ∷ xs) ys = gives-append xs ys
gives-append (free_hndl ∷ xs) ys = gives-append xs ys

-- How often the lock has been taken.
abbrev pub taken : Bool → ℕ
taken true = 1
taken false = 0

-- A command gives the lock back exactly as often as it took it, on every path.
pub gives-send_cmd :
    (h : Hndl) (locked : Bool) (wait : Wait) (cmd : Cmd)
    → gives (send_cmd h locked wait cmd).1 ≡ taken locked
unfolding send_cmd send_byte
gives-send_cmd h true wait cmd = refl
gives-send_cmd h false wait cmd = refl

gives-sync_enable :
    (h : Hndl) (calls : List Call) (locked : Bool) (wait : Wait)
    → gives (sync_enable h calls locked wait).1
      ≡ gives calls + taken locked + (if failed (sync_enable h calls locked wait).2 then 0 else 1)
unfolding sync_enable
gives-sync_enable h calls locked wait = elim (Bool-cases (failed again.2)) [
  | inl bad ↦
      rw (bad, bad)
        (omega (arith, gives-append calls again.1, gives-send_cmd h locked wait cmd_data_enable))
  | inr fine ↦ rw fine (
      omega (
        arith,
        gives-append calls (again.1 ++ (semaphore_give again.0.tx_lock ∷ [])),
        gives-append again.1 (semaphore_give again.0.tx_lock ∷ []),
        gives-send_cmd h locked wait cmd_data_enable,
      ))
]
  where
    again : Hndl × List Call × Err
    again = send_cmd h locked wait cmd_data_enable

-- A resynchronisation gives the lock back once for each time that its two commands took it, if it fails;
-- if it succeeds, it gives the lock once more than it took it.
pub gives-mvmt_sync :
    (h : Hndl) (locked : Bool) (wait : Wait) (locked' : Bool) (wait' : Wait)
    → let disable = send_cmd h locked wait cmd_data_disable in
      let (_, calls, err) = mvmt_sync h locked wait locked' wait' in
      gives calls
      ≡ taken locked
        + (if failed disable.2 then 0 else taken locked')
        + (if failed err then 0 else 1)
unfolding mvmt_sync
gives-mvmt_sync h locked wait locked' wait' = elim (Bool-cases (failed disable.2)) [
  | inl bad ↦ rw (bad, bad) (omega (arith, gives-send_cmd h locked wait cmd_data_disable))
  | inr fine ↦ rw fine (
      omega (
        arith,
        gives-sync_enable (restart_sequence disable.0)
            (disable.1 ++ (queue_reset disable.0.mv_queue ∷ task_delay_ms 20 ∷ [])) locked' wait',
        gives-append disable.1 (queue_reset disable.0.mv_queue ∷ task_delay_ms 20 ∷ []),
        gives-send_cmd h locked wait cmd_data_disable,
      ))
]
  where
    disable : Hndl × List Call × Err
    disable = send_cmd h locked wait cmd_data_disable

-- What the interrupts leave alone while a command waits.
abbrev pub KeepsSequence : Wait → Type 0
KeepsSequence wait = (h : Hndl) → (wait h).0.sqnc_frame ≡ h.sqnc_frame

send_cmd-sqnc_frame :
    (h : Hndl) (locked : Bool) (wait : Wait) (cmd : Cmd)
    → KeepsSequence wait
    → (send_cmd h locked wait cmd).0.sqnc_frame ≡ h.sqnc_frame
unfolding send_cmd send_byte
send_cmd-sqnc_frame h true wait cmd keeps = keeps _
send_cmd-sqnc_frame h false wait cmd keeps = refl

-- After a resynchronisation that succeeds, the sequence starts at its first byte, if the interrupts leave
-- it alone, as `esk8_ps2_isr` does.
pub mvmt_sync-start :
    (h : Hndl) (locked : Bool) (wait : Wait) (locked' : Bool) (wait' : Wait)
    → KeepsSequence wait'
    → (mvmt_sync h locked wait locked' wait').2 ≡ ok
    → (mvmt_sync h locked wait locked' wait').0.sqnc_frame.idx ≡ 0
unfolding mvmt_sync sync_enable
mvmt_sync-start h locked wait locked' wait' keeps e = ground (
  arith,
  send_cmd-sqnc_frame (restart_sequence (send_cmd h locked wait cmd_data_disable).0) locked' wait'
      cmd_data_enable keeps,
)

-- The interrupt does leave it alone.
pub isr-sqnc_frame : (h : Hndl) (level : ℕ) → (isr h level).0.sqnc_frame ≡ h.sqnc_frame
unfolding isr
isr-sqnc_frame h level = ground arith
