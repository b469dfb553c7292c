-- ===== src/Bms/Query/Retry.antt =====
-- The loop of `get_data_with_response`: how often it asks, and what it returns.
use esk.Common.{ℕ, zero, suc, ◌+◌, ◌<◌, ◌≡◌, refl, ◌∙◌, ap, sym, List, ◌⊎◌, arith, inl, inr}
use esk.Err.{Err, ok}
use esk.Uart.{Msg, msg_serialize, regread_msg_new}
use esk.Bms.Driver.{UartDriver}
use esk.Bms.Query.{
  Outcome, replied, gave_up, fault, judge, exchange, attempts, get_data_with_response,
}

module _ (d : UartDriver) (uart_port : ℕ) (msg : Msg) (reg_size : ℕ) where
  open d use {Port}

  -- The port after so many rounds.
  unfoldable pub after : ℕ → Port → Port
  after zero p = p
  after (suc n) p = after n (exchange d uart_port (msg_serialize msg) (9 + reg_size) p).0

  -- What the round that starts at a port makes of its read.
  unfoldable pub round : Port → Outcome
  round p =
      let (_, n, buf) = exchange d uart_port (msg_serialize msg) (9 + reg_size) p in
      judge reg_size n buf

  abbrev pub GaveUp : Outcome → Type 0
  GaveUp o = (e : Err) × (o ≡ gave_up e)

  pub attempts-step :
      (n : ℕ) (err : Err) (p : Port)
      → attempts d (suc n) err uart_port msg reg_size p ≡ elim (round p) [
        | replied bytes ↦ (after 1 p, replied bytes)
        | gave_up err' ↦ attempts d n err' uart_port msg reg_size (after 1 p)
        | fault ↦ (after 1 p, fault)
      ]
  unfolding attempts after round
  attempts-step n err p = refl

  -- The first round that does not give up ends the loop.
  attempts-replied :
      (k left : ℕ) (err : Err) (p : Port) (bytes : List ℕ)
      → k < left
      → ((j : ℕ) → j < k → GaveUp (round (after j p)))
      → round (after k p) ≡ replied bytes
      → attempts d left err uart_port msg reg_size p ≡ (after (suc k) p, replied bytes)
  unfolding after
  attempts-replied k zero err p bytes lt before now = absurd (omega arith)
  attempts-replied zero (suc m) err p bytes lt before now = (rw now at (attempts-step m err p))
  attempts-replied (suc k) (suc m) err p bytes lt before now =
      let (e, gave) = before 0 (omega arith) in
      (rw gave at (attempts-step m err p))
      ∙ attempts-replied k m e (after 1 p) bytes (omega arith)
          (λ j lt'. before (suc j) (omega arith)) now

  attempts-gave_up :
      (n : ℕ) (err last : Err) (p : Port)
      → ((j : ℕ) → j < n → GaveUp (round (after j p)))
      → round (after n p) ≡ gave_up last
      → attempts d (suc n) err uart_port msg reg_size p ≡ (after (suc n) p, gave_up last)
  unfolding after
  attempts-gave_up zero err last p before now =
      (rw now at (attempts-step zero err p)) ∙ (unfold attempts in refl)
  attempts-gave_up (suc n) err last p before now =
      let (e, gave) = before 0 (omega arith) in
      (rw gave at (attempts-step (suc n) err p))
      ∙ attempts-gave_up n e last (after 1 p) (λ j lt. before (suc j) (omega arith)) now

  -- What stands behind a reply: the round that it came from, and the rounds before it.
  pub record Replied (left : ℕ) (p p' : Port) (bytes : List ℕ) : Type 0 where
    pub rounds : ℕ
    pub bounded : rounds < left
    pub stopped : p' ≡ after (suc rounds) p
    pub accepted : round (after rounds p) ≡ replied bytes
    pub refused : (j : ℕ) → j < rounds → GaveUp (round (after j p))

  pub Outcome-cases :
      (o : Outcome) → (o ≡ fault) ⊎ (GaveUp o ⊎ ((bytes : List ℕ) × (o ≡ replied bytes)))
  Outcome-cases (replied bytes) = inr (inr (bytes, refl))
  Outcome-cases (gave_up e) = inr (inl (e, refl))
  Outcome-cases fault = inl refl

  attempts_replied :
      (left : ℕ) (err : Err) (p p' : Port) (bytes : List ℕ)
      → attempts d left err uart_port msg reg_size p ≡ (p', replied bytes)
      → Replied left p p' bytes
  unfolding after
  attempts_replied zero err p p' bytes h = absurd (unfold attempts in cc h)
  attempts_replied (suc left) err p p' bytes h = elim (Outcome-cases (round p)) [
    | inl e ↦ absurd (cc ((rw e at (attempts-step left err p)), h))
    | inr (inr (out, e)) ↦ now out e (sym (rw e at (attempts-step left err p)) ∙ h)
    | inr (inl (e, gave)) ↦ later e gave (
        attempts_replied left e (after 1 p) p' bytes
          (sym (rw gave at (attempts-step left err p)) ∙ h))
  ]
    where
      none_before : (j : ℕ) → j < 0 → GaveUp (round (after j p))
      none_before j lt = absurd (omega arith)

      now :
          (out : List ℕ)
          → round p ≡ replied out
          → ◌≡◌ {A = Port × Outcome} (after 1 p, replied out) (p', replied bytes)
          → Replied (suc left) p p' bytes
      now out e same = record {
        rounds = 0;
        bounded = omega arith;
        stopped = sym (ap (λ t. t.0) same);
        accepted = e ∙ ap (λ t. t.1) same;
        refused = none_before;
      }

      refused_before :
          (e : Err) (k : ℕ)
          → round p ≡ gave_up e
          → ((j : ℕ) → j < k → GaveUp (round (after j (after 1 p))))
          → (j : ℕ) → j < suc k
          → GaveUp (round (after j p))
      refused_before e k gave before zero lt = (e, gave)
      refused_before e k gave before (suc j) lt = before j (omega arith)

      later :
          (e : Err)
          → round p ≡ gave_up e
          → Replied left (after 1 p) p' bytes
          → Replied (suc left) p p' bytes
      later e gave r = record {
        rounds = suc r.rounds;
        bounded = omega (arith, r.bounded);
        stopped = r.stopped;
        accepted = r.accepted;
        refused = refused_before e r.rounds gave r.refused;
      }

-- A query returns `ESK8_OK` only if one of its three rounds accepted a response, all the rounds before it
-- failed and no request followed it; the bytes that it copies are those of that round.
pub query_replied :
    (d : UartDriver) (uart_port dst_addr reg reg_size : ℕ) (p p' : d.Port) (bytes : List ℕ)
    → get_data_with_response d uart_port dst_addr reg reg_size p ≡ (p', replied bytes)
    → Replied d uart_port (regread_msg_new dst_addr reg reg_size) reg_size 3 p p' bytes
unfolding get_data_with_response
query_replied d uart_port dst_addr reg reg_size p p' bytes h =
    attempts_replied d uart_port (regread_msg_new dst_addr reg reg_size) reg_size 3 ok p p' bytes h

-- A round below 3 that accepts a response after rounds that failed decides the query.
pub query-replied :
    (d : UartDriver) (uart_port dst_addr reg reg_size k : ℕ) (p : d.Port) (bytes : List ℕ)
    → k < 3
    → ((j : ℕ)
        → j < k
        → GaveUp d uart_port (regread_msg_new dst_addr reg reg_size) reg_size (
            round d uart_port
              (regread_msg_new dst_addr reg reg_size)
              reg_size
              (after d uart_port (regread_msg_new dst_addr reg reg_size) reg_size j p)))
    → round d uart_port
        (regread_msg_new dst_addr reg reg_size)
        reg_size
        (after d uart_port (regread_msg_new dst_addr reg reg_size) reg_size k p)
      ≡ replied bytes
    → get_data_with_response d uart_port dst_addr reg reg_size p ≡ (
      after d uart_port (regread_msg_new dst_addr reg reg_size) reg_size (suc k) p,
      replied bytes,
    )
unfolding get_data_with_response
query-replied d uart_port dst_addr reg reg_size k p bytes lt before now =
    attempts-replied d uart_port (regread_msg_new dst_addr reg reg_size) reg_size k 3 ok p bytes lt
      before now

-- When all three rounds fail, the query makes exactly three exchanges and returns the error of the last.
pub query-gave_up :
    (d : UartDriver) (uart_port dst_addr reg reg_size : ℕ) (p : d.Port) (last : Err)
    → ((j : ℕ)
        → j < 2
        → GaveUp d uart_port (regread_msg_new dst_addr reg reg_size) reg_size (
            round d uart_port
              (regread_msg_new dst_addr reg reg_size)
              reg_size
              (after d uart_port (regread_msg_new dst_addr reg reg_size) reg_size j p)))
    → round d uart_port
        (regread_msg_new dst_addr reg reg_size)
        reg_size
        (after d uart_port (regread_msg_new dst_addr reg reg_size) reg_size 2 p)
      ≡ gave_up last
    → get_data_with_response d uart_port dst_addr reg reg_size p
      ≡ (after d uart_port (regread_msg_new dst_addr reg reg_size) reg_size 3 p, gave_up last)
unfolding get_data_with_response
query-gave_up d uart_port dst_addr reg reg_size p last before now =
    attempts-gave_up d uart_port (regread_msg_new dst_addr reg reg_size) reg_size 2 ok last p before
      now
