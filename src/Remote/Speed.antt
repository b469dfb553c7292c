-- ===== src/Remote/Speed.antt =====
-- The speed stays in the range of the PWM duty.
use esk.Common.{ℕ, ◌+◌, ◌≤◌, ◌≡◌, ◌<◌, ◌^◌, ◌⊎◌, inl, inr, refl, List, [], ◌∷◌, arith, length}
use esk.Common.Int.{ℤ, pos, negsuc, pos_part, neg_part, ◌+ℤ◌, wrap_int, wrap_int-in_range}
use esk.Ps2.Types.{Mvmt}
use esk.Remote.{Remote, clamp, duty, incr_speed, follow}

part_of : (z : ℤ) → (pos_part z ≡ 0) ⊎ (neg_part z ≡ 0)
part_of (pos n) = inr refl
part_of (negsuc n) = inl refl

clamped :
    (speed : ℤ)
    → (clamp speed ≡ pos (duty (clamp speed)))
      × (duty (clamp speed) ≤ 255)
      × (pos_part speed ≤ neg_part speed → duty (clamp speed) ≡ 0)
      × (neg_part speed + 255 ≤ pos_part speed → duty (clamp speed) ≡ 255)
      × (neg_part speed ≤ pos_part speed
          → pos_part speed ≤ neg_part speed + 255
          → duty (clamp speed) + neg_part speed ≡ pos_part speed)
unfolding clamp
clamped speed = ground arith

-- From a speed of 0 to 255, an increment whose sum with it is an `int` gives the sum, cut off at 0 and at 255, and the
-- duty is that speed.
pub incr_speed-saturates :
    (r : Remote) (incr : ℤ) (v : ℕ)
    → r.speed ≡ pos v
    → v ≤ 255
    → neg_part incr ≤ v + pos_part incr + 2 ^ 31
    → v + pos_part incr < neg_part incr + 2 ^ 31
    → let (r', now) = incr_speed r incr in
      (r'.speed ≡ pos now)
      × (now ≤ 255)
      × (v + pos_part incr ≤ neg_part incr → now ≡ 0)
      × (neg_part incr + 255 ≤ v + pos_part incr → now ≡ 255)
      × (neg_part incr ≤ v + pos_part incr
          → v + pos_part incr ≤ neg_part incr + 255
          → now + neg_part incr ≡ v + pos_part incr)
unfolding incr_speed ◌+ℤ◌
incr_speed-saturates r incr v e le above below =
    let sum = pos v +ℤ incr in
    let parts : pos_part sum + neg_part incr ≡ neg_part sum + (v + pos_part incr) = ground arith in
    let one_sided : (pos_part sum ≡ 0) ⊎ (neg_part sum ≡ 0) = part_of sum in
    let fits =
      wrap_int-in_range sum (omega (arith, parts, one_sided, below))
        (omega (arith, parts, one_sided, above)) in
    let (same, bound, low, high, mid) = clamped sum in
    rw (e, fits)
      (
        same,
        bound,
        (λ h. low (omega (arith, parts, h))),
        (λ h. high (omega (arith, parts, h))),
        λ h h'.
            let m = mid (omega (arith, parts, h)) (omega (arith, parts, h')) in
            omega (arith, parts, m),
      )

-- The duty that was set last.
abbrev pub last_of : ℕ → List ℕ → ℕ
last_of v [] = v
last_of v (now ∷ later) = last_of now later

abbrev pub AllDuties : List ℕ → Type 0
AllDuties [] = Unit {0}
AllDuties (now ∷ later) = (now ≤ 255) × AllDuties later

pub incr_speed-duty :
    (r : Remote) (incr : ℤ)
    → ((incr_speed r incr).0.speed ≡ pos (incr_speed r incr).1) × ((incr_speed r incr).1 ≤ 255)
unfolding incr_speed
incr_speed-duty r incr =
    let (speed, bound, _, _, _) = clamped (wrap_int (r.speed +ℤ incr)) in (speed, bound)

-- While the remote follows the trackpad, from a speed of 0 to 255, it sets one duty for each move, each of
-- at most 255, and the speed that it holds is the duty that it set last.
pub follow-duties :
    (r : Remote) (moves : List Mvmt) (v : ℕ)
    → r.speed ≡ pos v
    → v ≤ 255
    → let (r', duties) = follow r moves in
      (length duties ≡ length moves) × AllDuties duties × (r'.speed ≡ pos (last_of v duties))
unfolding follow
follow-duties r [] v e le = (refl, tt, e)
follow-duties r (mvmt ∷ moves) v e le =
    let (speed, bound) = incr_speed-duty r mvmt.x in
    let (len, all, last) =
      follow-duties (incr_speed r mvmt.x).0 moves (incr_speed r mvmt.x).1 speed bound in
    (omega (arith, len), (bound, all), last)
