-- ===== src/Tests/Remote.antt =====
-- lib/remote at a few moves, and at starts that succeed and fail.
use esk.Common.{◌≡◌, ◌≢◌, refl, ◌+◌, ◌≤◌, false, List, [], ◌∷◌, arith}
use esk.Common.Int.{pos, negsuc}
use esk.Err.{ok, err_oom}
use esk.Ps2.Types.{Mvmt}
use esk.Remote.{Remote, stopped_remote, Sdk, remote_start, start_pwm, start_ps2, incr_speed}
use esk.Remote.Speed.{incr_speed-saturates}

abbrev fast : Remote
fast = record stopped_remote { speed = pos 250 }

incr_speed-saturates_example :
    ((incr_speed fast (pos 9)).0.speed ≡ pos (incr_speed fast (pos 9)).1)
    × ((incr_speed fast (pos 9)).1 ≤ 255)
    × (250 + 9 ≤ 0 → (incr_speed fast (pos 9)).1 ≡ 0)
    × (0 + 255 ≤ 250 + 9 → (incr_speed fast (pos 9)).1 ≡ 255)
    × (0 ≤ 250 + 9 → 250 + 9 ≤ 0 + 255 → (incr_speed fast (pos 9)).1 + 0 ≡ 250 + 9)
incr_speed-saturates_example =
    incr_speed-saturates fast (pos 9) 250 refl (omega arith) (omega arith) (omega arith)

abbrev moves : List Mvmt
moves =
    record { x = pos 9; y = pos 0; lft_btn = 0 }
    ∷ record { x = negsuc 3; y = pos 1; lft_btn = 1 }
    ∷ []

abbrev sdk : Sdk
sdk = record {
  nvs_full = false;
  nvs_err = 0;
  pwm = record { err = ok; hndl = 1 };
  ps2 = record { err = err_oom; hndl = 2 };
  ps2_tsk = 3;
  btn = record { err = ok; hndl = 4 };
  btn_tsk = 5;
}

no_trackpad : (remote_start stopped_remote sdk).1 ≢ ok
unfolding remote_start start_pwm start_ps2
no_trackpad h = cc h
