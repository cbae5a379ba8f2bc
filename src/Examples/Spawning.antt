-- ===== src/Examples/Spawning.antt =====
-- spawnservice.c and greeter.c at concrete inputs.
use spawny.Base.{
  ℕ, ◌+◌, ◌≡◌, ◌⊎◌, map, ◌++◌, refl, true, false, List, [], ◌∷◌, Option, none, some, Text, codes,
  arith,
}
use spawny.Spawn.Tty.{available_tty, available_tty-Searched, Searched}
use spawny.Spawn.Child.{
  Opening, TtySystem, PamSystem, success, auth_err, Account, Settings, connect, setup_done,
  session_active, error_exit,
}
use spawny.Spawn.ChildLaws.{IsReady, spoken, child_program_outcome}
use spawny.Spawn.Pam.{child_program}
use spawny.Spawn.Conversation.{PamMessage, prompt_echo_off, text_info}
use spawny.Spawn.Parent.{message, disappear, run, started, run-verdict}
use spawny.Greeter.{
  Try, SeatGreeter, Effects, Spawned, failure, returns, faults, activate, greeter_done,
  greeter_start_done, fallback_run_generation,
}
use spawny.Greeter.Restarts.{
  IsBounded, Restarted, Settled, next_run, greeter_start_done-Settled, greeter_done-Restarted,
  activate_never_up,
}

abbrev sessions : List (Option ℕ)
sessions = some 11 ∷ (none ∷ (some 12 ∷ []))

tty_example : (r : ℕ × Option ℕ) × (available_tty sessions 10 ≡ some r) × Searched sessions 10 r
tty_example = available_tty-Searched sessions 10 (omega arith)

abbrev opening : Opening
opening = record {
  fd = some 0;
  is_tty = true;
  sid = none;
  ioctl_ok = true;
  dup_first = 1;
  dup_second = 2;
}

abbrev pub good_tty : TtySystem
good_tty = record {
  pid = 700;
  has_user = true;
  has_group = true;
  first = opening;
  vhangup_ok = true;
  second = opening;
  tcsetpgrp_ok = true;
  chown_ok = true;
  chmod_ok = true;
}

abbrev hidden : PamMessage
hidden = record { msg_style = prompt_echo_off; msg = codes "Password: " }

abbrev complaint : PamMessage
complaint = record { msg_style = text_info; msg = codes "expires soon" }

abbrev pub wrong_password : PamSystem
wrong_password = record {
  start = success;
  putenv = λ s. success;
  authenticate = record { conversation = hidden ∷ []; result = auth_err };
  setcred = record { conversation = []; result = success };
  open_session = record { conversation = []; result = success };
  chdir_ok = true;
  initgroups_ok = true;
  setgid_ok = true;
  setuid_ok = true;
}

abbrev pub alice : Account
alice = record { pw_name = codes "alice"; pw_dir = codes "/home/alice"; pw_shell = codes "/bin/sh" }

abbrev pub on_seat : Settings
on_seat = record {
  session_type = some (codes "x11");
  session_desktop = none;
  session_seat = codes "seat0";
}

-- A right password, and a remark on it.
abbrev pub talkative : PamSystem
talkative = record wrong_password {
  authenticate = record { conversation = hidden ∷ (complaint ∷ []); result = success };
}

child_example :
    (said : List Text) × (((child_program good_tty talkative
            (some (codes "pw"))
            alice
            on_seat
            11
            (some (codes "c2"))
          ≡ (connect ∷ (map error_exit said ++ setup_done ∷ session_active ∷ []), true))
        × (said ≡ spoken talkative (some (codes "pw")))
        × IsReady good_tty talkative (some (codes "c2")))
      ⊎ ((reason : Text) × (child_program good_tty talkative
              (some (codes "pw"))
              alice
              on_seat
              11
              (some (codes "c2"))
            ≡ (connect ∷ (map error_exit said ++ error_exit reason ∷ []), false))
          × (rest : List Text) × (said ++ rest ≡ spoken talkative (some (codes "pw")))))
child_example =
    child_program_outcome good_tty talkative (some (codes "pw")) alice on_seat 11
      (some (codes "c2"))

run_example :
    (run
      (message connect none
        ∷ (message (error_exit (codes "no tty")) none
            ∷ (message session_active none ∷ (disappear ∷ (disappear ∷ [])))))
      started).done_calls
    ≡ record { success = false; message = some (codes "no tty") } ∷ []
run_example = run-verdict (
    message connect none
    ∷ (message (error_exit (codes "no tty")) none
        ∷ (message session_active none ∷ (disappear ∷ (disappear ∷ [])))))

abbrev session_get : ℕ → Option Text
session_get pid = none

abbrev spawns : ℕ → Spawned
spawns n = failure

abbrev effects : Effects
effects = record { activated = []; spawned = 3; listened = [] }

abbrev running : SeatGreeter
running = record {
  seat = codes "seat0";
  run_gen = 2;
  run_try = Try.null;
  run_pid = some 800;
  end = false;
}

running-IsBounded : IsBounded running
running-IsBounded = record {
  counted = omega arith;
  starting = λ pid e. cc;
  running = λ pid e. omega arith;
}

done_example :
    Restarted session_get spawns running effects (greeter_done session_get spawns 7 running effects)
unfolding spawny.Greeter.seat_greeter_pid_get
done_example =
    greeter_done-Restarted session_get spawns running effects 800 (some 800) running-IsBounded refl
      refl refl

abbrev starting : SeatGreeter
starting = record {
  seat = codes "seat0";
  run_gen = 2;
  run_try = Try.live 800;
  run_pid = none;
  end = false;
}

starting-IsBounded : IsBounded starting
starting-IsBounded = record {
  counted = omega arith;
  starting = λ pid e. omega arith;
  running = λ pid e. cc;
}

start_done_example :
    Settled session_get spawns
      (next_run session_get spawns starting)
      effects
      (greeter_start_done session_get spawns 7 false starting effects)
start_done_example =
    greeter_start_done-Settled session_get spawns starting effects 800 starting-IsBounded refl

abbrev idle : SeatGreeter
idle = record running { run_gen = 3; run_pid = none }

never_up_example :
    (h : SeatGreeter) × (gx : Effects) × (activate session_get spawns 4 idle effects
      ≡ returns (h, gx))
    × (h.run_gen ≡ fallback_run_generation + 1)
    × (h.run_try ≡ Try.freed)
    × (gx.spawned ≡ 6)
    × (activate session_get spawns 4 h gx ≡ faults)
never_up_example =
    activate_never_up session_get spawns 2 4 idle effects (λ k. refl) (omega arith) (omega arith)
      refl refl
