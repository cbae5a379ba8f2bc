-- ===== src/Desktop/FireUp.antt =====
-- x11_temp.c, wl_temp.c and tty_temp.c: what a template executes when it is run. The shell of the
-- process's user and `basename` are parameters.
use spawny.Base.{
  ◌+◌, ◌-◌, ◌≡◌, ap, ◌∙◌, List, [], ◌∷◌, ◌++◌, Text, codes, length, take, take-append,
  length-append, append-nil, arith, sym,
}

-- The path and the arguments of `execl`.
pub record Exec : Type 0 where
  pub path : Text
  pub argv : List Text

module _ (pw_shell : Text) (basename : Text → Text) where
  unfoldable pub tty_fire_up : Exec
  tty_fire_up = record {
    path = pw_shell;
    argv = basename pw_shell ∷ codes "--login" ∷ codes "-i" ∷ [];
  }

  unfoldable pub wl_fire_up : Text → Exec
  wl_fire_up exec = record {
    path = pw_shell;
    argv = basename pw_shell ∷ codes "--login" ∷ codes "-i" ∷ codes "-c" ∷ exec ∷ [];
  }

  -- `snprintf` into the array `command`.
  unfoldable pub x11_fire_up : Text → Exec
  x11_fire_up exec =
      let executor = codes "startx" in
      let size = length executor + length exec + 2 in
      let line = take (size - 1) (executor ++ (b' ' ∷ exec)) in
      record {
        path = pw_shell;
        argv = basename pw_shell ∷ codes "--login" ∷ codes "-i" ∷ codes "-c" ∷ line ∷ [];
      }

  -- The array holds the whole command: an X session is started like a Wayland session whose command
  -- has `startx` in front.
  pub x11_fire_up-whole : (exec : Text) → x11_fire_up exec ≡ wl_fire_up (codes "startx " ++ exec)
  unfolding x11_fire_up wl_fire_up
  x11_fire_up-whole exec =
      let line = codes "startx " ++ exec in
      let size : length (codes "startx") + length exec + 2 - 1 ≡ length line =
        omega (arith, length-append (codes "startx ") exec) in
      let whole : take (length line) line ≡ line =
        ap (take (length line)) (sym (append-nil line)) ∙ take-append line [] in
      rw (size, whole)
