-- ===== src/Util.antt =====
-- util/log.c and util/mkpath.c. `getenv`, `atoi`, `basename`, `dirname`, `access` and `mkdir` are
-- parameters.
pub mod Paths
use spawny.Base.{
  ℕ, zero, suc, Bool, true, false, not, List, [], ◌∷◌, ◌++◌, Option, none, some, Text, codes,
  decimal, ltb, if◌then◌else◌, ◌>>=◌,
}
use spawny.Client.{ℤ, pos, negsuc}

-- `Log_Type`, and what the number of `SPAWNY_LOG_LEVEL` makes of `min_log_level`, which starts as 0.
pub data LogType : Type 0 where
  inf err : LogType

unfoldable pub log_init : Option ℤ → LogType
log_init none = inf
log_init (some (pos zero)) = inf
log_init (some (pos (suc n))) = err
log_init (some (negsuc n)) = inf

abbrev pub is_below : LogType → LogType → Bool
is_below inf err = true
is_below inf inf = false
is_below err type = false

abbrev escape : ℕ → Text → Text
escape letter rest = 27 ∷ (b'[' ∷ (51 ∷ (letter ∷ (b'm' ∷ rest))))

-- `log_to_type`: what is printed. `message` is what `vprintf` makes of the arguments.
unfoldable pub log_to_type : (Text → Text) → LogType → LogType → Text → ℕ → Text → Text
log_to_type basename min_log_level type file line_number message =
    let welcomer : Text = elim type [
      | err ↦ escape b'1' (codes "ERR")
      | inf ↦ escape b'6' (codes "INF")
    ] in
    let place = b'<' ∷ (basename file ++ (b':' ∷ (decimal line_number ++ codes ">"))) in
    let reset = 27 ∷ (b'[' ∷ (48 ∷ (b'm' ∷ []))) in
    if is_below type min_log_level
    then []
    else welcomer ++ (escape b'7' (place ++ (reset ++ (message ++ 10 ∷ []))))

-- The directories: a state `W`, whether a path can be reached, and `mkdir`, with false for -1.
pub record Directories (W : Type 0) : Type 0 where
  pub dirname : Text → Text
  pub access : W → Text → Bool
  pub mkdir : W → Text → ℕ → W × Bool

-- `mkpath`, with fuel: it calls itself for the directory of the path.
module _ {W : Type 0} (d : Directories W) where
  unfoldable pub mkpath : ℕ → Text → ℕ → W → Option (W × Bool)
  mkpath zero path mode w = none
  mkpath (suc fuel) path mode w =
      let dir = d.dirname path in
      let above : Option (W × Bool) = mkpath fuel dir mode w >>= λ r.
      (if not r.1 then some (r.0, false) else some (d.mkdir r.0 path mode)) in
      if not (d.access w dir) then above else some (d.mkdir w path mode)
