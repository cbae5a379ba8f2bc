-- ===== src/Util/Paths.antt =====
-- mkpath.c: how it ends.
use spawny.Base.{◌<◌, ◌≡◌, false, Text, length}
use spawny.Util.{Directories}

-- `dirname` as documented: the name gets shorter, unless it is "." or "/", and those can be reached.
pub record IsDirname {W : Type 0} (d : Directories W) : Type 0 where
  pub shorter :
      (w : W) (path : Text)
      → d.access w (d.dirname path) ≡ false
      → length (d.dirname path) < length path
