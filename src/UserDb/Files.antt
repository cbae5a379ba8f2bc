-- ===== src/UserDb/Files.antt =====
-- user_db.c: `_put_user`, `_load_file`, `_load_from_fs`, `_prepare_db` and what they use of the
-- system. The parser of .ini texts (inih) is the parameter `ini_entries`: the entries for which it
-- calls its handler, in order.
use spawny.Base.{
  ℕ, ◌-◌, Bool, true, false, not, ◌&&◌, ◌||◌, List, [], ◌∷◌, ◌++◌, map, Option, none, some, Text,
  codes, str_eq, length, drop, ltb, if◌then◌else◌, is_some, ◌>>=◌,
}
use spawny.UserDb.{User, Pair, Context, user_find}

pub record Passwd : Type 0 where
  pub pw_name : Text
  pub pw_uid : ℕ
  pub pw_gid : ℕ

pub record Entry : Type 0 where
  pub in_section : Text
  pub name : Text
  pub value : Text

-- The system as the database sees it while one of its functions runs.
pub record System : Type 0 where
  pub passwd : List Passwd
  -- `getpwent` reaches the end of the list with no error
  pub can_list : Bool
  pub uid : ℕ
  pub can_write : Text → Bool
  pub can_read : Text → Bool
  pub can_chown : Text → Bool
  pub can_chmod : Text → Bool
  pub can_access_dir : Bool
  pub can_mkpath : Bool
  pub can_chown_dir : Bool
  pub ini_entries : Text → List Entry

-- The files of SP_USER_DB_DIR in the order of `readdir`; `none`: the directory is not there.
abbrev pub Files : Type 0
Files = Option (List (Text × Text))

unfoldable pub getpwnam : List Passwd → Text → Option Passwd
getpwnam [] name = none
getpwnam (pw ∷ pws) name = if str_eq pw.pw_name name then some pw else getpwnam pws name

-- Opening with "w+" and writing: the file is made or replaced.
unfoldable pub write_file : Text → Text → List (Text × Text) → List (Text × Text)
write_file file content [] = (file, content) ∷ []
write_file file content ((f, c) ∷ fs) =
    if str_eq f file then (f, content) ∷ fs else (f, c) ∷ write_file file content fs

-- The name of a user's file, below SP_USER_DB_DIR; the path fits into PATH_MAX.
abbrev pub file_of : Text → Text
file_of name = name ++ codes ".ini"

abbrev pub header_line : Text → Text
header_line name =
    codes "[identify]" ++ (10 ∷ (codes "name=" ++ (name ++ (10 ∷ (codes "[info]" ++ 10 ∷ [])))))

abbrev pub pair_line : Pair → Text
pair_line p = p.name ++ (b'=' ∷ (p.value ++ 10 ∷ []))

-- `snprintf` into the 4048 bytes of `buf`, then `fwrite` of the length that it returned: a longer
-- text is cut in `buf`, and `fwrite` reads past its end.
unfoldable pub formatted : Text → Option Text
formatted line = if ltb (length line) 4048 then some line else none

unfoldable pub write_infos : List Pair → Option Text
unfolding formatted
write_infos [] = some []
write_infos (p ∷ ps) = do line ← formatted (pair_line p); rest ← write_infos ps; some (line ++ rest)

-- What `_put_user` writes into the file.
unfoldable pub user_text : User → Option Text
unfolding write_infos formatted
user_text user = do
  header ← formatted (header_line user.name)
  infos ← write_infos user.additional
  some (header ++ infos)

module _ (sys : System) where
  -- `_put_user`. When `chown` or `chmod` fails the file stays as "w+" left it: empty.
  unfoldable pub put_user : User → Files → Option (Files × Bool)
  unfolding user_text
  put_user user none = some (none, false)
  put_user user (some fs) =
      let file = file_of user.name in
      let empty = some (write_file file [] fs) in
      let written : Option (Files × Bool) = elim (user_text user) [
        | none ↦ none
        | some content ↦ some (some (write_file file content fs), true)
      ] in
      let owned : Option (Files × Bool) =
        if not (sys.can_chown file && sys.can_chmod file) then some (empty, false) else written in
      let checked : Option (Files × Bool) = elim (getpwnam sys.passwd user.name) [
        | none ↦ none
        | some pw ↦ owned
      ] in
      if not (sys.can_write file) then some (some fs, false) else checked

  -- `_load_ini_parse`: `user.name` may still be NULL. The value that it returns is not read.
  unfoldable pub load_ini_parse : Option Text × List Pair → Entry → Option Text × List Pair
  load_ini_parse (name, pairs) e =
      if str_eq e.in_section (codes "identify")
      then (if str_eq e.name (codes "name") then (some e.value, pairs) else (name, pairs))
      else if str_eq e.in_section (codes "info")
      then (name, pairs ++ record { value = e.value; name = e.name } ∷ [])
      else (name, pairs)

  unfoldable pub ini_parse_file : Option Text × List Pair → List Entry → Option Text × List Pair
  unfolding load_ini_parse
  ini_parse_file acc [] = acc
  ini_parse_file acc (e ∷ es) = ini_parse_file (load_ini_parse acc e) es

  -- The user is added if the file names one, with an account, that no file before it named.
  unfoldable pub add_loaded : Option Text × List Pair → List User → List User × Bool
  add_loaded (none, pairs) us = (us, false)
  add_loaded (some name, pairs) us =
      if not (is_some (getpwnam sys.passwd name))
      then (us, false)
      else if is_some (user_find name us)
      then (us, false)
      else (us ++ record { name = name; additional = pairs } ∷ [], true)

  unfoldable pub load_file : Text × Text → List User → List User × Bool
  unfolding ini_parse_file add_loaded
  load_file (file, content) us =
      let loaded = add_loaded (ini_parse_file (none, []) (sys.ini_entries content)) us in
      if not (sys.can_read file) then (us, false) else loaded

  -- `len > S_INI && !strncmp (filename + len - S_INI, ".ini", S_INI)`
  unfoldable pub has_ini_suffix : Text → Bool
  has_ini_suffix file = ltb 4 (length file) && str_eq (drop (length file - 4) file) (codes ".ini")

  unfoldable pub load_dir : List (Text × Text) → List User → List User
  unfolding load_file has_ini_suffix
  load_dir [] us = us
  load_dir ((f, c) ∷ fs) us = load_dir fs (if has_ini_suffix f then (load_file (f, c) us).0 else us)

  unfoldable pub load_from_fs : Context → Files → Context × Bool
  unfolding load_dir
  load_from_fs ctx none = (ctx, false)
  load_from_fs ctx (some fs) =
      (record ctx { user = load_dir fs ctx.user; loaded_from_fs = true }, true)

  -- `_prepare_db`: `mkpath` fails on a directory that is there.
  unfoldable pub prepare_db : Files → Files × Bool
  prepare_db files =
      let made : Files = elim files [ none ↦ some [] | some fs ↦ some fs ] in
      let reachable = is_some files && sys.can_access_dir in
      if not (is_some (getpwnam sys.passwd (codes "spawny")))
      then (files, false)
      else if not reachable && (is_some files || not sys.can_mkpath)
      then (files, false)
      else (made, sys.can_chown_dir)

  -- `_list_users`
  unfoldable pub list_users : Option (List Text)
  list_users = if sys.can_list then some (map (λ pw. pw.pw_name) sys.passwd) else none
