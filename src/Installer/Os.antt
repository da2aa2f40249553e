-- ===== src/Installer/Os.antt =====
-- What the installer asks of the operating system: files under their paths. The system may refuse
-- any call; what a refused call leaves behind is its own.
pub mod Reliable
use gopher_cni.Prelude.{ℕ, Bool, true, false, Option, none, some, if◌then◌else◌, Result, ok, err}
use gopher_cni.Go.Text.{Text, codes, text_eq}
use gopher_cni.Actions.{Action}

-- A file: its bytes, of which a socket has none, and its permissions.
pub record File : Type 0 where
  pub content : Text
  pub mode : ℕ

abbrev pub Files : Type 0
Files = Text → Option File

abbrev pub put : Text → File → Files → Files
put path f files q = if text_eq path q then some f else files q

abbrev pub drop : Text → Files → Files
drop path files q = if text_eq path q then none else files q

pub data OsCall : Type 0 where
  stat open_file read_file remove_file mkdir_all create sync listen : Text → OsCall
  copy : Text → Text → OsCall
  chmod : Text → ℕ → OsCall
  write_file : Text → Text → ℕ → OsCall

-- Whether a call is refused, what a refused call leaves, and the permissions that a new file gets
-- for those asked for.
pub record Os : Type 0 where
  pub refuses : Files → OsCall → Bool
  pub leaves : Files → OsCall → Files
  pub masked : ℕ → ℕ

pub data OsError : Type 0 where
  refused : OsCall → OsError
  no_such_file : Text → OsError
  address_in_use : Text → OsError

abbrev pub Io : Type 0 → Type 0
Io A = Action OsError Files A

module _ (os : Os) where
  -- utils.FileExists
  unfoldable pub file_exists : Text → Files → Bool
  file_exists path files =
      if os.refuses files (stat path)
      then false
      else elim (files path) [ none ↦ false | some f ↦ true ]

  abbrev content_of : Text → Files → Option File → Result OsError Text × Files
  content_of path files none = (err (no_such_file path), files)
  content_of path files (some f) = (ok f.content, files)

  -- os.ReadFile
  unfoldable pub read : Text → Io Text
  read path files =
      if os.refuses files (read_file path)
      then (err (refused (read_file path)), os.leaves files (read_file path))
      else content_of path files (files path)

  -- The permissions of a file that is written: its own, if it is there.
  abbrev pub kept_mode : ℕ → Option File → ℕ
  kept_mode mode none = os.masked mode
  kept_mode mode (some f) = f.mode

  abbrev written : Text → Text → ℕ → Files → Files
  written path content mode files =
      put path (record { content = content; mode = kept_mode mode (files path) }) files

  -- os.WriteFile
  unfoldable pub write : Text → Text → ℕ → Io (Unit {0})
  write path content mode files =
      if os.refuses files (write_file path content mode)
      then (
        err (refused (write_file path content mode)),
        os.leaves files (write_file path content mode),
      )
      else (ok tt, written path content mode files)

  abbrev removed : Text → Files → Option File → Result OsError (Unit {0}) × Files
  removed path files none = (err (no_such_file path), files)
  removed path files (some f) = (ok tt, drop path files)

  -- os.Remove
  unfoldable pub remove : Text → Io (Unit {0})
  remove path files =
      if os.refuses files (remove_file path)
      then (err (refused (remove_file path)), os.leaves files (remove_file path))
      else removed path files (files path)

  -- a call that changes no file when it succeeds: os.MkdirAll, (*File).Sync
  unfoldable pub ask : OsCall → Io (Unit {0})
  ask c files = if os.refuses files c then (err (refused c), os.leaves files c) else (ok tt, files)

  abbrev opened : Text → Files → Option File → Result OsError (Unit {0}) × Files
  opened path files none = (err (no_such_file path), files)
  opened path files (some f) = (ok tt, files)

  -- os.Open
  unfoldable pub open_source : Text → Io (Unit {0})
  open_source path files =
      if os.refuses files (open_file path)
      then (err (refused (open_file path)), os.leaves files (open_file path))
      else opened path files (files path)

  -- os.Create: the file, cut to nothing
  unfoldable pub create_file : Text → Io (Unit {0})
  create_file path files =
      if os.refuses files (create path)
      then (err (refused (create path)), os.leaves files (create path))
      else (ok tt, written path (codes "") 438 files)

  abbrev copied : Text → Files → Option File → Option File → Files
  copied dst files (some s) (some f) = put dst (record f { content = s.content }) files
  copied dst files _ _ = files

  -- io.Copy between the files that are open
  unfoldable pub copy_contents : Text → Text → Io (Unit {0})
  copy_contents src dst files =
      if os.refuses files (copy src dst)
      then (err (refused (copy src dst)), os.leaves files (copy src dst))
      else (ok tt, copied dst files (files src) (files dst))

  abbrev with_mode : Text → ℕ → Files → Option File → Result OsError (Unit {0}) × Files
  with_mode path mode files none = (err (no_such_file path), files)
  with_mode path mode files (some f) = (ok tt, put path (record f { mode = mode }) files)

  -- os.Chmod
  unfoldable pub change_mode : Text → ℕ → Io (Unit {0})
  change_mode path mode files =
      if os.refuses files (chmod path mode)
      then (err (refused (chmod path mode)), os.leaves files (chmod path mode))
      else with_mode path mode files (files path)

  abbrev bound : Text → Files → Option File → Result OsError (Unit {0}) × Files
  bound path files none =
      (ok tt, put path (record { content = codes ""; mode = os.masked 511 }) files)
  bound path files (some f) = (err (address_in_use path), files)

  -- net.Listen("unix", path)
  unfoldable pub listen_unix : Text → Io (Unit {0})
  listen_unix path files =
      if os.refuses files (listen path)
      then (err (refused (listen path)), os.leaves files (listen path))
      else bound path files (files path)
