-- ===== src/Installer/Os/Reliable.antt =====
-- The calls on a system that refuses none.
use gopher_cni.Go.Text.{Text, codes}
use gopher_cni.Installer.Os.{
  File, Files, Os, OsCall, ask, change_mode, chmod, copy, copy_contents, create, create_file, drop,
  file_exists, kept_mode, listen, listen_unix, no_such_file, open_file, open_source, put, read,
  read_file, remove, remove_file, stat, write, write_file,
}
use gopher_cni.Prelude.{
  Bool, Option, Option-cases, err, false, inl, inr, none, ok, refl, some, true, ℕ, ◌≡◌,
}

unfoldable pub IsReliable : Os → Type 0
IsReliable os = (files : Files) (c : OsCall) → os.refuses files c ≡ false

abbrev pub is_there : Option File → Bool
is_there none = false
is_there (some f) = true

module _ (os : Os) (reliable : IsReliable os) where
  pub file_exists_lem :
      (path : Text) (files : Files) → file_exists os path files ≡ is_there (files path)
  unfolding file_exists IsReliable
  file_exists_lem path files = rw (reliable files (stat path)) (there_lem (files path))
    where
      there_lem : (o : Option File) → elim o [ none ↦ false | some f ↦ true ] ≡ is_there o
      there_lem none = refl
      there_lem (some f) = refl

  pub read_lem :
      (path : Text) (files : Files) (f : File)
      → files path ≡ some f
      → read os path files ≡ (ok f.content, files)
  unfolding read IsReliable
  read_lem path files f h = rw (reliable files (read_file path), h)

  -- Reading changes nothing, also where the file is missing.
  pub read-state : (path : Text) (files : Files) → (read os path files).1 ≡ files
  unfolding read IsReliable
  read-state path files = elim (Option-cases (files path)) [
    | inl e ↦ rw (reliable files (read_file path), e)
    | inr (f, e) ↦ rw (reliable files (read_file path), e)
  ]

  pub write_lem :
      (path content : Text) (mode : ℕ) (files : Files)
      → write os path content mode files ≡ (
        ok tt,
        put path (record { content = content; mode = kept_mode os mode (files path) }) files,
      )
  unfolding write IsReliable
  write_lem path content mode files = rw (reliable files (write_file path content mode))

  pub remove_lem :
      (path : Text) (files : Files) (f : File)
      → files path ≡ some f
      → remove os path files ≡ (ok tt, drop path files)
  unfolding remove IsReliable
  remove_lem path files f h = rw (reliable files (remove_file path), h)

  pub ask_lem : (c : OsCall) (files : Files) → ask os c files ≡ (ok tt, files)
  unfolding ask IsReliable
  ask_lem c files = rw (reliable files c)

  pub open_source_lem :
      (path : Text) (files : Files) (f : File)
      → files path ≡ some f
      → open_source os path files ≡ (ok tt, files)
  unfolding open_source IsReliable
  open_source_lem path files f h = rw (reliable files (open_file path), h)

  pub create_file_lem :
      (path : Text) (files : Files)
      → create_file os path files ≡ (
        ok tt,
        put path (record { content = codes ""; mode = kept_mode os 438 (files path) }) files,
      )
  unfolding create_file IsReliable
  create_file_lem path files = rw (reliable files (create path))

  pub copy_contents_lem :
      (src dst : Text) (files : Files) (s f : File)
      → files src ≡ some s
      → files dst ≡ some f
      → copy_contents os src dst files ≡ (ok tt, put dst (record f { content = s.content }) files)
  unfolding copy_contents IsReliable
  copy_contents_lem src dst files s f h k = rw (reliable files (copy src dst), h, k)

  pub change_mode_lem :
      (path : Text) (mode : ℕ) (files : Files) (f : File)
      → files path ≡ some f
      → change_mode os path mode files ≡ (ok tt, put path (record f { mode = mode }) files)
  unfolding change_mode IsReliable
  change_mode_lem path mode files f h = rw (reliable files (chmod path mode), h)

  pub remove-none :
      (path : Text) (files : Files)
      → files path ≡ none
      → remove os path files ≡ (err (no_such_file path), files)
  unfolding remove IsReliable
  remove-none path files h = rw (reliable files (remove_file path), h)

  pub listen_unix_lem :
      (path : Text) (files : Files)
      → files path ≡ none
      → listen_unix os path files
        ≡ (ok tt, put path (record { content = codes ""; mode = os.masked 511 }) files)
  unfolding listen_unix IsReliable
  listen_unix_lem path files h = rw (reliable files (listen path), h)
