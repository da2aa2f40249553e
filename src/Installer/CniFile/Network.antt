-- ===== src/Installer/CniFile/Network.antt =====
-- getDefaultCNINetwork and the loop of getCNIConfig around it.
use gopher_cni.Go.Order.{sort, sort-All, sort-In, sort-least, text_leb}
use gopher_cni.Go.Text.{text_eq, Text, codes, is_empty}
use gopher_cni.Installer.CniFile.{
  Libcni, await_network, checked_list, conflist_suffix, ends_with, get_default_cni_network, look_at,
}
use gopher_cni.Installer.Kubeconfig.{InstallError, invalid_config_list, no_networks}
use gopher_cni.Installer.Os.{Files}
use gopher_cni.Prelude.{
  All, In, List, Nil-cases, Result, arith, if◌then◌else◌, inl, inr, ok, refl, some, suc, true, zero,
  ℕ, ◌<◌, ◌⊎◌, ◌∙◌, ◌∷◌, ◌≡◌, [], err, false, none, ◌≢◌, Option, Bool-cases, ◌==◌,
}

sort-cons :
    (x : Text) (xs : List Text) → (t : Text) × (rest : List Text) × (sort (x ∷ xs) ≡ t ∷ rest)
sort-cons x xs = elim (Nil-cases (sort (x ∷ xs))) [
  | inl e ↦
      let none_in : All (λ (u : Text). ⊥) (sort (x ∷ xs)) = rw e tt in
      absurd (sort-All (λ (u : Text). ⊥) (x ∷ xs) none_in).0
  | inr h ↦ h
]

-- of names in any order: no other is before this one
abbrev pub IsFirst : List Text → Text → Type 0
IsFirst names t = In t names × All (λ (u : Text). text_leb t u ≡ true) names

-- the files at the n-th look from the i-th one on
abbrev pub slept : (ℕ → Files → Files) → ℕ → ℕ → Files → Files
slept sleep i zero files = files
slept sleep i (suc n) files = slept sleep (suc i) n (sleep i files)

module _ (lib : Libcni) where
  -- What getDefaultCNINetwork is to say of the first file.
  pub data IsVerdict (files : Files) (t : Text) : Result InstallError Text → Type 0 where
    other_suffix : ends_with conflist_suffix t ≡ false → IsVerdict files t (ok (codes ""))
    not_loaded :
        ends_with conflist_suffix t ≡ true
        → lib.conf_list_plugins files t ≡ none
        → IsVerdict files t (err invalid_config_list)
    no_plugins :
        ends_with conflist_suffix t ≡ true
        → lib.conf_list_plugins files t ≡ some 0
        → IsVerdict files t (err no_networks)
    network :
        (n : ℕ)
        → ends_with conflist_suffix t ≡ true
        → lib.conf_list_plugins files t ≡ some (suc n)
        → IsVerdict files t (ok t)

  list-IsVerdict :
      (files : Files) (t : Text) (o : Option ℕ)
      → ends_with conflist_suffix t ≡ true
      → lib.conf_list_plugins files t ≡ o
      → IsVerdict files t (checked_list lib t o)
  unfolding checked_list
  list-IsVerdict files t none list e = not_loaded list e
  list-IsVerdict files t (some zero) list e = no_plugins list e
  list-IsVerdict files t (some (suc n)) list e =
      let full : (suc n == 0) ≡ false = ground arith in rw full (network n list e)

  first-IsVerdict :
      (files : Files) (t : Text)
      → IsVerdict files t (
          if ends_with conflist_suffix t
          then checked_list lib t (lib.conf_list_plugins files t)
          else ok (codes ""))
  first-IsVerdict files t = elim (Bool-cases (ends_with conflist_suffix t)) [
    | inl list ↦ rw list (list-IsVerdict files t (lib.conf_list_plugins files t) list refl)
    | inr other ↦ rw other (other_suffix other)
  ]

  -- Where the CNI library lists files, the look takes one of them that no other is before in the
  -- order of names. Without the suffix of a configuration list no network is found, whatever the
  -- later files are; with it, a list that the library cannot load is the error of an invalid list,
  -- one without plugins the error of a list without networks, and any other is the network.
  pub get_default_cni_network-least :
      (dir x : Text) (xs : List Text) (files : Files)
      → lib.conf_files files dir ≡ some (x ∷ xs)
      → (t : Text) × In t (x ∷ xs)
        × All (λ (u : Text). text_leb t u ≡ true) (x ∷ xs)
        × IsVerdict files t (get_default_cni_network lib dir files)
  unfolding get_default_cni_network
  get_default_cni_network-least dir x xs files e =
      let (t, rest, s) = sort-cons x xs in
      (
        t,
        sort-In (x ∷ xs) t rest s,
        sort-least (x ∷ xs) t rest s,
        rw (e, s) (first-IsVerdict files t),
      )

  abbrev pub nth_network : (ℕ → Files → Files) → Text → ℕ → ℕ → Files → Result InstallError Text
  nth_network sleep dir i n files = get_default_cni_network lib dir (slept sleep i n files)

  await_network-wait :
      (sleep : ℕ → Files → Files) (dir : Text) (fuel i : ℕ) (files : Files)
      → get_default_cni_network lib dir files ≡ ok (codes "")
      → await_network lib sleep dir i (suc fuel) files
        ≡ await_network lib sleep dir (suc i) fuel (sleep i files)
  unfolding await_network look_at codes is_empty
  await_network-wait sleep dir fuel i files e = rw (e, await_network) refl

  await_network-stop :
      (sleep : ℕ → Files → Files) (dir : Text) (fuel i : ℕ) (files : Files)
      → (r : Result InstallError Text) → r ≢ ok (codes "")
      → get_default_cni_network lib dir files ≡ r
      → await_network lib sleep dir i (suc fuel) files ≡ (r, files)
  unfolding await_network look_at codes is_empty
  await_network-stop sleep dir fuel i files (err e) real h = rw (h, await_network) refl
  await_network-stop sleep dir fuel i files (ok []) real h = absurd (real refl)
  await_network-stop sleep dir fuel i files (ok (c ∷ s)) real h = rw (h, await_network) refl

  -- the wait, by what the looks answer
  pub await_network-stops :
      (sleep : ℕ → Files → Files) (dir : Text) (n fuel i : ℕ) (files : Files)
      → (r : Result InstallError Text) → n < fuel
      → r ≢ ok (codes "")
      → ((k : ℕ) → k < n → nth_network sleep dir i k files ≡ ok (codes ""))
      → nth_network sleep dir i n files ≡ r
      → await_network lib sleep dir i fuel files ≡ (r, slept sleep i n files)
  await_network-stops sleep dir n zero i files r enough real waits stops = absurd (omega arith)
  await_network-stops sleep dir zero (suc fuel) i files r enough real waits stops =
      await_network-stop sleep dir fuel i files r real stops
  await_network-stops sleep dir (suc n) (suc fuel) i files r enough real waits stops =
      await_network-wait sleep dir fuel i files (waits 0 (omega arith))
      ∙ await_network-stops sleep dir n fuel (suc i) (sleep i files) r (omega arith) real
          (λ k lt. waits (suc k) (omega arith)) stops

  -- The directory lists nothing, or a file without the suffix of a configuration list first.
  unfoldable pub IsIdle : Files → Text → Type 0
  IsIdle files dir =
      (lib.conf_files files dir ≡ some [])
      ⊎ ((x : Text) × (xs : List Text) × (lib.conf_files files dir ≡ some (x ∷ xs))
          × ((t : Text) → IsFirst (x ∷ xs) t → ends_with conflist_suffix t ≡ false))

  IsVerdict-other :
      (files : Files) (t : Text) (r : Result InstallError Text)
      → IsVerdict files t r
      → ends_with conflist_suffix t ≡ false
      → r ≡ ok (codes "")
  IsVerdict-other files t r (other_suffix e) h = refl
  IsVerdict-other files t r (not_loaded list e) h = cc
  IsVerdict-other files t r (no_plugins list e) h = cc
  IsVerdict-other files t r (network n list e) h = cc

  unnamed : (t : Text) → ends_with conflist_suffix t ≡ true → t ≢ codes ""
  unfolding ends_with text_eq codes
  unnamed [] h e = cc
  unnamed (c ∷ s) h e = cc

  IsVerdict-list :
      (files : Files) (t : Text) (r : Result InstallError Text)
      → IsVerdict files t r
      → ends_with conflist_suffix t ≡ true
      → r ≢ ok (codes "")
  IsVerdict-list files t r (other_suffix e) h same = cc
  IsVerdict-list files t r (not_loaded list e) h same = cc
  IsVerdict-list files t r (no_plugins list e) h same = cc
  IsVerdict-list files t r (network n list e) h same = unnamed t h cc

  IsIdle-none :
      (files : Files) (dir : Text)
      → IsIdle files dir
      → get_default_cni_network lib dir files ≡ ok (codes "")
  unfolding IsIdle get_default_cni_network sort
  IsIdle-none files dir (inl e) = rw e refl
  IsIdle-none files dir (inr (x, xs, e, other)) =
      let (t, member, least, verdict) = get_default_cni_network-least dir x xs files e in
      IsVerdict-other files t (get_default_cni_network lib dir files) verdict
        (other t (member, least))

  -- The wait ends: where at each of the first n looks the directory lists nothing, or first, in the
  -- order of names, a file without the suffix of a configuration list, and at the look after them
  -- first a file with the suffix, then with fuel beyond n the loop returns what getDefaultCNINetwork
  -- is to say of this file: its name, or the error of an invalid list or of a list without networks;
  -- and the files are those of that look, as the sleeps have left them.
  pub await_network-returns :
      (sleep : ℕ → Files → Files) (dir : Text) (n fuel i : ℕ) (files : Files)
      → (x : Text) (xs : List Text) → n < fuel
      → ((k : ℕ) → k < n → IsIdle (slept sleep i k files) dir)
      → lib.conf_files (slept sleep i n files) dir ≡ some (x ∷ xs)
      → ((t : Text) → IsFirst (x ∷ xs) t → ends_with conflist_suffix t ≡ true)
      → (t : Text) × (r : Result InstallError Text) × IsFirst (x ∷ xs) t
        × IsVerdict (slept sleep i n files) t r
        × (await_network lib sleep dir i fuel files ≡ (r, slept sleep i n files))
  await_network-returns sleep dir n fuel i files x xs enough idle listed list =
      let now = slept sleep i n files in
      let r = get_default_cni_network lib dir now in
      let (t, member, least, verdict) = get_default_cni_network-least dir x xs now listed in
      let real = IsVerdict-list now t r verdict (list t (member, least)) in
      let waits = λ (k : ℕ) (lt : k < n). IsIdle-none (slept sleep i k files) dir (idle k lt) in
      (
        t,
        r,
        (member, least),
        verdict,
        await_network-stops sleep dir n fuel i files r enough real waits refl,
      )
