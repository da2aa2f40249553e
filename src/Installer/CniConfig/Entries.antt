-- ===== src/Installer/CniConfig/Entries.antt =====
-- The lists of plugins that removal and insertion leave.
use gopher_cni.Prelude.{
  ℕ, ◌+◌, ◌≤◌, ◌≡◌, refl, ap, sym, inl, inr, true, arith, Bool-cases, if◌then◌else◌, ok,
}
use gopher_cni.Go.Json.{
  null, boolean, float, string, array, object, Items, nil, cons, Fields, append_item,
}
use gopher_cni.Installer.CniConfig.{is_ours, remove_first}

-- Every entry is an object.
unfoldable pub AreObjects : Items → Type 0
AreObjects nil = Unit
AreObjects (cons (object p) ps) = AreObjects ps
AreObjects (cons _ ps) = ⊥

-- How many entries are the plugin's.
unfoldable pub count_ours : Items → ℕ
count_ours nil = 0
count_ours (cons (object p) ps) = (if is_ours p then 1 else 0) + count_ours ps
count_ours (cons _ ps) = count_ours ps

-- The entries of other plugins, in order.
unfoldable pub others : Items → Items
others nil = nil
others (cons (object p) ps) =
    let rest = others ps in if is_ours p then rest else cons (object p) rest
others (cons q ps) = cons q (others ps)

-- Without an entry of the plugin there is nothing to leave out.
pub others_none : (ps : Items) → AreObjects ps → count_ours ps ≡ 0 → others ps ≡ ps
unfolding AreObjects count_ours others
others_none nil o c = refl
others_none (cons (object p) ps) o c = elim (Bool-cases (is_ours p)) [
  | inl e ↦ absurd (ground (arith, e, c))
  | inr e ↦ rw e (ap (cons (object p)) (others_none ps o (ground (arith, e, c))))
]
others_none (cons null ps) o c = elim o [ ]
others_none (cons (boolean b) ps) o c = elim o [ ]
others_none (cons (float n) ps) o c = elim o [ ]
others_none (cons (string s) ps) o c = elim o [ ]
others_none (cons (array xs) ps) o c = elim o [ ]

-- Where one entry at most is the plugin's, what is left is the others.
pub remove_first-others :
    (ps : Items) → AreObjects ps → count_ours ps ≤ 1 → remove_first ps ≡ ok (others ps)
unfolding remove_first AreObjects count_ours others
remove_first-others nil o c = refl
remove_first-others (cons (object p) ps) o c = elim (Bool-cases (is_ours p)) [
  | inl e ↦ rw e (ap ok (sym (others_none ps o (ground (arith, e, c)))))
  | inr e ↦ rw (e, remove_first-others ps o (ground (arith, e, c)))
]
remove_first-others (cons null ps) o c = elim o [ ]
remove_first-others (cons (boolean b) ps) o c = elim o [ ]
remove_first-others (cons (float n) ps) o c = elim o [ ]
remove_first-others (cons (string s) ps) o c = elim o [ ]
remove_first-others (cons (array xs) ps) o c = elim o [ ]

pub AreObjects-others : (ps : Items) → AreObjects ps → AreObjects (others ps)
unfolding AreObjects others
AreObjects-others nil o = tt
AreObjects-others (cons (object p) ps) o = elim (Bool-cases (is_ours p)) [
  | inl e ↦ rw e (AreObjects-others ps o)
  | inr e ↦ rw e (AreObjects-others ps o)
]
AreObjects-others (cons null ps) o = elim o [ ]
AreObjects-others (cons (boolean b) ps) o = elim o [ ]
AreObjects-others (cons (float n) ps) o = elim o [ ]
AreObjects-others (cons (string s) ps) o = elim o [ ]
AreObjects-others (cons (array xs) ps) o = elim o [ ]

pub count_ours-others : (ps : Items) → count_ours (others ps) ≡ 0
unfolding count_ours others
count_ours-others nil = refl
count_ours-others (cons (object p) ps) = elim (Bool-cases (is_ours p)) [
  | inl e ↦ rw e (count_ours-others ps)
  | inr e ↦ rw (e, e) (omega (arith, count_ours-others ps))
]
count_ours-others (cons null ps) = count_ours-others ps
count_ours-others (cons (boolean b) ps) = count_ours-others ps
count_ours-others (cons (float n) ps) = count_ours-others ps
count_ours-others (cons (string s) ps) = count_ours-others ps
count_ours-others (cons (array xs) ps) = count_ours-others ps

pub AreObjects-append_item :
    (ps : Items) (p : Fields) → AreObjects ps → AreObjects (append_item ps (object p))
unfolding AreObjects append_item
AreObjects-append_item nil p o = tt
AreObjects-append_item (cons (object q) ps) p o = AreObjects-append_item ps p o
AreObjects-append_item (cons null ps) p o = elim o [ ]
AreObjects-append_item (cons (boolean b) ps) p o = elim o [ ]
AreObjects-append_item (cons (float n) ps) p o = elim o [ ]
AreObjects-append_item (cons (string s) ps) p o = elim o [ ]
AreObjects-append_item (cons (array xs) ps) p o = elim o [ ]

module _ (p : Fields) (ours : is_ours p ≡ true) where
  pub count_ours-append_item :
      (ps : Items) → count_ours (append_item ps (object p)) ≡ count_ours ps + 1
  unfolding count_ours append_item
  count_ours-append_item nil = rw ours refl
  count_ours-append_item (cons (object q) ps) = omega (arith, count_ours-append_item ps)
  count_ours-append_item (cons null ps) = count_ours-append_item ps
  count_ours-append_item (cons (boolean b) ps) = count_ours-append_item ps
  count_ours-append_item (cons (float n) ps) = count_ours-append_item ps
  count_ours-append_item (cons (string s) ps) = count_ours-append_item ps
  count_ours-append_item (cons (array xs) ps) = count_ours-append_item ps

  -- An entry of the plugin at the end is left out of the others.
  pub others-append_item : (ps : Items) → others (append_item ps (object p)) ≡ others ps
  unfolding others append_item
  others-append_item nil = rw ours refl
  others-append_item (cons (object q) ps) = elim (Bool-cases (is_ours q)) [
    | inl e ↦ rw e (others-append_item ps)
    | inr e ↦ rw e (ap (cons (object q)) (others-append_item ps))
  ]
  others-append_item (cons null ps) = ap (cons null) (others-append_item ps)
  others-append_item (cons (boolean b) ps) = ap (cons (boolean b)) (others-append_item ps)
  others-append_item (cons (float n) ps) = ap (cons (float n)) (others-append_item ps)
  others-append_item (cons (string s) ps) = ap (cons (string s)) (others-append_item ps)
  others-append_item (cons (array xs) ps) = ap (cons (array xs)) (others-append_item ps)
