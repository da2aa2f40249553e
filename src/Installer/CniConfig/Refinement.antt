-- ===== src/Installer/CniConfig/Refinement.antt =====
-- What the installer's runs promise, apart from how a configuration is kept: the plugin's entry is
-- there or not, and is the one that was inserted last.
use gopher_cni.Go.Json.{
  object, array, Fields, Items, append_item, set_field-get_field, set_field-set_field,
}
use gopher_cni.Installer.CniConfig.{
  is_ours, plugins_key, ConfigError, insert_cni_plugin_config, remove_cni_plugin_config,
}
use gopher_cni.Installer.CniConfig.Entries.{count_ours, others, others-append_item, others_none}
use gopher_cni.Installer.CniConfig.Laws.{IsWf, insert-IsWf, insert_lem, remove_lem, with_entries}
use gopher_cni.Prelude.{
  Option, ap, none, some, subst, sym, true, ◌∙◌, ◌≡◌, [], ◌∷◌, All, List, Result, ok, refl, ◌>>=◌,
}

-- What the installer's runs do to the configuration.
pub data Change : Type 0 where
  inserts : Fields → Change
  removes : Change

-- The code, one change after another.
unfoldable pub change : Change → Fields → Result ConfigError Fields
change (inserts entry) config = insert_cni_plugin_config entry config
change removes config = remove_cni_plugin_config config

unfoldable pub change_all : List Change → Fields → Result ConfigError Fields
unfolding change
change_all [] config = ok config
change_all (x ∷ xs) config = do config' ← change x config; change_all xs config'

-- The abstract state is the plugin's entry, if there is one: an insertion replaces it, whatever it
-- was, and a removal takes it out.
unfoldable pub entry_after : List Change → Option Fields → Option Fields
entry_after [] a = a
entry_after (inserts entry ∷ xs) a = entry_after xs (some entry)
entry_after (removes ∷ xs) a = entry_after xs none

-- What is inserted is an entry of the plugin's.
abbrev pub IsChange : Change → Type 0
IsChange (inserts entry) = is_ours entry ≡ true
IsChange removes = Unit

-- The entries of other plugins with that entry behind them.
unfoldable pub with_entry : Items → Option Fields → Items
with_entry ps none = ps
with_entry ps (some entry) = append_item ps (object entry)

-- The configuration `s`, whose plugins are all others, with an abstract state put in.
unfoldable pub represented : Fields → Items → Option Fields → Fields
unfolding with_entry
represented s ps a = with_entries (with_entry ps a) s

-- the entry of an abstract state is the plugin's
abbrev pub IsEntry : Option Fields → Type 0
IsEntry none = Unit
IsEntry (some entry) = is_ours entry ≡ true

module _ (s : Fields) (ps : Items) (wf : IsWf s ps) (absent : count_ours ps ≡ 0) where
  none_ours : others ps ≡ ps
  none_ours = others_none ps wf.are_objects absent

  represented-none : represented s ps none ≡ s
  unfolding represented with_entry with_entries
  represented-none = set_field-get_field plugins_key (array ps) s wf.has_entries

  represented-IsWf : (a : Option Fields) → IsEntry a → IsWf (represented s ps a) (with_entry ps a)
  unfolding represented with_entry
  represented-IsWf none e = subst (λ (c : Fields). IsWf c ps) (sym represented-none) wf
  represented-IsWf (some entry) e =
      subst
        (λ (qs : Items).
          IsWf (with_entries (append_item qs (object entry)) s) (append_item qs (object entry)))
        none_ours (insert-IsWf s ps wf entry e)

  others-with_entry : (a : Option Fields) → IsEntry a → others (with_entry ps a) ≡ ps
  unfolding with_entry
  others-with_entry none e = none_ours
  others-with_entry (some entry) e = others-append_item entry e ps ∙ none_ours

  change_all-represented :
      (xs : List Change) (a : Option Fields)
      → All IsChange xs
      → IsEntry a
      → change_all xs (represented s ps a) ≡ ok (represented s ps (entry_after xs a))
  unfolding change_all entry_after represented with_entries with_entry
  change_all-represented [] a changes e = refl
  change_all-represented (inserts entry ∷ xs) a changes e =
      let inserted =
        insert_lem (represented s ps a) (with_entry ps a) (represented-IsWf a e) entry
        ∙ ap ok (
            set_field-set_field plugins_key _ _ s
            ∙ ap (λ (qs : Items). with_entries (append_item qs (object entry)) s)
                (others-with_entry a e)) in
      rw inserted (change_all-represented xs (some entry) changes.1 changes.0)
  change_all-represented (removes ∷ xs) a changes e =
      let removed =
        remove_lem (represented s ps a) (with_entry ps a) (represented-IsWf a e)
        ∙ ap ok (
            set_field-set_field plugins_key _ _ s
            ∙ ap (λ (qs : Items). with_entries qs s) (others-with_entry a e)) in
      rw removed (change_all-represented xs none changes.1 tt)

  -- From a configuration whose plugins are objects, none of them the plugin's: every sequence of
  -- insertions of the plugin's entries and of removals succeeds, and the configuration that it
  -- leaves is the first one with the entry of the abstract state after the same sequence behind its
  -- plugins: the last one inserted, if no removal came behind it.
  pub change_all-refines :
      (xs : List Change)
      → All IsChange xs
      → change_all xs s ≡ ok (represented s ps (entry_after xs none))
  change_all-refines xs changes =
      ap (change_all xs) (sym represented-none) ∙ change_all-represented xs none changes tt
