-- ===== src/Installer/CniConfig/History.antt =====
-- What the installer's runs, in any number and order, leave of a configuration list on the node:
-- runs that were killed before they took their entry out, and later versions of the plugin among
-- them.
use gopher_cni.Prelude.{◌≡◌, refl, sym, ap, ◌∙◌, subst, true, false, Result, ok}
use gopher_cni.Go.Text.{Text, text_eq}
use gopher_cni.Go.Json.{
  Items, object, array, Fields, get_field, append_item, set_field-set_field, set_field-get_field,
  get_field-set_field_ne,
}
use gopher_cni.Installer.CniConfig.{
  plugins_key, is_ours, remove_cni_plugin_config, insert_cni_plugin_config,
}
use gopher_cni.Installer.CniConfig.Entries.{
  AreObjects, count_ours, others, others_none, count_ours-others, AreObjects-others,
  others-append_item,
}
use gopher_cni.Installer.CniConfig.Laws.{
  IsWf, with_entries, remove_lem, insert_lem, others-IsWf, insert-IsWf,
}

pub ok-injective : {E A : Type 0} (a b : A) → ◌≡◌ {A = Result E A} (ok a) (ok b) → a ≡ b
ok-injective a b h = cc

others-others : (ps : Items) → AreObjects ps → others (others ps) ≡ others ps
others-others ps o = others_none (others ps) (AreObjects-others ps o) (count_ours-others ps)

module _ (config : Fields) (entries : Items) (wf : IsWf config entries) (plugin : Fields)
    (ours : is_ours plugin ≡ true) where
  inserted : Fields
  inserted = with_entries (append_item (others entries) (object plugin)) config

  others-inserted : others (append_item (others entries) (object plugin)) ≡ others entries
  others-inserted =
      others-append_item plugin ours (others entries) ∙ others-others entries wf.are_objects

  -- Into a list of objects without an entry of the plugin, an entry is inserted, and removal then
  -- gives back the configuration as it was.
  pub remove-insert :
      count_ours entries ≡ 0
      → (config' : Fields) × (insert_cni_plugin_config plugin config ≡ ok config')
        × (remove_cni_plugin_config config' ≡ ok config)
  unfolding with_entries inserted
  remove-insert absent =
      let none_ours = others_none entries wf.are_objects absent in
      (
        inserted,
        insert_lem config entries wf plugin,
        remove_lem inserted (append_item (others entries) (object plugin))
              (insert-IsWf config entries wf plugin ours)
            ∙ ap ok (
                set_field-set_field plugins_key _ _ config
                ∙ ap (λ (ps : Items). with_entries ps config) (others-inserted ∙ none_ours)
                ∙ set_field-get_field plugins_key (array entries) config wf.has_entries),
      )

  -- Where one entry at most is the plugin's, an insertion over an earlier one, of the same entry or
  -- of another, gives what it gives on the configuration before: nothing of the earlier one stays.
  pub insert-insert :
      (newer : Fields)
      → (config' : Fields) × (insert_cni_plugin_config plugin config ≡ ok config')
        × (insert_cni_plugin_config newer config' ≡ insert_cni_plugin_config newer config)
  unfolding with_entries inserted
  insert-insert newer = (
    inserted,
    insert_lem config entries wf plugin,
    insert_lem inserted (append_item (others entries) (object plugin))
          (insert-IsWf config entries wf plugin ours) newer
        ∙ ap ok (
            set_field-set_field plugins_key _ _ config
            ∙ ap (λ (ps : Items). with_entries (append_item ps (object newer)) config)
                others-inserted)
        ∙ sym (insert_lem config entries wf newer),
  )

-- One run's change of the configuration.
pub data Step (config config' : Fields) : Type 0 where
  insertion :
      (plugin : Fields)
      → is_ours plugin ≡ true
      → insert_cni_plugin_config plugin config ≡ ok config'
      → Step config config'
  removal : remove_cni_plugin_config config ≡ ok config' → Step config config'

pub data Reach (s : Fields) : Fields → Type 0 where
  start : Reach s s
  next : {t u : Fields} → Reach s t → Step t u → Reach s u

-- What a configuration has kept of an earlier one.
pub record Kept (s : Fields) (before : Items) (t : Fields) : Type 0 where
  pub entries : Items
  pub is_wf : IsWf t entries
  pub others_lem : others entries ≡ others before
  pub other_keys : (j : Text) → text_eq plugins_key j ≡ false → get_field j t ≡ get_field j s

Step-Kept : {s t u : Fields} (before : Items) → Kept s before t → Step t u → Kept s before u
unfolding with_entries
Step-Kept {s} {t} {u} before k (removal h) =
    let same = ok-injective _ _ (sym (remove_lem t k.entries k.is_wf) ∙ h) in
    subst (Kept s before) same (record {
      entries = others k.entries;
      is_wf = others-IsWf t k.entries k.is_wf;
      others_lem = others-others k.entries k.is_wf.are_objects ∙ k.others_lem;
      other_keys = λ j ne. get_field-set_field_ne j plugins_key _ t ne ∙ k.other_keys j ne;
    })
Step-Kept {s} {t} {u} before k (insertion plugin ours h) =
    let same = ok-injective _ _ (sym (insert_lem t k.entries k.is_wf plugin) ∙ h) in
    subst (Kept s before) same (record {
      entries = append_item (others k.entries) (object plugin);
      is_wf = insert-IsWf t k.entries k.is_wf plugin ours;
      others_lem = others-inserted t k.entries k.is_wf plugin ours ∙ k.others_lem;
      other_keys = λ j ne. get_field-set_field_ne j plugins_key _ t ne ∙ k.other_keys j ne;
    })

-- Whatever insertions and removals succeed on a configuration whose plugins are objects, one of
-- them at most the plugin's: this stays so, and the entries of the other plugins and the values of
-- all other keys stay as they were.
pub Reach-Kept : {s t : Fields} (before : Items) → IsWf s before → Reach s t → Kept s before t
Reach-Kept before wf start = record {
  entries = before;
  is_wf = wf;
  others_lem = refl;
  other_keys = λ j ne. refl;
}
Reach-Kept before wf (next r st) = Step-Kept before (Reach-Kept before wf r) st
