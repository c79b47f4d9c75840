-- ===== src/PluginStorage/Restart.antt =====
-- A restart reads back the registry that the calls before it have left.
use mathlib.Core.Path.{subst}
use wp_open_aurora.Prelude.{
  ℕ, String, true, false, Option, none, some, List, [], ◌∷◌, ◌++◌, map, ◌==◌, eq_iff, ◌≡◌, refl,
  sym, ap, ◌∙◌, arith, if◌then◌else◌, Map, get, put, delete, has, get-put, get-delete, Option-cases,
  Bool-cases, inl, inr,
}
use wp_open_aurora.PluginStorage.{
  PluginStatus, PluginRegistryEntry, PluginStorageService, Time, date, iso, Json, json_time,
  json_entry, add_entries, load_registry, save_registry, set_plugin_entry, delete_plugin_entry,
  change_entry, set_plugin_status, set_plugin_config,
}

module _ {V : Type 0} where
  -- Every key is the id of its entry and stands once.
  abbrev pub IsRegistry : Map (PluginRegistryEntry V) → Type 0
  IsRegistry [] = Unit
  IsRegistry ((k, e) ∷ m) = (e.id ≡ k) × (has k m ≡ false) × IsRegistry m

  get-append :
      (k j : String) (e : PluginRegistryEntry V) (m : Map (PluginRegistryEntry V))
      → has j (m ++ (k, e) ∷ []) ≡ (if k == j then true else has j m)
  unfolding get
  get-append k j e [] = ground arith
  get-append k j e ((i, f) ∷ m) = ground (arith, get-append k j e m)

  put_fresh :
      (k : String) (e : PluginRegistryEntry V) (m : Map (PluginRegistryEntry V))
      → has k m ≡ false
      → put k e m ≡ m ++ (k, e) ∷ []
  unfolding put get
  put_fresh k e [] h = refl
  put_fresh k e ((j, f) ∷ m) h = ground (arith, put_fresh k e m)

  put_own :
      (k : String) (e : PluginRegistryEntry V) (m : Map (PluginRegistryEntry V))
      → e.id ≡ k
      → has k m ≡ false
      → put e.id e m ≡ m ++ (k, e) ∷ []
  put_own k e m i h = ap (λ j. put j e m) i ∙ put_fresh k e m h

  append_assoc :
      (xs : Map (PluginRegistryEntry V)) (y : String × PluginRegistryEntry V)
      (ys : Map (PluginRegistryEntry V))
      → (xs ++ y ∷ []) ++ ys ≡ xs ++ y ∷ ys
  append_assoc [] y ys = refl
  append_assoc (x ∷ xs) y ys = ground (arith, append_assoc xs y ys)

  append_nil : (xs : Map (PluginRegistryEntry V)) → xs ++ [] ≡ xs
  append_nil [] = refl
  append_nil (x ∷ xs) = ground (arith, append_nil xs)

  -- No key of the second map is one of the first.
  abbrev AreApart : Map (PluginRegistryEntry V) → Map (PluginRegistryEntry V) → Type 0
  AreApart acc m = (j : String) → has j m ≡ true → has j acc ≡ false

  add_entries-values :
      (acc m : Map (PluginRegistryEntry V))
      → IsRegistry m
      → AreApart acc m
      → add_entries acc (map (λ e. e.1) m) ≡ acc ++ m
  unfolding add_entries get
  add_entries-values acc [] r a = sym (append_nil acc)
  add_entries-values acc ((k, e) ∷ m) (i, f, r) a =
      let fresh : has k acc ≡ false = a k (ground (arith, eq_iff k k)) in
      let apart : AreApart (acc ++ (k, e) ∷ []) m =
        λ j h. ground (arith, get-append k j e acc, a j, eq_iff k j) in
      ap (λ x. add_entries x (map (λ e. e.1) m)) (put_own k e acc i fresh)
      ∙ add_entries-values (acc ++ (k, e) ∷ []) m r apart
      ∙ append_assoc acc (k, e) m

  -- The map with what JSON makes of its entries.
  abbrev pub through_json : Json V → Map (PluginRegistryEntry V) → Map (PluginRegistryEntry V)
  through_json json [] = []
  through_json json ((k, e) ∷ m) = (k, json_entry json e) ∷ through_json json m

  -- What a restart finds is what JSON makes of the map.
  abbrev pub IsSynced : Json V → PluginStorageService V → Type 0
  IsSynced json s = (load_registry json s.file).registry ≡ through_json json s.registry

  has-through_json :
      (json : Json V) (k : String) (m : Map (PluginRegistryEntry V))
      → has k (through_json json m) ≡ has k m
  unfolding get
  has-through_json json k [] = refl
  has-through_json json k ((j, e) ∷ m) = ground (arith, has-through_json json k m)

  through_json-IsRegistry :
      (json : Json V) (m : Map (PluginRegistryEntry V))
      → IsRegistry m
      → IsRegistry (through_json json m)
  unfolding json_entry
  through_json-IsRegistry json [] r = tt
  through_json-IsRegistry json ((k, e) ∷ m) (i, h, r) =
      (i, has-through_json json k m ∙ h, through_json-IsRegistry json m r)

  values-through_json :
      (json : Json V) (m : Map (PluginRegistryEntry V))
      → map (json_entry json) (map (λ e. e.1) m) ≡ map (λ e. e.1) (through_json json m)
  values-through_json json [] = refl
  values-through_json json ((k, e) ∷ m) =
      ap (λ es. json_entry json e ∷ es) (values-through_json json m)

  put-through_json :
      (json : Json V) (k : String) (e : PluginRegistryEntry V) (m : Map (PluginRegistryEntry V))
      → through_json json (put k e m) ≡ put k (json_entry json e) (through_json json m)
  unfolding put
  put-through_json json k e [] = refl
  put-through_json json k e ((j, f) ∷ m) = elim (Bool-cases (j == k)) [
    | inl q ↦ rw (put, q) refl
    | inr q ↦ rw (put, q) (ap (λ x. (j, json_entry json f) ∷ x) (put-through_json json k e m))
  ]

  json_entry-again :
      (json : Json V) (e : PluginRegistryEntry V)
      → ((c : Map V) → json.json_config (json.json_config c) ≡ json.json_config c)
      → json_entry json (json_entry json e) ≡ json_entry json e
  unfolding json_entry json_time
  json_entry-again json e h =
      rw (h e.config, time_again e.installed_at, time_again e.updated_at) refl
    where
      time_again : (t : Time) → json_time json (json_time json t) ≡ json_time json t
      time_again (date t) = refl
      time_again (iso t) = refl

  add_entries-through_json :
      (json : Json V) (acc : Map (PluginRegistryEntry V)) (es : List (PluginRegistryEntry V))
      → ((c : Map V) → json.json_config (json.json_config c) ≡ json.json_config c)
      → through_json json acc ≡ acc
      → through_json json (add_entries acc (map (json_entry json) es))
        ≡ add_entries acc (map (json_entry json) es)
  unfolding add_entries
  add_entries-through_json json acc [] h a = a
  add_entries-through_json json acc (e ∷ es) h a =
      let x = json_entry json e in
      add_entries-through_json json (put x.id x acc) es h
        (put-through_json json x.id x acc ∙ rw (json_entry-again json e h, a) refl)

  put-IsRegistry :
      (k : String) (e : PluginRegistryEntry V) (m : Map (PluginRegistryEntry V))
      → e.id ≡ k
      → IsRegistry m
      → IsRegistry (put k e m)
  unfolding put get
  put-IsRegistry k e [] i r = (i, refl, tt)
  put-IsRegistry k e ((j, f) ∷ m) i (q, h, r) =
      ground (arith, put-IsRegistry k e m i r, get-put k j e m, eq_iff j k, eq_iff k j)

  delete-IsRegistry :
      (k : String) (m : Map (PluginRegistryEntry V)) → IsRegistry m → IsRegistry (delete k m)
  unfolding delete
  delete-IsRegistry k [] r = tt
  delete-IsRegistry k ((j, f) ∷ m) (q, h, r) =
      ground (arith, delete-IsRegistry k m r, get-delete k j m)

  get-IsRegistry :
      (k : String) (m : Map (PluginRegistryEntry V)) (e : PluginRegistryEntry V)
      → get k m ≡ some e
      → IsRegistry m
      → e.id ≡ k
  unfolding get
  get-IsRegistry k [] e g r = ground arith
  get-IsRegistry k ((j, f) ∷ m) e g (q, h, r) = ground (arith, get-IsRegistry k m e, eq_iff j k)

  pub save-IsSynced :
      (json : Json V) (s : PluginStorageService V)
      → IsRegistry s.registry
      → IsSynced json (save_registry true s)
  unfolding save_registry load_registry get
  save-IsSynced json s r =
      ap (add_entries []) (values-through_json json s.registry)
      ∙ add_entries-values [] (through_json json s.registry)
          (through_json-IsRegistry json s.registry r) (λ j h. refl)

-- The calls that write the registry.
pub data StorageCall (V : Type 0) : Type 0 where
  sets_entry : ℕ → PluginRegistryEntry V → StorageCall V
  deletes_entry : String → StorageCall V
  sets_status : ℕ → String → PluginStatus → StorageCall V
  sets_config : ℕ → String → Map V → StorageCall V

module _ {V : Type 0} where
  abbrev pub perform : StorageCall V → PluginStorageService V → PluginStorageService V
  perform (StorageCall.sets_entry now e) = set_plugin_entry now true e
  perform (StorageCall.deletes_entry id) = delete_plugin_entry true id
  perform (StorageCall.sets_status now id status) = set_plugin_status now true id status
  perform (StorageCall.sets_config now id config) = set_plugin_config now true id config

  abbrev pub perform_all : List (StorageCall V) → PluginStorageService V → PluginStorageService V
  perform_all [] s = s
  perform_all (c ∷ cs) s = perform_all cs (perform c s)

  abbrev IsSound : Json V → PluginStorageService V → Type 0
  IsSound json s = IsRegistry s.registry × IsSynced json s

  save-IsSound :
      (json : Json V) (m : Map (PluginRegistryEntry V)) (s : PluginStorageService V)
      → IsRegistry m
      → IsSound json (save_registry true (record s { registry = m }))
  unfolding save_registry
  save-IsSound json m s r = (r, save-IsSynced json (record s { registry = m }) r)

  change_entry-some :
      (f : PluginRegistryEntry V → PluginRegistryEntry V) (id : String) (s : PluginStorageService V)
      (x : PluginRegistryEntry V)
      → get id s.registry ≡ some x
      → change_entry true f id s
        ≡ save_registry true (record s { registry = put id (f x) s.registry })
  unfolding change_entry
  change_entry-some f id s x e = ground (arith, e)

  change_entry-none :
      (f : PluginRegistryEntry V → PluginRegistryEntry V) (id : String) (s : PluginStorageService V)
      → get id s.registry ≡ none
      → change_entry true f id s ≡ s
  unfolding change_entry
  change_entry-none f id s e = ground (arith, e)

  change_entry-IsSound :
      (json : Json V) (f : PluginRegistryEntry V → PluginRegistryEntry V) (id : String)
      (s : PluginStorageService V)
      → ((e : PluginRegistryEntry V) → (f e).id ≡ e.id)
      → IsSound json s
      → IsSound json (change_entry true f id s)
  change_entry-IsSound json f id s k w = elim (Option-cases (get id s.registry)) [
    | inl e ↦ subst (λ x. IsSound json x) (sym (change_entry-none f id s e)) w
    | inr (x, e) ↦
        subst (λ y. IsSound json y) (sym (change_entry-some f id s x e))
          (save-IsSound json (put id (f x) s.registry) s
            (put-IsRegistry id (f x) s.registry (k x ∙ get-IsRegistry id s.registry x e w.0) w.0))
  ]

  perform-IsSound :
      (json : Json V) (c : StorageCall V) (s : PluginStorageService V)
      → IsSound json s
      → IsSound json (perform c s)
  unfolding set_plugin_entry delete_plugin_entry set_plugin_status set_plugin_config
  perform-IsSound json (StorageCall.sets_entry now e) s w =
      save-IsSound json _ s
        (put-IsRegistry e.id (record e { updated_at = date now }) s.registry refl w.0)
  perform-IsSound json (StorageCall.deletes_entry id) s w =
      save-IsSound json _ s (delete-IsRegistry id s.registry w.0)
  perform-IsSound json (StorageCall.sets_status now id status) s w =
      change_entry-IsSound json _ id s (λ e. refl) w
  perform-IsSound json (StorageCall.sets_config now id config) s w =
      change_entry-IsSound json _ id s (λ e. refl) w

  perform_all-IsSound :
      (json : Json V) (cs : List (StorageCall V)) (s : PluginStorageService V)
      → IsSound json s
      → IsSound json (perform_all cs s)
  perform_all-IsSound json [] s w = w
  perform_all-IsSound json (c ∷ cs) s w =
      perform_all-IsSound json cs (perform c s) (perform-IsSound json c s w)

  add_entries-IsRegistry :
      (m : Map (PluginRegistryEntry V)) (es : List (PluginRegistryEntry V))
      → IsRegistry m
      → IsRegistry (add_entries m es)
  unfolding add_entries
  add_entries-IsRegistry m [] r = r
  add_entries-IsRegistry m (e ∷ es) r =
      add_entries-IsRegistry (put e.id e m) es (put-IsRegistry e.id e m refl r)

  load_registry-IsSound :
      (json : Json V) (file : Option (List (PluginRegistryEntry V)))
      → ((c : Map V) → json.json_config (json.json_config c) ≡ json.json_config c)
      → IsSound json (load_registry json file)
  unfolding load_registry
  load_registry-IsSound json none h = (tt, refl)
  load_registry-IsSound json (some es) h = (
    add_entries-IsRegistry [] (map (json_entry json) es) tt,
    sym (add_entries-through_json json [] es h refl),
  )

  -- A restart after any calls, none of whose writes fails, reads back what JSON makes of the registry
  -- that they have left, under the same keys in the same order: the times as texts, and the
  -- configurations without what JSON cannot write. The service has been started from a file, or from
  -- none, before; what JSON makes of a configuration that it has made stays the same.
  pub load_registry-perform_all :
      (json : Json V) (cs : List (StorageCall V)) (file : Option (List (PluginRegistryEntry V)))
      → ((c : Map V) → json.json_config (json.json_config c) ≡ json.json_config c)
      → (load_registry json (perform_all cs (load_registry json file)).file).registry
        ≡ through_json json (perform_all cs (load_registry json file)).registry
  load_registry-perform_all json cs file h =
      (perform_all-IsSound json cs (load_registry json file) (load_registry-IsSound json file h)).1
