-- ===== src/Server/Runtime/Ids.antt =====
-- server.rs: the ids that `build_runtime` counts and the ids that the registry gives are the same.
use mathlib.Core.Path.{subst}
use webpipe.Base.{
  ℕ, suc, ◌<◌, String, Bool, true, false, some, List, [], ◌∷◌, ◌≡◌, refl, sym, ap, ◌∙◌, ◌==◌,
  lookup, insert, lookup-insert, nat_eq, if◌then◌else◌, arith, length, eq_iff, All,
}
use webpipe.Executor.Modules.{
  ModuleRegistry, lookup_id, get_module, get_id_by_path, register, empty,
}
use webpipe.Loader.Tree.{ModuleInfo, Registry}
use webpipe.Server.Modules.{number_paths}
use webpipe.Server.Runtime.{resolve_imports, register_modules}
use webpipe.Server.Runtime.Numbers.{
  lookup_id-insert_id, Below, length-insert_id, insert_id-Below, described, Known,
}

module _ (tree : Registry) (ids : List (String × ℕ)) where
  -- What is registered of a path is its metadata; ids are counted from nought.
  Registered : ModuleRegistry → Type 0
  Registered r =
      Below (length r.modules) r.modules
      × ((p : String) (i : ℕ)
          → get_id_by_path r p ≡ some i
          → (i < length r.modules)
            × ((info : ModuleInfo)
                → lookup p tree ≡ some info
                → get_module r i ≡ some (described ids i p info)))

  module _ (r : ModuleRegistry) (path : String) (info : ModuleInfo) (h : Registered r)
      (known : lookup path tree ≡ some info) where
    next : ModuleRegistry
    next = (register r path (resolve_imports ids info.imports)).0

    length-next : length next.modules ≡ suc (length r.modules)
    unfolding next register Registered
    length-next =
        length-insert_id (length r.modules) (described ids (length r.modules) path info) r.modules
          h.0

    next-Registered : Registered next
    unfolding Registered next register get_id_by_path get_module
    next-Registered = (
      subst (λ n. Below n next.modules) (sym length-next)
          (insert_id-Below (length r.modules) (described ids (length r.modules) path info) r.modules
            h.0),
      told,
    )
      where
        Told : String → ℕ → Type 0
        Told p i =
            (i < length next.modules)
            × ((info' : ModuleInfo)
                → lookup p tree ≡ some info'
                → lookup_id i next.modules ≡ some (described ids i p info'))

        modules_next :
            (i : ℕ)
            → lookup_id i next.modules ≡ (
                if nat_eq (length r.modules) i
                then some (described ids (length r.modules) path info)
                else lookup_id i r.modules)
        modules_next i = lookup_id-insert_id (length r.modules) i _ r.modules

        just_now : (p : String) (i : ℕ) → path ≡ p → length r.modules ≡ i → Told p i
        just_now p i same same_id = (
          ground (arith, same_id, length-next),
          λ info' k.
              let here : nat_eq (length r.modules) i ≡ true = ground (arith, same_id) in
              let same_info : info ≡ info' = cc (known, k, same) in
              modules_next i ∙ rw here (cc (same, same_id, same_info)),
        )

        before : (p : String) (i : ℕ) → get_id_by_path r p ≡ some i → Told p i
        before p i e =
            let (below, told_before) = h.1 p i e in
            (
              ground (arith, below, length-next),
              λ info' k.
                  let other : nat_eq (length r.modules) i ≡ false = ground (arith, below) in
                  modules_next i ∙ rw other (told_before info' k),
            )

        told :
            (p : String) (i : ℕ)
            → lookup p (insert path (length r.modules) r.path_to_id) ≡ some i
            → Told p i
        told p i e =
            placed (path == p) refl (sym (lookup-insert r.path_to_id path p (length r.modules)) ∙ e)
          where
            placed :
                (b : Bool)
                → (path == p) ≡ b
                → (if b then some (length r.modules) else lookup p r.path_to_id) ≡ some i
                → Told p i
            placed true u e = just_now p i (ground (arith, u, eq_iff path p)) (ground (arith, e))
            placed false u e = before p i e

  register_modules-Registered :
      (paths : List String) (r : ModuleRegistry)
      → All (Known tree) paths
      → Registered r
      → Registered (register_modules tree ids paths r)
  unfolding register_modules next
  register_modules-Registered [] r known h = h
  register_modules-Registered (path ∷ paths) r ((info, e), known) h = rw e (
      register_modules-Registered paths (next r path info h e) known
        (next-Registered r path info h e))

  -- The registry counts as `build_runtime` does.
  register_modules-number_paths :
      (paths : List String) (r : ModuleRegistry)
      → All (Known tree) paths
      → Registered r
      → (register_modules tree ids paths r).path_to_id
        ≡ number_paths (length r.modules) paths r.path_to_id
  unfolding register_modules number_paths next register
  register_modules-number_paths [] r known h = refl
  register_modules-number_paths (path ∷ paths) r ((info, e), known) h =
      let later =
        register_modules-number_paths paths (next r path info h e) known
          (next-Registered r path info h e) in
      rw (register_modules, e)
        (later
          ∙ ap (λ n. number_paths n paths (insert path (length r.modules) r.path_to_id))
              (length-next r path info h e))

  -- On all modules, from the empty registry.
  pub registered_path :
      (paths : List String) (p : String) (i : ℕ)
      → All (Known tree) paths
      → lookup p (number_paths 0 paths []) ≡ some i
      → get_id_by_path (register_modules tree ids paths empty) p ≡ some i
  unfolding Registered get_id_by_path lookup
  registered_path paths p i known h =
      ap (lookup p)
        (register_modules-number_paths paths empty known (tt, λ q j e. ground (arith, e)))
      ∙ h

  pub registered_module :
      (paths : List String) (p : String) (i : ℕ) (info : ModuleInfo)
      → All (Known tree) paths
      → lookup p tree ≡ some info
      → lookup p (number_paths 0 paths []) ≡ some i
      → get_module (register_modules tree ids paths empty) i ≡ some (described ids i p info)
  unfolding Registered get_id_by_path lookup
  registered_module paths p i info known e h =
      ((register_modules-Registered paths empty known (tt, λ q j e. ground (arith, e))).1 p i
          (registered_path paths p i known h)).1
        info e
