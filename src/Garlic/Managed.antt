-- ===== src/Garlic/Managed.antt =====
-- The package-level functions of garlic.go over the map `garlics` and the default dialer, and the cleanup
-- registry of cleanup.go. An instance is the number of its `Garlic`, which stands for its pointer.
pub mod Invariant
pub mod Laws
pub mod Closing
pub mod Package
pub mod Finalizers
use onramp.Prelude.{
  ℕ, suc, ◌==◌, Bool, true, false, ◌⊎◌, inl, inr, Option, none, some, String, List, [], ◌∷◌, ◌++◌,
  if◌then◌else◌, string_eq,
}
use onramp.Prelude.Int.{ℤ}
use onramp.Prelude.Map.{Map, lookup, insert, erase}
use onramp.Garlic.{Garlic, Error, Outside, M, new_fields}
use onramp.Garlic.Ports.{Bytes}
use onramp.Garlic.Calls.{old_listen, dial_context}
use onramp.Garlic.Closing.{Closes, close, Bridge, new_garlic}

-- The package's variables: the instances that have been made, `garlics`, `defaultDialer`, and of
-- cleanup.go the instances of `registry` and `cleanupHooks`; and the hooks that have run, oldest first.
pub record World : Type 0 where
  pub garlic_of : ℕ → Garlic
  pub made : ℕ
  pub garlics : Map String ℕ
  pub default_dialer : Option ℕ
  pub instances : List ℕ
  pub cleanup_hooks : List ℕ
  pub hooks_run : List ℕ

abbrev pub put : {A : Type 0} → ℕ → A → (ℕ → A) → ℕ → A
put i a f j = if j == i then a else f j

-- `delete(r.instances, g)`
unfoldable pub remove : ℕ → List ℕ → List ℕ
remove i [] = []
remove i (j ∷ js) = if j == i then remove i js else j ∷ remove i js

-- `register`; an instance that is registered already stands there once.
abbrev pub register : ℕ → World → World
register i w = record w { instances = i ∷ remove i w.instances }

-- `unregister`
abbrev pub unregister : ℕ → World → World
unregister i w = record w { instances = remove i w.instances }

-- A call on one instance.
abbrev pub on_instance : {A : Type 0} → ℕ → M A → World → (Error ⊎ A) × World
on_instance i m w =
    let (r, g) = m (w.garlic_of i) in (r, record w { garlic_of = put i g w.garlic_of })

-- `Close` on an instance, which takes it from the registry first.
unfoldable pub close_instance : Closes → ℕ → World → World
unfolding close
close_instance c i w =
    let u = unregister i w in record u { garlic_of = put i (close c (u.garlic_of i)).1 u.garlic_of }

-- The instance of a constructor that succeeds, which is registered for cleanup.
abbrev pub made_instance : Garlic → World → World
made_instance g w =
    register w.made (record w { garlic_of = put w.made g w.garlic_of; made = suc w.made })

-- `NewGarlic`, with `EnableAutoCleanup`
unfoldable pub new_instance : Outside → Bridge → World → (Error ⊎ ℕ) × World
unfolding new_garlic
new_instance out b w =
    let (r, g) = new_garlic out b in
    elim r [ inl e ↦ (inl e, w) | inr n ↦ (inr w.made, made_instance g w) ]

-- The end of `ListenGarlic` where an instance is made.
abbrev pub listen_new : Outside → String → (Error ⊎ ℕ) × World → (Error ⊎ ℕ) × World
listen_new out keys (inl e, w) = (inl e, w)
listen_new out keys (inr i, w) =
    on_instance i (old_listen out []) (record w { garlics = insert keys i w.garlics })

-- `ListenGarlic`
unfoldable pub listen_garlic : Outside → Bridge → String → World → (Error ⊎ ℕ) × World
unfolding new_instance old_listen
listen_garlic out b keys w = elim (lookup keys w.garlics) [
  | some existing ↦ on_instance existing (old_listen out []) w
  | none ↦ listen_new out keys (new_instance out b w)
]

-- The end of `DialGarlic` where the default dialer is made.
abbrev pub dial_new :
    (Bytes → Option ℤ) → Outside → Bytes → (Error ⊎ ℕ) × World → (Error ⊎ ℕ) × World
dial_new lookup_port out addr (inl e, w) = (inl e, w)
dial_new lookup_port out addr (inr i, w) =
    on_instance i (dial_context lookup_port out addr) (record w { default_dialer = some i })

-- `DialGarlic`
unfoldable pub dial_garlic :
    (Bytes → Option ℤ) → Outside → Bridge → Bytes → World → (Error ⊎ ℕ) × World
unfolding new_instance dial_context
dial_garlic lookup_port out b addr w = elim w.default_dialer [
  | some i ↦ on_instance i (dial_context lookup_port out addr) w
  | none ↦ dial_new lookup_port out addr (new_instance out b w)
]

-- `CloseGarlic`
unfoldable pub close_garlic : Closes → String → World → World
unfolding close_instance
close_garlic c name w = elim (lookup name w.garlics) [
  | none ↦ w
  | some i ↦ let w' = close_instance c i w in record w' { garlics = erase name w'.garlics }
]

-- `runCleanupHooks`: all of them in their order, whether or not one panics.
abbrev pub run_cleanup_hooks : World → World
run_cleanup_hooks w = record w { hooks_run = w.hooks_run ++ w.cleanup_hooks }

-- `RegisterCleanupHook`
abbrev pub register_cleanup_hook : ℕ → World → World
register_cleanup_hook hook w = record w { cleanup_hooks = w.cleanup_hooks ++ hook ∷ [] }

-- The loop of `CloseAllGarlic`; the entries are deleted as they are closed.
unfoldable pub close_entries : Closes → Map String ℕ → World → World
unfolding close_instance
close_entries c [] w = w
close_entries c ((name, i) ∷ rest) w = close_entries c rest (close_instance c i w)

-- The start of `CloseAllGarlic`
unfoldable pub close_dialer : Closes → World → World
unfolding close_instance
close_dialer c w = elim w.default_dialer [
  | none ↦ w
  | some i ↦ record (close_instance c i w) { default_dialer = none }
]

-- `CloseAllGarlic`
unfoldable pub close_all_garlic : Closes → World → World
unfolding close_dialer close_entries
close_all_garlic c w =
    let w' = run_cleanup_hooks (close_dialer c w) in
    record (close_entries c w'.garlics w') { garlics = [] }

-- The loop of `cleanupAll`, over a copy of the registry.
unfoldable pub close_instances : Closes → List ℕ → World → World
unfolding close_instance
close_instances c [] w = w
close_instances c (i ∷ is) w = close_instances c is (close_instance c i w)

-- `cleanupAll`, before `CloseAllOnion`
unfoldable pub cleanup_all : Closes → World → World
unfolding close_instances
cleanup_all c w = let w' = run_cleanup_hooks w in close_instances c w'.instances w'

-- A call of the package.
pub data PackageCall : Type 0 where
  listens_garlic : Outside → Bridge → String → PackageCall
  dials_garlic : Outside → Bridge → Bytes → PackageCall
  closes_garlic : Closes → String → PackageCall
  closes_all_garlic : Closes → PackageCall
  registers_hook : ℕ → PackageCall

-- What it leaves.
unfoldable pub package_step : (Bytes → Option ℤ) → World → PackageCall → World
unfolding listen_garlic dial_garlic close_garlic close_all_garlic
package_step lookup_port w (listens_garlic out b keys) = (listen_garlic out b keys w).1
package_step lookup_port w (dials_garlic out b addr) = (dial_garlic lookup_port out b addr w).1
package_step lookup_port w (closes_garlic c name) = close_garlic c name w
package_step lookup_port w (closes_all_garlic c) = close_all_garlic c w
package_step lookup_port w (registers_hook hook) = register_cleanup_hook hook w

unfoldable pub package_run : (Bytes → Option ℤ) → World → List PackageCall → World
unfolding package_step
package_run lookup_port w [] = w
package_run lookup_port w (c ∷ cs) = package_run lookup_port (package_step lookup_port w c) cs

-- The variables of the package at its start.
abbrev pub started : World
started = record {
  garlic_of = λ i. new_fields;
  made = 0;
  garlics = [];
  default_dialer = none;
  instances = [];
  cleanup_hooks = [];
  hooks_run = [];
}
