-- ===== src/Commands/Table/Lookup.antt =====
-- Lookups in the table find the last registration of a name.
use ghetto_redis.Prelude.{
  ◌≡◌, refl, ◌∙◌, ap, List, [], ◌∷◌, Option, none, some, Bool-cases, inl, inr, if◌then◌else◌, arith,
}
use ghetto_redis.Prelude.Words.{Bytes}
use ghetto_redis.HashMap.{HashMap}
use ghetto_redis.HashMap.Assoc.{same, same_iff}
use ghetto_redis.Commands.Table.{
  Command, registrations, register_command, register_all, init_commands, lookup_command,
}

-- The last command of the list with that name, `found` standing for what came before.
abbrev pub last_named : Option Command → Bytes → List Command → Option Command
last_named found name [] = found
last_named found name (c ∷ cs) = last_named (if same name c.name then some c else found) name cs

module _ (t : HashMap Command (λ c. c.name)) where
  open t use {Map, new, get-new, get-set_self, get-set_ne}

  lookup-register :
      (name : Bytes) (m : Map) (c : Command)
      → lookup_command t name (register_command t m c)
        ≡ (if same name c.name then some c else lookup_command t name m)
  unfolding lookup_command register_command
  lookup-register name m c = elim (Bool-cases (same name c.name)) [
    | inl e ↦ rw (e, (same_iff name c.name).0 e) (get-set_self m c)
    | inr e ↦ rw e (get-set_ne m c name (ground (arith, same_iff name c.name)))
  ]

  lookup-register_all :
      (name : Bytes) (cs : List Command) (m : Map)
      → lookup_command t name (register_all t m cs) ≡ last_named (lookup_command t name m) name cs
  unfolding register_all
  lookup-register_all name [] m = refl
  lookup-register_all name (c ∷ cs) m =
      lookup-register_all name cs (register_command t m c) ∙ rw (lookup-register name m c)

  lookup-new : (name : Bytes) → lookup_command t name new ≡ none
  unfolding lookup_command
  lookup-new name = get-new name

  -- After `init_commands`, `lookup_command` finds the last of the registrations with that name.
  pub lookup_command-init_commands :
      (name : Bytes) → lookup_command t name (init_commands t) ≡ last_named none name registrations
  unfolding init_commands
  lookup_command-init_commands name =
      lookup-register_all name registrations new
      ∙ ap (λ o. last_named o name registrations) (lookup-new name)
