-- ===== src/Server/Delivery.antt =====
-- A command that is dispatched to another shard has the effect and the reply that it has when the
-- shard that owns the key executes it at once.
use ghetto_redis.Prelude.{ℕ, suc, Option}
use ghetto_redis.Prelude.Words.{Memory}
use ghetto_redis.HashMap.{HashMap}
use ghetto_redis.Kv.{Entry}
use ghetto_redis.Commands.State.{Message, World}
use ghetto_redis.Commands.Table.{Command}
use ghetto_redis.Server.{on_cb}

module _ (h : HashMap Entry (λ e. e.key)) (t : HashMap Command (λ c. c.name)) where
  open h use {Map}
  open t use {Map as Commands}

  -- The callbacks of the server, with fuel for `fuel + 1` rounds of the loop over the requests.
  abbrev pub callback :
      Commands → Memory → (fuel : ℕ) → (self : ℕ) → Message Map → World Map → Option (World Map)
  callback commands mem fuel self message w = on_cb h t commands mem (suc fuel) self message w
