-- ===== src/Ports/Context.antt =====
-- `async with port_context() as port:` and the settings of a connection.
use provisioning_api.Base.{String}
use provisioning_api.Base.Exec.{Exec, finally, ◌>>◌}

-- What the ports take from the settings of their service.
pub record NatsSettings : Type 0 where
  pub nats_server : String
  pub nats_user : String
  pub nats_password : String

-- The session of a REST adapter, of `aiohttp`: opened by `connect`, where it is not open yet.
pub record HttpConnection (S : Type 0) : Type 0 where
  pub connect : Exec S (Unit {0})
  pub close : Exec S (Unit {0})

-- The generator behind `port_context` and `port_dependency`, around the body that uses the port.
unfoldable pub port_context {ℓ} :
    {S : Type 0} {A : Type ℓ} → Exec S (Unit {0}) → Exec S (Unit {0}) → Exec S A → Exec S A
port_context connect close body = do connect; finally body close
