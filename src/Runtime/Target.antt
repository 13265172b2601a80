-- ===== src/Runtime/Target.antt =====
-- internal/runtimecfg: the executable targets of a generation, and the result of binding a historical
-- delivery to one.
use hookfly.Base.{String, Bool}
use hookfly.Domain.{Millis}

-- What the target executes, by its type. A `dokploy` target has a Compose ID and a Dokploy client;
-- the others have none, so their Compose ID is empty. The flag tells that the client is there.
pub data Executable : Type 0 where
  dokploy : Executable
  http : Bool → Executable
  forward : Bool → Executable

pub record Target : Type 0 where
  pub id : String
  pub compose_id : String
  pub executable : Executable
  pub poll_interval : Millis
  pub poll_timeout : Millis

-- `ResolveTarget`: a target is returned with a compatible binding, and with no other.
pub data Binding : Type 0 where
  compatible : Target → Binding
  target_changed target_unavailable : Binding
