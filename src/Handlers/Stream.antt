-- ===== src/Handlers/Stream.antt =====
-- `OpenEventStream` of apps/server/src/services/handlers.ts: what the server does on the messages
-- and the end of one stream. `connected` is the device that the stream has named in a hello.
pub mod Reconnects
use sharepaste.Prelude.{ℕ, String, Option, none, some, ◌==◌, if◌then◌else◌}
use sharepaste.Env.{Env}
use sharepaste.Exec.{World, Result, ok, err}
use sharepaste.Store.Clipboard.{ack_item, open_presence, close_presence}

pub record Hello : Type 0 where
  pub device_id : String
  pub lan_addr : Option String

pub record EnvelopeMessage : Type 0 where
  pub hello : Option Hello
  pub ack : Option String

pub record Connection : Type 0 where
  pub connected : Option String
  pub world : World

-- if (connectedDeviceId): the empty text is as good as none.
abbrev pub truthy : Option String → Option String
truthy none = none
truthy (some id) = if id == "" then none else some id

-- call.on("error") and, up to `call.end()`, call.on("end")
unfoldable pub on_end : Connection → Connection
on_end c = elim (truthy c.connected) [
  | none ↦ c
  | some id ↦ record c { world = (close_presence id c.world).1 }
]

-- What is thrown is emitted as an error on the stream.
abbrev settle : {A : Type 0} → Result A × World → Option String → Connection
settle (ok a, w) connected = record { connected = connected; world = w }
settle (err e, w) connected = on_end (record { connected = connected; world = w })

abbrev acknowledge : Option String → Connection → Connection
acknowledge none c = c
acknowledge (some item) c = elim (truthy c.connected) [
  | none ↦ c
  | some id ↦ settle (ack_item id item c.world) c.connected
]

abbrev greet : Env → ℕ → Option Hello → Option String → Connection → Connection
greet env stream none ack c = acknowledge ack c
greet env stream (some h) ack c =
    settle (open_presence env h.device_id h.lan_addr stream c.world) (some h.device_id)

unfoldable pub on_data : Env → ℕ → EnvelopeMessage → Connection → Connection
unfolding on_end
on_data env stream message c = greet env stream message.hello message.ack c
