-- ===== src/Handlers/Stream/Reconnects.antt =====
-- Two streams of one device (`OpenEventStream` of apps/server/src/services/handlers.ts).
use sharepaste.Prelude.{◌==◌, false, ℕ, ◌≡◌, String, true, none, some, arith, eq_refl, Option}
use sharepaste.Map.{get, get-delete, get-set_self, set}
use sharepaste.Types.{Device, PresenceState}
use sharepaste.Env.{Env}
use sharepaste.Exec.{World, ◌>>=◌}
use sharepaste.Store.Common.{require_device, find_device}
use sharepaste.Store.Clipboard.{open_presence, close_presence}
use sharepaste.Handlers.Stream.{EnvelopeMessage, on_data, on_end}

-- The hello of a device.
abbrev pub hello : String → Option String → Option String → EnvelopeMessage
hello id addr ack = record { hello = some (record { device_id = id; lan_addr = addr }); ack = ack }

module _ (env : Env) (id : String) (w : World) (d : Device) (known : get id w.devices ≡ some d)
    (active : d.active ≡ true) (nonempty : (id == "") ≡ false) (fresh : ℕ)
    (addr ack : Option String) where
  -- A device that says hello on a stream has its presence there. Premise: its identifier is not the
  -- empty text. If the device had an older stream
  -- and that one ends afterwards, the device has no presence, though its newer stream is open.
  pub older_stream_ends :
      (was : Option String)
      → let newer = on_data env fresh (hello id addr ack) (record { connected = was; world = w }) in
        (get id newer.world.presences ≡ some (record { lan_addr = addr; on_event = fresh }))
        × (newer.connected ≡ some id)
        × (get id (on_end (record { connected = some id; world = newer.world })).world.presences
            ≡ none)
  unfolding on_data on_end open_presence close_presence require_device find_device ◌>>=◌
  older_stream_ends was =
      let presence : PresenceState = record { lan_addr = addr; on_event = fresh } in
      ground (
        arith,
        get-set_self id presence w.presences,
        get-delete id id (set id presence w.presences),
        eq_refl id,
      )
