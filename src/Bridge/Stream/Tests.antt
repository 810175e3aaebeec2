-- ===== src/Bridge/Stream/Tests.antt =====
-- A run of the opening of a BLE connection.
use libdc_swift.Prelude.{◌≡◌, refl, ok, codes, [], ◌∷◌}
use libdc_swift.Bridge.Fixture.{sim, idle}
use libdc_swift.Bridge.Stream.{
  ble_packet_open, ble_stream_set_timeout, ble_stream_read, ble_stream_write, ble_stream_ioctl,
  ble_stream_sleep,
}
use libdc_swift.Bridge.Types.{BleStream}
use libdc_swift.Bridge.Stream.Holding.{AcquiresStream, ble_packet_open-AcquiresStream}

ble_packet_open_run :
    (ble_packet_open sim 1 (codes "a1") idle).0 ≡ ok (record { address = 105; ble_object = 3 })
unfolding ble_packet_open
ble_packet_open_run = refl

ble_packet_open-AcquiresStream_example :
    AcquiresStream idle (ble_packet_open sim 1 (codes "a1") idle)
ble_packet_open-AcquiresStream_example = ble_packet_open-AcquiresStream sim 1 (codes "a1") idle

-- The functions of the stream's table, on the BLE object 3.
abbrev stream : BleStream
stream = record { address = 105; ble_object = 3 }

calls :
    (ble_stream_set_timeout sim stream 1000 idle ≡ (ok tt, record idle { env = 1 }))
    × (ble_stream_read sim stream 20 idle ≡ (ok [], record idle { env = 1 }))
    × (ble_stream_write sim stream (1 ∷ []) idle ≡ (ok 0, record idle { env = 1 }))
    × (ble_stream_ioctl sim stream 1 9 idle ≡ (ok [], record idle { env = 1 }))
    × (ble_stream_sleep sim stream 10 idle ≡ (ok tt, record idle { env = 1 }))
unfolding ble_stream_set_timeout ble_stream_read ble_stream_write ble_stream_ioctl ble_stream_sleep
calls = (refl, refl, refl, refl, refl)
