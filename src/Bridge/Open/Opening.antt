-- ===== src/Bridge/Open/Opening.antt =====
-- What `open_ble_device` holds when it ends.
use libdc_swift.Prelude.{
  ℕ, ◌≡◌, refl, List, Option, none, some, ok, err, Result, bind, Call, ◌>>=◌, ◌>>◌, arith, Text,
}
use libdc_swift.Bridge.Types.{
  DeviceData, Descriptor, BleStream, Block, State, Resource, cleared, Holds, HoldsOrFree, Advances,
}
use libdc_swift.Bridge.Platform.{Platform, on_env, change_env}
use libdc_swift.Bridge.Stream.{ble_packet_open}
use libdc_swift.Bridge.Stream.Holding.{AcquiresStream, ble_packet_open-AcquiresStream}
use libdc_swift.Bridge.Descriptors.{find_descriptor_by_model, allocate_name}
use libdc_swift.Bridge.Descriptors.Models.{
  Same, find_descriptor_by_model-Finds, allocate_name-Holds,
}
use libdc_swift.Bridge.Open.{
  open_ble_device, new_context, open_stream, open_device, keep_descriptor, or_close, events,
  set_data,
}
use libdc_swift.Bridge.Open.Closing.{or_close-HoldsOrFree}

-- A chain goes on where the first call has succeeded.
bind-HoldsOrFree :
    {W A B : Type 0} (rest : List Resource) (bad : ℕ) (d : A → DeviceData) (d' : B → DeviceData)
    (p : Result A × State W) (f : A → Call (State W) B)
    → HoldsOrFree d rest bad p
    → ((a : A) (s : State W) → Holds (d a) rest bad s → HoldsOrFree d' rest bad (f a s))
    → HoldsOrFree d' rest bad (bind p f)
bind-HoldsOrFree rest bad d d' (ok a, s) f h k = k a s h
bind-HoldsOrFree rest bad d d' (err e, s) f h k = h

Same-Advances :
    {W A : Type 0} (rest : List Resource) (bad : ℕ) (d : DeviceData) (s : State W)
    (p : Result A × State W)
    → Holds d rest bad s
    → Same s p.1
    → Advances d (λ _. d) rest bad p
Same-Advances rest bad d s (ok a, s') h k = ground arith
Same-Advances rest bad d s (err e, s') h k = ground arith

-- The structure after the context, the stream and the device were opened.
abbrev with_context : ℕ → DeviceData
with_context c = record cleared { context = some c }

abbrev with_stream : ℕ → BleStream → DeviceData
with_stream c b = record cleared { context = some c; iostream = some b }

abbrev with_device : ℕ → BleStream → ℕ → DeviceData
with_device c b h = record cleared { context = some c; iostream = some b; device = some h }

abbrev opened : ℕ → BleStream → ℕ → Descriptor → Option Block → DeviceData
opened c b h descriptor name = record cleared {
  context = some c;
  iostream = some b;
  device = some h;
  descriptor = some descriptor;
  model = name;
}

-- After success the structure has a context, a stream, a device, the descriptor and perhaps a name.
pub record IsOpened (d : DeviceData) : Type 0 where
  pub context : ℕ
  pub stream : BleStream
  pub device : ℕ
  pub descriptor : Descriptor
  pub name : Option Block
  pub is : d ≡ opened context stream device descriptor name

-- What the whole call comes to.
abbrev pub Opens : {W : Type 0} → List Resource → ℕ → Result (Unit {0}) × State W → Type 0
Opens rest bad (ok u, s) = IsOpened s.data_of × Holds s.data_of rest bad s
Opens rest bad (err e, s) = (s.held ≡ rest) × (s.bad_releases ≡ bad)

bind-Opens :
    {W A : Type 0} (rest : List Resource) (bad : ℕ) (d : A → DeviceData) (p : Result A × State W)
    (f : A → Call (State W) (Unit {0}))
    → HoldsOrFree d rest bad p
    → ((a : A) (s : State W) → Holds (d a) rest bad s → Opens rest bad (f a s))
    → Opens rest bad (bind p f)
bind-Opens rest bad d (ok a, s) f h k = k a s h
bind-Opens rest bad d (err e, s) f h k = h

module _ {W : Type 0} (platform : Platform W) (rest : List Resource) (bad : ℕ) where
  new_context-HoldsOrFree :
      (s : State W)
      → Holds cleared rest bad s
      → HoldsOrFree with_context rest bad (new_context platform s)
  unfolding new_context
  new_context-HoldsOrFree s h = ground arith

  stream_result :
      (c : ℕ) (s : State W) (p : Result BleStream × State W)
      → Holds (with_context c) rest bad s
      → AcquiresStream s p
      → Advances
          (with_context c)
          (with_stream c)
          rest
          bad
          (bind p (λ b s. (ok b, set_data (λ d. record d { iostream = some b }) s)))
  stream_result c s (ok b, s') h k = ground arith
  stream_result c s (err e, s') h k = ground arith

  open_stream-Advances :
      (c : ℕ) (devaddr : Text) (s : State W)
      → Holds (with_context c) rest bad s
      → Advances (with_context c) (with_stream c) rest bad (open_stream platform c devaddr s)
  unfolding open_stream
  open_stream-Advances c devaddr s h =
      stream_result c s (ble_packet_open platform c devaddr s) h
        (ble_packet_open-AcquiresStream platform c devaddr s)

  open_device-Advances :
      (c : ℕ) (descriptor : Descriptor) (b : BleStream) (s : State W)
      → Holds (with_stream c b) rest bad s
      → Advances
          (with_stream c b)
          (with_device c b)
          rest
          bad
          (open_device platform c descriptor b s)
  unfolding open_device
  open_device-Advances c descriptor b s h = ground arith

  set_events-Advances :
      (c : ℕ) (b : BleStream) (h : ℕ) (s : State W)
      → Holds (with_device c b h) rest bad s
      → Advances
          (with_device c b h)
          (λ _. with_device c b h)
          rest
          bad
          (on_env (platform.device_set_events h events) s)
  set_events-Advances c b h s k = ground arith

  keep_descriptor-Opens :
      (c : ℕ) (b : BleStream) (h : ℕ) (descriptor : Descriptor) (s : State W)
      → Holds (with_device c b h) rest bad s
      → Opens rest bad (ok tt, keep_descriptor platform descriptor s)
  unfolding keep_descriptor
  keep_descriptor-Opens c b h descriptor s k =
      let facts = allocate_name-Holds platform descriptor s in
      (
        record {
          context = c;
          stream = b;
          device = h;
          descriptor = descriptor;
          name = (allocate_name platform descriptor s).0;
          is = ground (arith, facts);
        },
        ground (arith, facts),
      )

  opening : ℕ → Text → ℕ → ℕ → Call (State W) (Unit {0})
  opening c devaddr family model =
      (λ s. (ok tt, change_env (platform.install_libdc_logger c) s))
      >> ((λ s. or_close platform (find_descriptor_by_model platform family model s))
          >>= (λ descriptor. (λ s. or_close platform (open_stream platform c devaddr s)) >>= (λ b.
              (λ s. or_close platform (open_device platform c descriptor b s)) >>= (λ h.
                (λ s. or_close platform (on_env (platform.device_set_events h events) s))
                >> (λ s. (ok tt, keep_descriptor platform descriptor s))))))

  opening-Opens :
      (c : ℕ) (devaddr : Text) (family model : ℕ) (s : State W)
      → Holds (with_context c) rest bad s
      → Opens rest bad (opening c devaddr family model s)
  unfolding opening
  opening-Opens c devaddr family model s h =
      let found = find_descriptor_by_model platform family model in
      let logged = change_env (platform.install_libdc_logger c) s in
      let k0 : Holds (with_context c) rest bad logged = ground arith in
      bind-Opens rest bad (λ _. with_context c) (or_close platform (found logged)) _
        (or_close-HoldsOrFree platform rest bad (with_context c) _ (found logged) (
          Same-Advances rest bad (with_context c) logged (found logged) k0
            (find_descriptor_by_model-Finds platform family model logged).1))
        (λ descriptor s1 k1.
          bind-Opens rest bad (with_stream c)
            (or_close platform (open_stream platform c devaddr s1)) _
            (or_close-HoldsOrFree platform rest bad (with_context c) _ _
              (open_stream-Advances c devaddr s1 k1))
            (λ b s2 k2.
              bind-Opens rest bad (with_device c b)
                (or_close platform (open_device platform c descriptor b s2)) _
                (or_close-HoldsOrFree platform rest bad (with_stream c b) _ _
                  (open_device-Advances c descriptor b s2 k2))
                (λ h s3 k3.
                  bind-Opens rest bad (λ _. with_device c b h)
                    (or_close platform (on_env (platform.device_set_events h events) s3)) _
                    (or_close-HoldsOrFree platform rest bad (with_device c b h) _ _
                      (set_events-Advances c b h s3 k3))
                    (λ _ s4 k4. keep_descriptor-Opens c b h descriptor s4 k4))))

module _ {W : Type 0} (platform : Platform W) where
  -- Opening a dive computer acquires what the structure holds afterwards: a context, a stream with
  -- its BLE object, a device and, where there is memory, the name of the model. A failure, at
  -- whichever step, leaves nothing of it acquired, and nothing is released twice.
  pub open_ble_device-Opens :
      (devaddr : Option Text) (family model : ℕ) (s : State W)
      → Opens s.held s.bad_releases (open_ble_device platform devaddr family model s)
  unfolding open_ble_device
  open_ble_device-Opens none family model s = (refl, refl)
  open_ble_device-Opens (some devaddr) family model s =
      let fresh = set_data (λ d. cleared) s in
      bind-Opens s.held s.bad_releases with_context (new_context platform fresh) _
        (new_context-HoldsOrFree platform s.held s.bad_releases fresh
          (record { data_is = refl; held_is = refl; bad_is = refl }))
        (λ c s1 k.
          unfold opening in
          opening-Opens platform s.held s.bad_releases c devaddr family model s1 k)
