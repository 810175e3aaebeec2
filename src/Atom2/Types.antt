-- ===== src/Atom2/Types.antt =====
-- The constants and the device state of libdivecomputer/src/oceanic_atom2.c.
use libdc_swift.Prelude.{ℕ, ◌^◌, ◌%◌, Bool, List, Option, Call}
use libdc_swift.Atom2.Layouts.{LayoutId}

abbrev pub max_packet : ℕ
max_packet = 256

abbrev pub max_retries : ℕ
max_retries = 2

abbrev pub max_delay : ℕ
max_delay = 16

-- `INVALID`, the page number of an empty cache
abbrev pub invalid : ℕ
invalid = 0xFFFF_FFFF

-- `PAGESIZE` (oceanic_common.h)
abbrev pub page_size : ℕ
page_size = 16

-- `REPEAT`
abbrev pub repeat : ℕ
repeat = 50

abbrev pub ack : ℕ
ack = 0x5A

abbrev pub nak : ℕ
nak = 0xA5

-- unsigned int
abbrev pub u32 : ℕ → ℕ
u32 n = n % 2 ^ 32

-- unsigned char
abbrev pub u8 : ℕ → ℕ
u8 n = n % 2 ^ 8

-- `oceanic_atom2_device_t`, with the fields of its base that the driver uses (`version`,
-- `firmware`, `model` and `layout` of `oceanic_common_device_t`). `layout` is `none` until it is
-- detected. `extra` and `handshake_repeat` are only tested for zero.
pub record Device : Type 0 where
  pub version : List ℕ
  pub firmware : ℕ
  pub model : ℕ
  pub layout : Option LayoutId
  pub handshake_repeat : Bool
  pub handshake_counter : ℕ
  pub sequence : ℕ
  pub delay : ℕ
  pub extra : Bool
  pub bigpage : ℕ
  pub cache : List ℕ
  pub cached_page : ℕ
  pub cached_highmem : ℕ

-- The device beside the environment that its stream talks to.
pub record State (W : Type 0) : Type 0 where
  pub dev : Device
  pub env : W

-- A call of the stream, as a call on the state.
abbrev pub on_env : {W A : Type 0} → Call W A → Call (State W) A
on_env c s = let (r, env) = c s.env in (r, record s { env = env })
