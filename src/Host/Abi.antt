-- ===== src/Host/Abi.antt =====
-- The exported functions of zimodem_host.cpp. A handle is `none` for a null pointer, and otherwise
-- the number of an instance; a handle that was destroyed is not looked at by the code either, and
-- its use is `dangling`. A call returns what the caller gets, the callbacks it made, and the
-- process behind it.
use bit_magic_zi_modem.Base.{
  ℕ, ◌+◌, ◌-◌, Bool, true, false, Option, none, some, List, [], ◌∷◌, if◌then◌else◌, ◌==◌,
}
use bit_magic_zi_modem.Base.Int.{ℤ, pos, minus_one, to_int}
use bit_magic_zi_modem.SerialPort.{
  feed_input, rx_available, rx_read, get_line_config, set_data_ready_callback,
  set_line_config_callback,
}
use bit_magic_zi_modem.Pins.{digital_write, set_signal_callback}
use bit_magic_zi_modem.Host.LineConfig.{Framing, decode_serial_config, parity_none}
use bit_magic_zi_modem.Host.Process.{
  Worker, idle, setting_up, testing, looping, ended, Instance, new_instance, Process, Out, Result,
  ok, dangling, deadlock, and_then, update, deliver_signals,
}

-- What create returns: NULL, a handle, or an exception that leaves the function.
pub data Created : Type 0 where
  null : Created
  handle : ℕ → Created
  threw : Created

abbrev pub is_live : Option Instance → Bool
is_live none = false
is_live (some inst) = true

-- `cfg == nullptr || cfg->data_dir == nullptr || cfg->data_dir[0] == '\0'` is `none`.
abbrev pub usable_dir : Option (Option (List ℕ)) → Option (List ℕ)
usable_dir none = none
usable_dir (some none) = none
usable_dir (some (some [])) = none
usable_dir (some (some (c ∷ cs))) = some (c ∷ cs)

-- The registrations of a new instance with the HAL.
abbrev pub register : Process → ℕ → Process
register p id = record p {
  serial = set_line_config_callback (set_data_ready_callback p.serial (some id)) (some id);
  pins = set_signal_callback p.pins (some id);
  log_sink = some id;
  active = some id;
  instances = update p.instances id (some new_instance);
}

abbrev pub create_with : Process → Option ℕ → Created × Process
create_with p none = (null, p)
create_with p (some id) = (handle id, register p id)

-- create behind set_root.
abbrev pub create_made : Process → Bool → Option ℕ → Created × Process
create_made p false memory = (threw, p)
create_made p true memory = create_with (record p { net_uses = p.net_uses + 1 }) memory

-- create at a usable directory, the active instance as its second argument: `made` says whether
-- std::filesystem::create_directories returned, and `memory` is the address that
-- `new (std::nothrow)` gave.
abbrev pub create_at : Process → Option ℕ → List ℕ → Bool → Option ℕ → Created × Process
create_at p (some id) dir made memory = (null, p)
create_at p none dir made memory = create_made (record p { root = dir }) made memory

abbrev pub create_in : Process → Option (List ℕ) → Bool → Option ℕ → Created × Process
create_in p none made memory = (null, p)
create_in p (some dir) made memory = create_at p p.active dir made memory

unfoldable pub create : Process → Option (Option (List ℕ)) → Bool → Option ℕ → Created × Process
create p cfg made memory = create_in p (usable_dir cfg) made memory

pub record Callbacks : Type 0 where
  pub serial_out : Option ℕ
  pub signal : Option ℕ
  pub log : Option ℕ
  pub line_config : Option ℕ
  pub context : ℕ

abbrev pub install : Callbacks → Instance → Instance
install c inst = record inst {
  on_serial_out = c.serial_out;
  on_signal = c.signal;
  on_log = c.log;
  on_line_config = c.line_config;
  user_context = c.context;
}

-- The body of an exported function behind its null test, on the instance that the handle names.
abbrev pub on_instance {ℓ} : {A : Type ℓ} → Option Instance → (Instance → Result A) → Result A
on_instance none body = dangling
on_instance (some inst) body = body inst

abbrev pub at_instance {ℓ} : {A : Type ℓ} → Process → ℕ → (Instance → Result A) → Result A
at_instance p id body = on_instance (p.instances id) body

abbrev pub put : Process → ℕ → Instance → Process
put p id inst = record p { instances = update p.instances id (some inst) }

unfoldable pub set_callbacks : Process → Option ℕ → Callbacks → Result Process
set_callbacks p none c = ok p
set_callbacks p (some id) c =
    at_instance p id (λ inst. if inst.locked then deadlock else ok (put p id (install c inst)))

unfoldable pub start : Process → Option ℕ → Result (ℤ × Process)
start p none = ok (minus_one, p)
start p (some id) = at_instance p id (λ inst.
    if inst.started
    then ok (minus_one, p)
    else ok (pos 0, put p id (record inst { started = true; running = true; worker = setting_up })))

-- The next functions test the handle for null and do not look into the instance.
unfoldable pub write_serial : Process → Option ℕ → List ℕ → ℤ × Process
unfolding feed_input
write_serial p none bytes = (minus_one, p)
write_serial p (some id) bytes = (pos 0, record p { serial = feed_input p.serial bytes })

unfoldable pub host_rx_available : Process → Option ℕ → ℤ
unfolding rx_available
host_rx_available p none = pos 0
host_rx_available p (some id) = if rx_available p.serial then pos 1 else pos 0

unfoldable pub host_rx_read : Process → Option ℕ → ℤ × Process
unfolding rx_read
host_rx_read p none = (minus_one, p)
host_rx_read p (some id) = let r = rx_read p.serial in (r.0, record p { serial = r.1 })

unfoldable pub set_pin : Process → Option ℕ → ℤ → ℤ → Result (List Out × Process)
unfolding digital_write deliver_signals
set_pin p none pin value = ok ([], p)
set_pin p (some id) pin value =
    let r = digital_write p.pins pin value in
    and_then (deliver_signals p.instances r.0) (λ out. ok (out, record p { pins = r.1 }))

-- The four out parameters of get_line_config.
pub record LineAnswer : Type 0 where
  pub baud : ℤ
  pub framing : Framing

unfoldable pub host_get_line_config : Process → Option ℕ → LineAnswer
unfolding get_line_config decode_serial_config
host_get_line_config p none = record {
  baud = pos 0;
  framing = record { data_bits = 0; parity = parity_none; stop_bits_x10 = 0 };
}
host_get_line_config p (some id) =
    let c = get_line_config p.serial in
    record { baud = to_int c.0; framing = decode_serial_config c.1 }

-- destroy before the join: `running` is cleared.
unfoldable pub request_stop : Process → ℕ → Instance → Process
request_stop p id inst = put p id (record inst { running = false })

-- `worker.joinable()` is false, or the thread is at its end.
abbrev pub is_joined : Worker → Bool
is_joined idle = true
is_joined setting_up = false
is_joined testing = false
is_joined looping = false
is_joined ended = true

-- `if (g_active_instance == inst) g_active_instance = nullptr;`
abbrev pub clear : Option ℕ → ℕ → Option ℕ
clear none id = none
clear (some a) id = if a == id then none else some a

-- destroy behind the join: the HAL's callbacks are dropped, the singleton is cleared if it is this
-- instance, and the instance is freed.
unfoldable pub release : Process → ℕ → Process
release p id = record p {
  serial = set_line_config_callback (set_data_ready_callback p.serial none) none;
  pins = set_signal_callback p.pins none;
  log_sink = none;
  active = clear p.active id;
  net_uses = p.net_uses - 1;
  instances = update p.instances id none;
}
