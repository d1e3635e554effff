-- ===== src/Host/Threads/Reentry.antt =====
-- set_pin inside of a callback that runs under callback_mutex.
use bit_magic_zi_modem.Base.{ℕ, ◌≡◌, ◌≢◌, Option, none}
use bit_magic_zi_modem.Host.Process.{Instance, Process}
use bit_magic_zi_modem.Host.Threads.{
  Delivery, readies, signals, lines, says, Pc, resting, owes, holds, joins, System,
}

-- The function of the host that a closure calls with the mutex locked: on_line_config is called
-- behind the lock.
abbrev pub under_mutex : Delivery → Instance → Option ℕ
under_mutex (readies id) inst = inst.on_serial_out
under_mutex (signals id pin value) inst = inst.on_signal
under_mutex (lines id baud config) inst = none
under_mutex (says id message) inst = inst.on_log

-- A place that no step leaves.
record IsStuck (s : System) (y : Pc) : Type 0 where
  not_resting : y ≢ resting
  not_owing : (d : Delivery) → y ≢ owes d
  not_holding : (id : ℕ) → y ≢ holds id
  not_joined : (id : ℕ) → y ≡ joins id → s.pc 0 ≢ resting
