-- ===== src/Host/Tests.antt =====
-- zimodem_host.cpp on a concrete process, and its theorems there.
use bit_magic_zi_modem.Base.{
  arith, ℕ, ◌≡◌, refl, Bool, true, Option, none, some, List, [], ◌∷◌, ◌++◌, suc, length, ◌⊎◌, inl,
  codes, arith,
}
use bit_magic_zi_modem.Base.Int.{pos}
use bit_magic_zi_modem.SerialPort as Port
use bit_magic_zi_modem.SerialPort.Line.{baud_config}
use bit_magic_zi_modem.Host.LineConfig.{Framing, IsFraming}
use bit_magic_zi_modem.Host.Process.{
  Result, looping, serial_out, Instance, new_instance, Process, Out, ok, prints, reads, begins,
  firmware_step,
}
use bit_magic_zi_modem.Host.Abi.{
  Callbacks, create, request_stop, release, put, host_get_line_config,
}
use bit_magic_zi_modem.Host.Worker.{join, returns, throws, destroy}
use bit_magic_zi_modem.Host.Calls.{
  Call, creates, sets_callbacks, starts, feeds, takes, sets_pin, destroys, thread_moves, acts,
  fresh, run,
}
use bit_magic_zi_modem.Host.Lifetime.{IsValid, Fine, create-IsValid, put-IsValid}
use bit_magic_zi_modem.Host.Histories.{fresh-IsValid, run-IsValid}
use bit_magic_zi_modem.Host.Ending.{destroy-ends}
use bit_magic_zi_modem.Host.Told.{announcement, begin-host_get_line_config}
use bit_magic_zi_modem.Host.Bytes.{traffic, traffic_lem}
use bit_magic_zi_modem.Host.Again.{Inherits, create-destroy}
use bit_magic_zi_modem.Host.Wake.{host_drain, queued, prints-host_drain}
use bit_magic_zi_modem.SerialPort.Queue.{Traffic}

abbrev dir : Option (Option (List ℕ))
dir = some (some (codes "modem"))

abbrev callbacks : Callbacks
callbacks = record {
  serial_out = some 11;
  signal = some 12;
  log = some 13;
  line_config = some 14;
  context = 5;
}

abbrev session : List Call
session =
    creates dir true (some 3)
    ∷ sets_callbacks callbacks
    ∷ starts
    ∷ thread_moves returns
    ∷ acts (prints (codes "OK"))
    ∷ sets_pin (pos 9) (pos 1)
    ∷ destroys (returns ∷ throws [] ∷ [])
    ∷ creates dir true (some 3)
    ∷ []

run-IsValid_example : Fine {A = List Out × Process} (λ r. IsValid r.1) (run fresh session)
run-IsValid_example = run-IsValid session

abbrev busy : Instance
busy = record new_instance {
  started = true;
  running = true;
  worker = looping;
  on_serial_out = some 11;
  on_line_config = some 14;
  on_signal = some 12;
  on_log = some 13;
  user_context = 5;
}

abbrev booted : Process
booted = (create fresh dir true (some 3)).1

abbrev busy_process : Process
busy_process = put booted 3 busy

busy_process-IsValid : IsValid busy_process
unfolding create
busy_process-IsValid =
    put-IsValid booted 3 new_instance busy (create-IsValid fresh dir true (some 3) fresh-IsValid)
      refl refl

busy_active : busy_process.active ≡ some 3
unfolding create
busy_active = refl

destroy-ends_example :
    Fine {A = Bool × List Out × Process}
      (λ r. (r.0 ≡ true) × IsValid r.2 × (r.2.active ≡ none))
      (destroy busy_process (some 3) (returns ∷ throws (codes "no") ∷ []))
destroy-ends_example =
    destroy-ends busy_process 3 returns (throws (codes "no")) [] busy_process-IsValid busy_active

busy_line : busy_process.serial.line_config_callback ≡ some 3
unfolding create Port.set_line_config_callback Port.set_data_ready_callback
busy_line = refl

busy_instance : busy_process.instances 3 ≡ some busy
busy_instance = refl

begin-host_get_line_config_example :
    Fine {A = List Out × Process}
      (λ r.
        ((r.0 ≡ [])
          × (host_get_line_config r.1 (some 3) ≡ host_get_line_config busy_process (some 3)))
        ⊎ (r.0 ≡ announcement 14 5 (host_get_line_config r.1 (some 3)) ∷ []))
      (firmware_step busy_process (begins (baud_config 1200 28)))
begin-host_get_line_config_example =
    begin-host_get_line_config busy_process 3 14 busy (baud_config 1200 28) busy_line busy_instance
      refl refl

abbrev eight_n_1 : Framing
eight_n_1 = record { data_bits = 8; parity = 0; stop_bits_x10 = 10 }

eight_n_1-IsFraming : IsFraming eight_n_1
eight_n_1-IsFraming = record {
  bits_from = omega arith;
  bits_to = omega arith;
  a_parity = omega arith;
  a_stop = inl refl;
}

-- The second instance reads what was fed to the first.
abbrev two_sessions : List Call
two_sessions =
    creates dir true (some 3)
    ∷ feeds (codes "AT")
    ∷ acts reads
    ∷ acts (prints (codes "OK"))
    ∷ takes
    ∷ destroys []
    ∷ creates dir true (some 4)
    ∷ acts reads
    ∷ []

abbrev got_of : Result (Traffic × Process) → List ℕ
got_of (ok (t, p)) = t.got
got_of r = []

stale_read : got_of (traffic fresh two_sessions) ≡ codes "AT"
unfolding traffic Port.set_line_config_callback Port.set_data_ready_callback join request_stop
    release
stale_read = refl

traffic_lem_example :
    Fine {A = Traffic × Process}
      (λ r.
        (r.0.got ++ r.1.serial.input ≡ r.0.fed)
        × (r.0.drained ++ r.1.serial.rx_queue ≡ r.0.written))
      (traffic fresh two_sessions)
traffic_lem_example = traffic_lem two_sessions

create-destroy_example :
    Fine {A = Bool × List Out × Process}
      (λ r. Inherits busy_process 4 (create r.2 dir true (some 4)))
      (destroy busy_process (some 3) (returns ∷ returns ∷ []))
create-destroy_example =
    create-destroy busy_process 3 4 109 (codes "odem") returns returns [] busy_process-IsValid
      busy_active

busy_port : busy_process.serial.data_ready_callback ≡ some 3
unfolding create Port.set_line_config_callback Port.set_data_ready_callback
busy_port = refl

prints-host_drain_example :
    Fine {A = List Out × Process}
      (λ r.
        (r.0 ≡ serial_out 11 5 ∷ [])
        × (host_drain (suc (length r.1.serial.rx_queue)) r.1 (some 3)
            ≡ some (busy_process.serial.rx_queue ++ codes "OK", queued busy_process [])))
      (firmware_step busy_process (prints (codes "OK")))
prints-host_drain_example =
    prints-host_drain busy_process 3 11 79 (codes "K") busy busy_port busy_instance refl refl

abbrev octets_history : List Call
octets_history =
    creates (some (some (100 ∷ []))) true (some 5)
    ∷ feeds (65 ∷ 255 ∷ [])
    ∷ acts reads
    ∷ acts (prints (79 ∷ 75 ∷ []))
    ∷ takes
    ∷ []
